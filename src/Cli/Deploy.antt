-- ===== src/Cli/Deploy.antt =====
-- `deploy`, and `build --deploy`, of cli/src/main.rs. What is printed besides the URL is left out.
use faasta.Prelude.{
  Text, text, Bool, true, false, Option, none, some, [], ◌∷◌, ◌++◌, ◌==◌, Result, ok, err, pure,
  lift, ◌>>=◌, ◌>>◌, length, ltb, if◌then◌else◌,
}
use faasta.Db.{Bytes}
use faasta.Server.{max_wasm_size}
use faasta.Sql.Postgres.{join}
use faasta.Cli.{
  CliError, no_credentials, no_function_name, no_artifact, too_large, project_error, build_error,
  unreadable, connect_error, Local, FunctionServiceClient, Command, or_exit, ok_or_exit, call,
  auth_token,
}
use faasta.Cli.Config.{load_credentials}
use faasta.Cli.Urls.{extract_server_host, format_function_url}
use faasta.Cli.Endpoint.{Urls, normalize_endpoint}

-- `DeployArgs`, and the part of `BuildArgs` that a deployment uses.
pub record DeployArgs : Type 0 where
  pub skip_auth : Bool
  pub artifact_path : Option Text
  pub function_name : Option Text
  pub server : Text

-- `package_name.replace('-', "_")`
abbrev pub underscores : Text → Text
underscores [] = []
underscores (c ∷ s) = (if c == b'-' then b'_' else c) ∷ underscores s

unfoldable pub default_artifact_path : Text → Text → Text
default_artifact_path target_directory package_name =
    join (join (join target_directory (text "wasm32-wasip3")) (text "release"))
      (underscores package_name ++ text ".wasm")

abbrev pub check_size : Bytes → Result CliError Bytes
check_size artifact = if ltb max_wasm_size (length artifact) then err too_large else ok artifact

module _ (here : Local) where
  abbrev pub artifact_of : Option Text → Text → Text → Text
  artifact_of (some explicit_path) target_directory package_name = explicit_path
  artifact_of none target_directory package_name =
      default_artifact_path target_directory package_name

  -- The name, by whether a path and a name were given.
  abbrev pub name_of : Option Text → Option Text → Text → Text → Result CliError Text
  name_of (some path) (some name) artifact_path package_name = ok name
  name_of (some path) none artifact_path package_name =
      ok_or_exit no_function_name (here.file_stem artifact_path)
  name_of none name artifact_path package_name = ok package_name

  abbrev pub read_checked : Result Text Bytes → Result CliError Bytes
  read_checked (err e) = err (unreadable e)
  read_checked (ok artifact) = check_size artifact

  -- The artifact, where it is there, can be read and is not too large.
  unfoldable pub read_artifact : Text → Result CliError Bytes
  read_artifact path = if here.exists path then read_checked (here.read path) else err no_artifact

  abbrev pub build_unless : Option Text → Text → Result CliError (Unit {0})
  build_unless (some path) package_root = ok tt
  build_unless none package_root = or_exit build_error (here.build_project package_root)

  abbrev pub unless_skipped : {R : Type 0} → Bool → Command R (Option (Text × Text))
  unless_skipped true = pure none
  unless_skipped false = load_credentials here >>= λ found. pure (some found)

  abbrev pub or_none :
      {R : Type 0} → Result CliError (Text × Text) × R → Result CliError (Option (Text × Text)) × R
  or_none (ok found, m) = (ok (some found), m)
  or_none (err e, m) = (ok none, m)

  -- The credentials where they can be read.
  abbrev pub found_or_none : {R : Type 0} → Command R (Option (Text × Text))
  found_or_none m = or_none (load_credentials here m)

  module _ {R U : Type 0} (urls : Urls U) (is_ip_address : Text → Bool)
      (client : FunctionServiceClient R) where
    -- What the server is asked, and the URL that is printed.
    unfoldable pub upload : Text → Text → Bytes → Option (Text × Text) → Command R Text
    upload server function_name artifact credentials = do
      found ← lift (ok_or_exit no_credentials credentials)
      endpoint ← lift (or_exit connect_error (normalize_endpoint urls server))
      call (client.publish endpoint artifact function_name (auth_token found.0 found.1))
      pure (format_function_url is_ip_address function_name (extract_server_host server))

    abbrev pub if_deployed : Bool → DeployArgs → Text → Text → Command R (Option Text)
    if_deployed false args target_directory package_name = pure none
    if_deployed true args target_directory package_name = do
      found ← found_or_none
      function_name ← lift (
          name_of args.artifact_path args.function_name
            (artifact_of args.artifact_path target_directory package_name) package_name)
      artifact ← lift (read_artifact (artifact_of args.artifact_path target_directory package_name))
      url ← upload args.server function_name artifact found
      pure (some url)

    unfoldable pub deploy : DeployArgs → Command R Text
    deploy args = do
      found ← unless_skipped args.skip_auth
      project ← lift (or_exit project_error here.get_project_info)
      lift (build_unless args.artifact_path project.2)
      function_name ← lift (
          name_of args.artifact_path args.function_name
            (artifact_of args.artifact_path project.0 project.1) project.1)
      artifact ← lift (read_artifact (artifact_of args.artifact_path project.0 project.1))
      upload args.server function_name artifact found

    -- `build`, and `build --deploy`, which builds in any case and reads the configuration afterwards; what
    -- goes wrong there is told after the artifact was read.
    unfoldable pub build : Bool → DeployArgs → Command R (Option Text)
    build deploys args = do
      project ← lift (or_exit project_error here.get_project_info)
      lift (or_exit build_error (here.build_project project.2))
      if_deployed deploys args project.0 project.1
