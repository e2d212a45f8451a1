-- ===== src/Cli/Deployment.antt =====
-- A deployment with the server of server/src/rpc_service.rs behind the RPC client.
use faasta.Prelude.{
  true, false, some, none, Text, Bool, Option, ◌∷◌, ◌++◌, ◌≡◌, ◌⊎◌, ◌≤◌, refl, sym, ap, subst, ◌∙◌,
  arith, Result, ok, err, pure, lift, ◌>>=◌, ◌>>◌, bind-eq-ok, bind-ok-then, pure-eq, Yields,
  Yields-lift, ok-injective, length, ltb, Bool-cases, inl, inr,
}
use faasta.Db.{Bytes}
use faasta.Metrics.{Metrics}
use faasta.Server.{Server, Outside, FunctionError, max_wasm_size}
use faasta.Rpc.{publish_impl, unpublish_impl, list_functions_impl, get_metrics_impl, authenticated}
use faasta.Rpc.Commit.{Published, publish_impl-Published}
use faasta.Cli.{
  Machine, CliError, no_artifact, no_credentials, no_function_name, project_error, too_large, Local,
  FunctionServiceClient, Command, answer, call, auth_token, or_exit, or_exit-eq-ok,
  ok_or_exit-eq-ok,
}
use faasta.Cli.Config.{load_credentials}
use faasta.Cli.Urls.{format_function_url, extract_server_host}
use faasta.Cli.Endpoint.{Urls}
use faasta.Cli.Deploy.{
  DeployArgs, default_artifact_path, artifact_of, name_of, build_unless, unless_skipped, upload,
  deploy, read_artifact, read_checked, check_size,
}

-- What the transport gives back where it delivers.
abbrev pub delivered {ℓ} : {A B : Type ℓ} → A × B → Result Text A × B
delivered (a, b) = (ok a, b)

-- A transport that delivers each request to the server once, and its answer.
abbrev pub direct : Outside → Metrics → FunctionServiceClient Server
direct out report = record {
  publish = λ endpoint wasm name token s. delivered (publish_impl out wasm name token s);
  unpublish = λ endpoint name token s. delivered (unpublish_impl out name token s);
  list_functions = λ endpoint token s. delivered (list_functions_impl out token s);
  get_metrics = λ endpoint token s. delivered (get_metrics_impl out report token s);
}

answer-eq-ok :
    {A : Type 0} (r : Result Text (Result FunctionError A)) (a : A)
    → answer r ≡ ok a
    → r ≡ ok (ok a)
answer-eq-ok (err e) a h = cc
answer-eq-ok (ok (err e)) a h = cc
answer-eq-ok (ok (ok b)) a h = cc

call-eq-ok :
    {R A : Type 0} (f : R → Result Text (Result FunctionError A) × R) (m : Machine R) (a : A)
    → (call f m).0 ≡ ok a
    → ((f m.remote).0 ≡ ok (ok a)) × ((call f m).1.remote ≡ (f m.remote).1)
unfolding call
call-eq-ok f m a h = (answer-eq-ok (f m.remote).0 a h, refl)

check_size-eq-ok :
    (wasm found : Bytes)
    → check_size wasm ≡ ok found
    → (wasm ≡ found) × (length wasm ≤ max_wasm_size)
check_size-eq-ok wasm found h = elim (Bool-cases (ltb max_wasm_size (length wasm))) [
  | inl large ↦ absurd (refused (rw large at h))
  | inr small ↦ (ok-injective wasm found (rw small at h), ground (arith, small))
]
  where
    refused : Path (Result CliError Bytes) (err too_large) (ok found) → ⊥
    refused e = cc

module _ (here : Local) where
  read_checked-eq-ok :
      (r : Result Text Bytes) (wasm : Bytes)
      → read_checked here r ≡ ok wasm
      → (r ≡ ok wasm) × (length wasm ≤ max_wasm_size)
  read_checked-eq-ok (err e) wasm h = cc
  read_checked-eq-ok (ok found) wasm h =
      let (same, small) = check_size-eq-ok found wasm h in
      (ap (λ x. ok x) same, subst (λ x. length x ≤ max_wasm_size) same small)

  read_artifact-eq-ok :
      (path : Text) (wasm : Bytes)
      → read_artifact here path ≡ ok wasm
      → (here.read path ≡ ok wasm) × (length wasm ≤ max_wasm_size)
  unfolding read_artifact
  read_artifact-eq-ok path wasm h = elim (Bool-cases (here.exists path)) [
    | inl there ↦ read_checked-eq-ok (here.read path) wasm (rw there at h)
    | inr missing ↦ absurd (refused (rw missing at h))
  ]
    where
      refused : Path (Result CliError Bytes) (err no_artifact) (ok wasm) → ⊥
      refused e = cc

module _ (here : Local) (args : DeployArgs) where
  -- The path and the name of a deployment: those that were given, a name that was not given being the path's
  -- stem; without a path, the release build of the package and the package's name.
  abbrev pub Chosen : Option Text → Option Text → Text → Text → Text → Text → Type 0
  Chosen given_path given_name target crate_name path name =
      ((given_path ≡ some path)
        × ((given_name ≡ some name) ⊎ ((given_name ≡ none) × (here.file_stem path ≡ some name))))
      ⊎ ((given_path ≡ none)
          × (path ≡ default_artifact_path target crate_name)
          × (name ≡ crate_name))

  name_of-Chosen :
      (given_path given_name : Option Text) (target crate_name name : Text)
      → name_of here given_path given_name
          (artifact_of here given_path target crate_name)
          crate_name
        ≡ ok name
      → Chosen given_path given_name target crate_name
          (artifact_of here given_path target crate_name)
          name
  name_of-Chosen (some path) (some given) target crate_name name h =
      inl (refl, inl (ap (λ x. some x) (ok-injective given name h)))
  name_of-Chosen (some path) none target crate_name name h =
      inl (refl, inr (refl, ok_or_exit-eq-ok no_function_name (here.file_stem path) name h))
  name_of-Chosen none given target crate_name name h =
      inr (refl, refl, sym (ok-injective crate_name name h))

  -- The artifact that a deployment takes: where the package and the arguments say it is, with its name.
  pub record Artifact (name : Text) (wasm : Bytes) : Type 0 where
    pub project : Text × Text × Text
    pub found : here.get_project_info ≡ ok project
    pub path : Text
    pub chosen : Chosen args.artifact_path args.function_name project.0 project.1 path name
    pub read : here.read path ≡ ok wasm
    pub small : length wasm ≤ max_wasm_size

  artifact-Artifact :
      (project : Text × Text × Text) (name : Text) (wasm : Bytes)
      → or_exit project_error here.get_project_info ≡ ok project
      → let path = artifact_of here args.artifact_path project.0 project.1 in
        name_of here args.artifact_path args.function_name path project.1 ≡ ok name
        → read_artifact here path ≡ ok wasm
        → Artifact name wasm
  artifact-Artifact project name wasm found called got =
      let path = artifact_of here args.artifact_path project.0 project.1 in
      let (read, small) = read_artifact-eq-ok here path wasm got in
      record {
        project = project;
        found = or_exit-eq-ok project_error here.get_project_info project found;
        path = path;
        chosen =
            name_of-Chosen args.artifact_path args.function_name project.0 project.1 name called;
        read = read;
        small = small;
      }

-- The server accepted the artifact under its name, from the user with these credentials, and this is its URL.
record Uploaded {R : Type 0} (is_ip_address : Text → Bool) (here : Local)
    (client : FunctionServiceClient R) (args : DeployArgs) (found : Option (Text × Text))
    (url : Text) (t : Machine R) : Type 0 where
  pub name : Text
  pub wasm : Bytes
  pub artifact : Artifact here args name wasm
  pub endpoint : Text
  pub username : Text
  pub token : Text
  pub given : found ≡ some (username, token)
  pub message : Text
  pub remote : R
  pub accepted :
      (client.publish endpoint wasm name (auth_token username token) remote).0 ≡ ok (ok message)
  pub left : t.remote ≡ (client.publish endpoint wasm name (auth_token username token) remote).1
  pub printed : url ≡ format_function_url is_ip_address name (extract_server_host args.server)

-- The artifact is in place under its name, which is that in the URL, for the user that the credentials belong to.
pub record Deployed (is_ip_address : Text → Bool) (here : Local) (out : Outside) (args : DeployArgs)
    (credentials : Text × Text) (url : Text) (t : Server) : Type 0 where
  pub name : Text
  pub wasm : Bytes
  pub artifact : Artifact here args name wasm
  pub username : Text
  pub user : authenticated out (credentials.0 ++ b':' ∷ credentials.1) ≡ ok username
  pub in_place : Published out wasm name username t
  pub printed : url ≡ format_function_url is_ip_address name (extract_server_host args.server)

module _ {R U : Type 0} (urls : Urls U) (is_ip_address : Text → Bool) (here : Local)
    (client : FunctionServiceClient R) (args : DeployArgs) where
  abbrev Done : Option (Text × Text) → Text → Machine R → Type 0
  Done found url t = Uploaded is_ip_address here client args found url t

  sent-Done :
      (endpoint name username token : Text) (wasm : Bytes)
      → Artifact here args name wasm
      → Yields
          (call (client.publish endpoint wasm name (auth_token username token)) >>= λ _.
            pure (format_function_url is_ip_address name (extract_server_host args.server)))
          (Done (some (username, token)))
  sent-Done endpoint name username token wasm artifact = record {
    answers = λ m url h.
        let (message, sent, e) =
          bind-eq-ok (call (client.publish endpoint wasm name (auth_token username token))) _ m h in
        let (got, remote) =
          call-eq-ok (client.publish endpoint wasm name (auth_token username token)) m message
            sent in
        let whole = e ∙ pure-eq _ _ in
        record {
          name = name;
          wasm = wasm;
          artifact = artifact;
          endpoint = endpoint;
          username = username;
          token = token;
          given = refl;
          message = message;
          remote = m.remote;
          accepted = got;
          left = ap (λ x. x.1.remote) whole ∙ remote;
          printed = ok-injective _ _ (sym h ∙ ap (λ x. x.0) whole);
        };
  }

  upload-Done :
      (name : Text) (wasm : Bytes) (credentials : Option (Text × Text))
      → Artifact here args name wasm
      → Yields
          (upload here urls is_ip_address client args.server name wasm credentials)
          (Done credentials)
  unfolding upload
  upload-Done name wasm none artifact =
      Yields-lift _ _ (Done none) λ found h. absurd (refused found h)
    where
      refused :
          (found : Text × Text)
          → ¬ (Path (Result CliError (Text × Text)) (err no_credentials) (ok found))
      refused found h = cc
  upload-Done name wasm (some found) artifact = Yields-lift _ _ (Done (some found)) λ same h.
      Yields-lift _ _ (Done (some found)) λ endpoint _.
        subst
          (λ c.
            Yields
              (call (client.publish endpoint wasm name (auth_token c.0 c.1)) >>= λ _.
                pure (format_function_url is_ip_address name (extract_server_host args.server)))
              (Done (some found)))
          (ok-injective found same h) (sent-Done endpoint name found.0 found.1 wasm artifact)

  -- What follows the reading of the credentials.
  abbrev deploy_with : Option (Text × Text) → Command R Text
  deploy_with found = do
    project ← lift (or_exit project_error here.get_project_info)
    lift (build_unless here args.artifact_path project.2)
    function_name ← lift (
        name_of here args.artifact_path args.function_name
          (artifact_of here args.artifact_path project.0 project.1) project.1)
    artifact ← lift (read_artifact here (artifact_of here args.artifact_path project.0 project.1))
    upload here urls is_ip_address client args.server function_name artifact found

  deploy_with-Done : (found : Option (Text × Text)) → Yields (deploy_with found) (Done found)
  deploy_with-Done found = Yields-lift _ _ (Done found) λ project known.
      Yields-lift _ _ (Done found) λ _ _. Yields-lift _ _ (Done found) λ name called.
        Yields-lift _ _ (Done found) λ wasm read.
          upload-Done name wasm found
            (artifact-Artifact here args project name wasm known called read)

  deploy-Done :
      (m : Machine R) (url : Text)
      → (deploy here urls is_ip_address client args m).0 ≡ ok url
      → (found : Option (Text × Text)) × ((unless_skipped here args.skip_auth m).0 ≡ ok found)
        × Done found url (deploy here urls is_ip_address client args m).1
  unfolding deploy
  deploy-Done m url h =
      let (found, got, split) = bind-eq-ok (unless_skipped here args.skip_auth) deploy_with m h in
      (
        found,
        got,
        subst (λ x. Done found url x.1) (sym split)
            ((deploy_with-Done found).answers _ url (sym (ap (λ x. x.0) split) ∙ h)),
      )

-- Credentials come from the configuration alone.
unless_skipped-eq-ok :
    {R : Type 0} (here : Local) (skip_auth : Bool) (m : Machine R) (credentials : Text × Text)
    → (unless_skipped here skip_auth m).0 ≡ ok (some credentials)
    → (load_credentials here m).0 ≡ ok credentials
unless_skipped-eq-ok here true m credentials h =
    absurd (refused (sym (ap (λ x. x.0) (pure-eq none m)) ∙ h))
  where
    refused : ¬ (Path (Result CliError (Option (Text × Text))) (ok none) (ok (some credentials)))
    refused e = cc
unless_skipped-eq-ok here false m credentials h =
    let (found, got, last) = bind-ok-then (load_credentials here) _ m h in
    got ∙ ap (λ c. ok c) (same found (sym (ap (λ x. x.0) (pure-eq (some found) _)) ∙ last))
  where
    same :
        (found : Text × Text)
        → Path (Result CliError (Option (Text × Text))) (ok (some found)) (ok (some credentials))
        → found ≡ credentials
    same found e = cc

published :
    (is_ip_address : Text → Bool) (here : Local) (out : Outside) (report : Metrics)
    (args : DeployArgs) (found : Option (Text × Text)) (url : Text) (t : Machine Server)
    → Uploaded is_ip_address here (direct out report) args found url t
    → (credentials : Text × Text) × (found ≡ some credentials)
      × Deployed is_ip_address here out args credentials url t.remote
published is_ip_address here out report args found url t done =
    let (username, user, published) =
      publish_impl-Published out done.wasm done.name (auth_token done.username done.token)
        done.message done.remote (ok-injective _ _ done.accepted) in
    (
      (done.username, done.token),
      done.given,
      record {
        name = done.name;
        wasm = done.wasm;
        artifact = done.artifact;
        username = username;
        user = user;
        in_place = rw done.left published;
        printed = done.printed;
      },
    )

pub deploy-Deployed :
    {U : Type 0} (urls : Urls U) (is_ip_address : Text → Bool) (here : Local) (out : Outside)
    (report : Metrics) (args : DeployArgs) (m : Machine Server) (url : Text)
    → (deploy here urls is_ip_address (direct out report) args m).0 ≡ ok url
    → (credentials : Text × Text) × ((load_credentials here m).0 ≡ ok credentials)
      × Deployed is_ip_address here out args credentials url
          (deploy here urls is_ip_address (direct out report) args m).1.remote
deploy-Deployed urls is_ip_address here out report args m url h =
    let (found, got, done) = deploy-Done urls is_ip_address here (direct out report) args m url h in
    let (credentials, given, deployed) =
      published is_ip_address here out report args found url _ done in
    (
      credentials,
      unless_skipped-eq-ok here args.skip_auth m credentials (got ∙ ap (λ c. ok c) given),
      deployed,
    )
