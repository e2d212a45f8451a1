-- ===== src/Cli.antt =====
-- The command line of cli/src: what it keeps on the user's machine and what it is given from outside.
pub mod Config
pub mod Urls
pub mod Reached
pub mod Endpoint
pub mod Oauth
pub mod LoginFlow
pub mod Deploy
pub mod Requests
pub mod Init
pub mod Auth
pub mod Project
pub mod Create
pub mod Deployment
pub mod SkipAuth
pub mod Login
use faasta.Prelude.{
  ℕ, Text, text, Bool, Option, none, some, List, [], ◌∷◌, ◌++◌, Result, ok, err, Action, pure, fail,
  lift, ◌>>=◌, ◌≡◌,
}
use faasta.Db.{Bytes}
use faasta.Metrics.{Metrics}
use faasta.Server.{FunctionError, FunctionInfo}

pub record FaastaConfig : Type 0 where
  pub github_username : Option Text
  pub github_token : Option Text

abbrev pub default_config : FaastaConfig
default_config = record { github_username = none; github_token = none }

-- The directory ~/.faasta, the file config.json in it, and what is behind the RPC client.
pub record Machine (R : Type 0) : Type 0 where
  pub config_dir : Bool
  pub config_file : Option Text
  pub remote : R

-- How a command ends by `exit(1)`.
pub data CliError : Type 0 where
  no_credentials no_function_name no_artifact too_large no_username no_token : CliError
  config_error project_error build_error unreadable connect_error communication login_error :
      Text → CliError
  server_error : FunctionError → CliError

-- What a command meets on the machine: the failures of the file system, a write that fails leaving
-- some text, the encoding of the configuration, cargo, and the artifact.
pub record Local : Type 0 where
  pub mkdir_fault : Option Text
  pub read_fault : Option Text
  pub write_fault : Option (Text × Text)
  pub to_string_pretty : FaastaConfig → Result Text Text
  pub from_str : Text → Result Text FaastaConfig
  pub get_project_info : Result Text (Text × Text × Text)
  pub build_project : Text → Result Text (Unit {0})
  pub file_stem : Text → Option Text
  pub exists : Text → Bool
  pub read : Text → Result Text Bytes

-- The RPC client for an endpoint: a failure of the transport, or the answer of the server.
pub record FunctionServiceClient (R : Type 0) : Type 0 where
  pub publish : Text → Bytes → Text → Text → R → Result Text (Result FunctionError Text) × R
  pub unpublish : Text → Text → Text → R → Result Text (Result FunctionError (Unit {0})) × R
  pub list_functions : Text → Text → R → Result Text (Result FunctionError (List FunctionInfo)) × R
  pub get_metrics : Text → Text → R → Result Text (Result FunctionError Metrics) × R

abbrev pub Command : Type 0 → Type 0 → Type 0
Command R A = Action (Machine R) CliError A

-- An error of a step becomes one of the command.
abbrev pub or_exit {ℓ} : {A : Type ℓ} → (Text → CliError) → Result Text A → Result CliError A
or_exit e (ok a) = ok a
or_exit e (err x) = err (e x)

abbrev pub ok_or_exit {ℓ} : {A : Type ℓ} → CliError → Option A → Result CliError A
ok_or_exit e (some a) = ok a
ok_or_exit e none = err e

pub or_exit-eq-ok :
    {A : Type 0} (e : Text → CliError) (r : Result Text A) (a : A) → or_exit e r ≡ ok a → r ≡ ok a
or_exit-eq-ok e (ok b) a h = cc
or_exit-eq-ok e (err x) a h = cc

pub ok_or_exit-eq-ok :
    {A : Type 0} (e : CliError) (o : Option A) (a : A) → ok_or_exit e o ≡ ok a → o ≡ some a
ok_or_exit-eq-ok e (some b) a h = cc
ok_or_exit-eq-ok e none a h = cc

abbrev pub answer {ℓ} : {A : Type ℓ} → Result Text (Result FunctionError A) → Result CliError A
answer (err e) = err (communication e)
answer (ok (err e)) = err (server_error e)
answer (ok (ok a)) = ok a

-- A call of the RPC client.
unfoldable pub call : {R A : Type 0} → (R → Result Text (Result FunctionError A) × R) → Command R A
call f m = let (r, remote) = f m.remote in (answer r, record m { remote = remote })

-- `format!("{username}:{token}")`
abbrev pub auth_token : Text → Text → Text
auth_token username token = username ++ b':' ∷ token
