-- ===== src/Cli/Auth.antt =====
-- `GitHubAuth` of cli/src/auth.rs, which keeps the credentials of a GitHub app and a secret for each
-- project in a file. GitHub's library, the conversion of headers, the encoding of the file and the
-- failures of the file system are arguments.
pub mod Projects
use faasta.Prelude.{
  ℕ, zero, Text, text, Bool, true, false, not, ◌&&◌, ◌||◌, Option, none, some, List, [], ◌∷◌,
  Result, ok, err, Action, pure, fail, lift, ask, ◌>>=◌, ◌>>◌, is_empty, length, leb, ◌==◌,
  if◌then◌else◌,
}
use faasta.Prelude.Dict
use faasta.Prelude.Dict.{Dict}
use faasta.Db.{Bytes}
use faasta.Codec.{Codec}
use faasta.Sql.Postgres.{join}

pub record AuthConfig : Type 0 where
  pub app_id : ℕ
  pub installation_id : ℕ
  pub private_key : Bytes
  pub user_id : Option Text
  pub project_hmacs : Dict Text

abbrev pub default_config : AuthConfig
default_config = record {
  app_id = 0;
  installation_id = 0;
  private_key = [];
  user_id = none;
  project_hmacs = [];
}

abbrev pub Headers : Type 0
Headers = List (Text × Bytes)

-- What GitHub answers to the question which app this is: another status, no JSON, or JSON with an id
-- that is a text or without one.
pub data AppReply : Type 0 where
  unreachable unreadable : Text → AppReply
  refused : AppReply
  app : Option Text → AppReply

-- `T` is the type of installation tokens. A write that fails leaves some bytes.
pub record Surroundings (T : Type 0) : Type 0 where
  pub codec : Codec AuthConfig
  pub config_dir : Option Text
  pub parent_exists : Text → Bool
  pub create_dir_fault : Option Text
  pub read_fault : Option Text
  pub write_fault : Option (Text × Bytes)
  pub new_token : AuthConfig → Result Text T
  pub headers : T → Result Text Headers
  pub convert : Headers → Result Text Headers
  pub get_app : Headers → AppReply

-- The object, and the file that it keeps.
pub record Keeper (T : Type 0) : Type 0 where
  pub config : AuthConfig
  pub token : Option T
  pub file : Option Bytes

abbrev made : Option Text → Text → Result Text Text
made none path = ok path
made (some e) path = err e

abbrev pub write_file : Option (Text × Bytes) → Bytes → Action (Option Bytes) Text (Unit {0})
write_file none content file = (ok tt, some content)
write_file (some (e, left)) content file = (err e, some left)

module _ {T : Type 0} (out : Surroundings T) where
  abbrev pub read_file : Bytes → Option Text → Result Text AuthConfig
  read_file bytes none = out.codec.decode bytes
  read_file bytes (some e) = err e

  abbrev pub write_default : Result Text Bytes → Action (Option Bytes) Text AuthConfig
  write_default (err e) file = (err e, file)
  write_default (ok content) file =
      (write_file out.write_fault content >>= λ _. pure default_config) file

  unfoldable pub load_config : Action (Option Bytes) Text AuthConfig
  load_config (some bytes) = (read_file bytes out.read_fault, some bytes)
  load_config none = write_default (out.codec.encode default_config) none

  abbrev pub kept : Result Text AuthConfig × Option Bytes → Result Text (Keeper T)
  kept (ok config, file) = ok (record { config = config; token = none; file = file })
  kept (err e, file) = err e

  abbrev parent_made : Text → Result Text Text
  parent_made path = if out.parent_exists path then ok path else made out.create_dir_fault path

  unfoldable pub get_config_path : Option Text → Result Text Text
  get_config_path none = err (text "Could not find user config directory")
  get_config_path (some dir) = parent_made (join dir (text "faasta/github_auth.json"))

  abbrev opened : Result Text Text → Option Bytes → Result Text (Keeper T)
  opened (err e) file = err e
  opened (ok path) file = kept (load_config file)

  -- `GitHubAuth::new` on the file that is there, or none
  unfoldable pub new : Option Bytes → Result Text (Keeper T)
  unfolding get_config_path
  new file = opened (get_config_path out.config_dir) file

  abbrev Method : Type 0 → Type 0
  Method A = Action (Keeper T) Text A

  abbrev pub save_content : Result Text Bytes → Method (Unit {0})
  save_content (err e) s = (err e, s)
  save_content (ok content) s =
      let (r, file) = write_file out.write_fault content s.file in (r, record s { file = file })

  unfoldable pub save_config : Method (Unit {0})
  save_config s = save_content (out.codec.encode s.config) s

  abbrev pub configure : (AuthConfig → AuthConfig) → Method (Unit {0})
  configure f s = (ok tt, record s { config = f s.config })

  unfoldable pub store_project_hmac : Text → Text → Method (Unit {0})
  store_project_hmac project_name hmac = do
    configure (λ c. record c { project_hmacs = Dict.insert project_name hmac c.project_hmacs })
    save_config

  unfoldable pub setup : ℕ → ℕ → Bytes → Method (Unit {0})
  setup app_id installation_id private_key = do
    configure (λ c. record c {
      app_id = app_id;
      installation_id = installation_id;
      private_key = private_key;
    })
    save_config

  -- `self.token.as_mut().unwrap()`, which every caller has filled
  abbrev token_headers : Option T → Result Text Headers
  token_headers none = err (text "called `Option::unwrap()` on a `None` value")
  token_headers (some token) = out.headers token

  abbrev http_headers : Method Headers
  http_headers = do
    found ← ask (λ s. token_headers s.token)
    oauth_headers ← lift found
    lift (out.convert oauth_headers)

  abbrev store_user_id : AppReply → Method (Unit {0})
  store_user_id (unreachable e) = fail e
  store_user_id (unreadable e) = fail e
  store_user_id refused = pure tt
  store_user_id (app none) = pure tt
  store_user_id (app (some id)) = do configure (λ c. record c { user_id = some id }); save_config

  unfoldable pub fetch_and_store_user_id : Method (Unit {0})
  fetch_and_store_user_id = do headers ← http_headers; store_user_id (out.get_app headers)

  unfoldable pub is_configured : AuthConfig → Bool
  is_configured c =
      not (c.app_id == 0) && (not (c.installation_id == 0) && not (is_empty c.private_key))

  abbrev take_token : T → Method (Unit {0})
  take_token token s = (ok tt, record s { token = some token })

  abbrev if_unknown : Option Text → Method (Unit {0})
  if_unknown none = fetch_and_store_user_id
  if_unknown (some id) = pure tt

  abbrev not_configured : Text
  not_configured = text "GitHub App not configured. Run 'cargo faasta auth setup' first."

  unfoldable pub authenticate : Method (Unit {0})
  authenticate s =
      if s.config.app_id == 0 || (s.config.installation_id == 0 || is_empty s.config.private_key)
      then (err not_configured, s)
      else (do
        token ← lift (out.new_token s.config)
        take_token token
        known ← ask (λ t. t.config.user_id)
        if_unknown known)
          s

  abbrev if_needed : Option T → Method (Unit {0})
  if_needed none = authenticate
  if_needed (some token) = pure tt

  unfoldable pub header : Method Headers
  header = do there ← ask (λ s. s.token); if_needed there; http_headers

abbrev keys_of : Dict Text → List Text
keys_of [] = []
keys_of ((k, v) ∷ d) = k ∷ keys_of d

module _ {T : Type 0} where
  unfoldable pub get_project_hmac : Text → Keeper T → Option Text
  get_project_hmac project_name s = Dict.lookup project_name s.config.project_hmacs

  unfoldable pub owns_project : Text → Keeper T → Bool
  owns_project project_name s = elim (Dict.lookup project_name s.config.project_hmacs) [
    | none ↦ false
    | some hmac ↦ true
  ]

  unfoldable pub get_owned_projects : Keeper T → List Text
  get_owned_projects s = keys_of s.config.project_hmacs

  unfoldable pub has_reached_project_limit : Keeper T → Bool
  has_reached_project_limit s = leb 5 (length s.config.project_hmacs)

  abbrev pub get_user_id : Keeper T → Option Text
  get_user_id s = s.config.user_id
