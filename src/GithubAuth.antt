-- ===== src/GithubAuth.antt =====
-- `GitHubAuth` of server/src/github_auth.rs: who a token belongs to, and which projects a user has.
-- GitHub's answer, the encoding of a user's data and the failures of the database are arguments.
pub mod Tokens
pub mod Limit
pub mod Persistence
use faasta.Prelude.{
  ℕ, Text, text, Bool, true, false, not, ◌&&◌, ◌||◌, Option, none, some, List, [], ◌∷◌, ◌++◌,
  Result, ok, err, Action, length, leb, if◌then◌else◌, is_empty, text_eq, split_once, strip_prefix,
  trim,
}
use faasta.Prelude.Dict
use faasta.Prelude.Dict.{Dict}
use faasta.Db
use faasta.Db.{Bytes, Database, Faults}
use faasta.Codec.{Codec}

abbrev pub max_projects_per_user : ℕ
max_projects_per_user = 10

pub record UserData : Type 0 where
  pub github_username : Text
  pub projects : List Text

pub record GithubAuth : Type 0 where
  pub user_projects : Dict UserData
  pub db : Database

-- What the request for `https://api.github.com/user` comes to: an error of the connection, or a
-- status with a body that may fail to parse and may have no text under `login`.
pub data Reply : Type 0 where
  unreachable : Text → Reply
  answered : ℕ → Result Text (Option Text) → Reply

abbrev strip_bearer : Text → Text
strip_bearer token = elim (strip_prefix (text "Bearer ") token) [ none ↦ token | some rest ↦ rest ]

-- The user name in front of the first colon, if there is one, and the token to send.
unfoldable pub token_parts : Text → Option Text × Text
token_parts token = elim (split_once b':' token) [
  | some (username, token_part) ↦ (some username, trim (strip_bearer token_part))
  | none ↦ (none, trim (strip_bearer token))
]

abbrev pub is_success : ℕ → Bool
is_success status = leb 200 status && leb status 299

abbrev pub or_empty : Option Text → Text
or_empty none = []
or_empty (some login) = login

check_username : Option Text → Text → Text × Bool
check_username none api_username = (api_username, true)
check_username (some provided) api_username = (api_username, text_eq provided api_username)

read_reply : Option Text → Reply → Text × Bool
read_reply provided (unreachable e) = ([], false)
read_reply provided (answered status (err e)) = ([], false)
read_reply provided (answered status (ok login)) =
    if is_success status then check_username provided (or_empty login) else ([], false)

-- Every path of the function returns `Ok`.
unfoldable pub authenticate_github : (Text → Reply) → Text → Result Text (Text × Bool)
unfolding read_reply check_username
authenticate_github github token =
    let (provided, token_value) = token_parts token in ok (read_reply provided (github token_value))

abbrev pub contains : List Text → Text → Bool
contains [] p = false
contains (q ∷ ps) p = text_eq q p || contains ps p

-- `projects.retain(|p| p != project_name)`
unfoldable pub retain_ne : Text → List Text → List Text
retain_ne p [] = []
retain_ne p (q ∷ ps) = let rest = retain_ne p ps in if text_eq q p then rest else q ∷ rest

unfoldable pub can_upload_project : Text → Text → Dict UserData → Bool
can_upload_project username project_name users = elim (Dict.lookup username users) [
  | none ↦ true
  | some user_data ↦ not (
      leb max_projects_per_user (length user_data.projects)
      && not (contains user_data.projects project_name))
]

abbrev pub user_or_new : Text → Option UserData → UserData
user_or_new username none = record { github_username = username; projects = [] }
user_or_new username (some user_data) = user_data

unfoldable pub with_project : Text → UserData → UserData
with_project project_name user_data =
    if contains user_data.projects project_name
    then user_data
    else record user_data { projects = user_data.projects ++ project_name ∷ [] }

unfoldable pub without_project : Text → UserData → UserData
without_project project_name user_data = record user_data {
  projects = retain_ne project_name user_data.projects;
}

module _ (codec : Codec UserData) where
  -- Rows that do not decode are left out.
  abbrev decode_into : Text → Result Text UserData → Dict UserData → Dict UserData
  decode_into username (err e) users = users
  decode_into username (ok user_data) users = Dict.insert username user_data users

  load_users : Dict UserData → List (Text × Bytes) → Dict UserData
  load_users users [] = users
  load_users users ((username, encoded) ∷ rows) =
      load_users (decode_into username (codec.decode encoded) users) rows

module _ (codec : Codec UserData) (fault : Faults) where
  abbrev save_bytes : Text → Result Text Bytes → Action GithubAuth Text (Unit {0})
  save_bytes username (err e) s = (err e, s)
  save_bytes username (ok bytes) s =
      let (r, db) = Db.put_user fault username bytes s.db in (r, record s { db = db })

  -- The map is written first, then the database.
  unfoldable pub store_user : Text → UserData → Action GithubAuth Text (Unit {0})
  store_user username user_data s =
      save_bytes username (codec.encode user_data)
        (record s { user_projects = Dict.insert username user_data s.user_projects })

  unfoldable pub add_project : Text → Text → Action GithubAuth Text (Unit {0})
  add_project username project_name s =
      store_user username
        (with_project project_name (user_or_new username (Dict.lookup username s.user_projects))) s

  unfoldable pub remove_project : Text → Text → Action GithubAuth Text (Unit {0})
  remove_project username project_name s = elim (Dict.lookup username s.user_projects) [
    | none ↦ (ok tt, s)
    | some user_data ↦ store_user username (without_project project_name user_data) s
  ]

  -- `GitHubAuth::new`
  unfoldable pub new : Database → Result Text GithubAuth
  unfolding load_users
  new db = elim (Db.iter_users fault db) [
    | err e ↦ err e
    | ok rows ↦ ok (record { user_projects = load_users codec [] rows; db = db })
  ]

unfoldable pub get_user_projects : Text → GithubAuth → Option (List Text)
get_user_projects username s = elim (Dict.lookup username s.user_projects) [
  | none ↦ none
  | some user_data ↦ some user_data.projects
]
