-- ===== src/Rpc.antt =====
-- `FunctionServiceImpl` of server/src/rpc_service.rs.
pub mod Keeps
pub mod Service
pub mod Quota
pub mod Publish
pub mod Commit
pub mod Unpublish
pub mod Others
use faasta.Prelude.{
  ℕ, Text, text, Bool, true, false, not, ◌&&◌, ◌||◌, Option, none, some, List, [], ◌∷◌, ◌++◌,
  Result, ok, err, Action, pure, fail, lift, ask, ◌>>=◌, ◌>>◌, all, length, ltb, leb, ◌==◌,
  if◌then◌else◌, is_empty, text_eq, is_ascii_alphanumeric,
}
use faasta.Prelude.Dict
use faasta.Prelude.Decimal.{to_string}
use faasta.Db
use faasta.Db.{Bytes, Database}
use faasta.GithubAuth.{
  authenticate_github, can_upload_project, add_project, remove_project, get_user_projects,
}
use faasta.Metrics.{Metrics}
use faasta.Server.{
  max_wasm_size, FunctionError, auth_error, not_found, permission_denied, invalid_input,
  internal_error, FunctionInfo, Server, Outside, wasm_file, cwasm_file, temp_file, Handler, on_auth,
  set_files, remove_from_cache,
}

abbrev pub invalid_token : FunctionError
invalid_token = auth_error (text "Invalid GitHub authentication token")

abbrev pub accepted : Result Text (Text × Bool) → Result FunctionError Text
accepted (err e) = err (auth_error (text "Authentication error: " ++ e))
accepted (ok (username, is_valid)) =
    if not is_valid || is_empty username then err invalid_token else ok username

-- The head of every method: the user that the token belongs to.
unfoldable pub authenticated : Outside → Text → Result FunctionError Text
authenticated out token = accepted (authenticate_github out.github token)

-- `char::is_alphanumeric`
abbrev pub is_alphanumeric : Outside → ℕ → Bool
is_alphanumeric out c = if ltb c 0x80 then is_ascii_alphanumeric c else out.unicode_alphanumeric c

unfoldable pub valid_name : Outside → Text → Bool
valid_name out name =
    not (is_empty name) && all (λ c. is_alphanumeric out c || c == b'_' || c == b'-') name

unfoldable pub require : Bool → FunctionError → Handler (Unit {0})
require true e = pure tt
require false e = fail e

abbrev pub invalid_function_name : FunctionError
invalid_function_name =
    invalid_input
      (text "Invalid function name. Use only alphanumeric characters, underscores, and hyphens.")

abbrev pub too_large : ℕ → FunctionError
too_large size = invalid_input (
    text "Artifact too large. Maximum allowed size is 30MB, but received "
    ++ (to_string size ++ text " bytes"))

abbrev pub decode_info : Outside → Bytes → Result FunctionError FunctionInfo
decode_info out bytes = elim (out.info_codec.decode bytes) [
  | ok info ↦ ok info
  | err e ↦ err (internal_error (text "Failed to deserialize function info: " ++ e))
]

abbrev pub metadata_error : Text → FunctionError
metadata_error e = internal_error (text "Failed to get function metadata: " ++ e)

abbrev pub of_metadata {ℓ} : {A : Type ℓ} → Result Text A → Result FunctionError A
of_metadata (ok a) = ok a
of_metadata (err e) = err (metadata_error e)

-- The function exists on disk: only its owner goes on.
pub check_owner : Outside → Text → Option Bytes → Handler (Unit {0})
check_owner out username (some entry_bytes) = do
  info ← lift (decode_info out entry_bytes)
  require (text_eq info.owner username) (
      permission_denied
        (text "A function with this name already exists and belongs to another user"))
check_owner out username none = fail (
    permission_denied
      (text "A function with this name already exists. Please choose a different name."))

abbrev pub add_error : Result Text (Unit {0}) → Result FunctionError (Unit {0})
add_error (ok u) = ok u
add_error (err e) = err (internal_error (text "Failed to add project: " ++ e))

-- A new function counts against the limit, and its name is entered in the user's list.
unfoldable pub register : Outside → Text → Text → Handler (Unit {0})
register out username name s =
    if can_upload_project username name s.user_projects
    then (let (r, s') = on_auth (add_project out.user_codec out.fault username name) s in
        (add_error r, s'))
    else (err (permission_denied (text "You have reached the maximum limit of 10 projects")), s)

pub update : Outside → Text → Text → Handler (Unit {0})
update out username name = do
  found ← ask (λ s. Db.get_function out.fault name s.db)
  entry ← lift (of_metadata found)
  check_owner out username entry

unfoldable pub claim : Outside → Text → Text → Handler (Unit {0})
claim out username name s = elim (Dict.lookup (wasm_file name) s.files) [
  | some _ ↦ update out username name s
  | none ↦ register out username name s
]

abbrev pub io : Option Text → Text → Server → Server → Result FunctionError (Unit {0}) × Server
io none what failed done = (ok tt, done)
io (some e) what failed done = (err (internal_error (what ++ e)), failed)

unfoldable pub create_temp : Outside → Text → Handler (Unit {0})
create_temp out name s =
    io out.create_fault (text "Failed to create temp file: ") s
      (set_files (Dict.insert (temp_file name) [] s.files) s)

unfoldable pub write_temp : Outside → Text → Bytes → Handler (Unit {0})
write_temp out name bytes s =
    io out.write_fault (text "Failed to write temp file: ")
      (set_files (Dict.insert (temp_file name) (out.cut bytes) s.files) s)
      (set_files (Dict.insert (temp_file name) bytes s.files) s)

unfoldable pub sync_temp : Outside → Handler (Unit {0})
sync_temp out s = io out.sync_fault (text "Failed to sync temp file: ") s s

-- The rename moves what the temporary file holds.
unfoldable pub rename_temp : Outside → Text → Handler (Unit {0})
rename_temp out name s = elim (Dict.lookup (temp_file name) s.files) [
  | none ↦ (err (internal_error (text "Failed to commit file: ")), s)
  | some contents ↦
      io out.rename_fault (text "Failed to commit file: ") s
        (set_files (Dict.insert (wasm_file name) contents (Dict.erase (temp_file name) s.files)) s)
]

unfoldable pub commit_artifact : Outside → Text → Bytes → Handler (Unit {0})
commit_artifact out name bytes = do
  create_temp out name
  write_temp out name bytes
  sync_temp out
  rename_temp out name

abbrev pub usage_of : Text → Text
usage_of name = text "https://" ++ (name ++ (text ".faasta.lol or https://faasta.lol/" ++ name))

abbrev pub new_info : Outside → Text → Text → FunctionInfo
new_info out username name = record {
  name = name;
  owner = username;
  published_at = out.now;
  usage = usage_of name;
}

abbrev pub persisted : Result Text (Unit {0}) → Result FunctionError (Unit {0})
persisted (ok u) = ok u
persisted (err e) = err (internal_error (text "Failed to persist function metadata: " ++ e))

abbrev pub save_info : Outside → Text → Result Text Bytes → Handler (Unit {0})
save_info out name (err e) s =
    (err (internal_error (text "Failed to serialize function metadata: " ++ e)), s)
save_info out name (ok meta) s =
    let (r, db) = Db.put_function out.fault name meta s.db in
    (persisted r, record s { auth = record s.auth { db = db } })

unfoldable pub record_info : Outside → Text → Text → Handler (Unit {0})
record_info out username name =
    save_info out name (out.info_codec.encode (new_info out username name))

unfoldable pub publish_impl : Outside → Bytes → Text → Text → Handler Text
publish_impl out artifact_bytes name token = do
  username ← lift (authenticated out token)
  require (valid_name out name) invalid_function_name
  require (leb (length artifact_bytes) max_wasm_size) (too_large (length artifact_bytes))
  claim out username name
  remove_from_cache name
  commit_artifact out name artifact_bytes
  record_info out username name
  pure (text "Function '" ++ (name ++ text "' published successfully"))

-- A removal that fails is logged, and the file stays.
pub remove_file : Outside → Text → Server → Server
remove_file out file s = elim (Dict.lookup file s.files) [
  | none ↦ s
  | some _ ↦ elim (out.remove_fault file) [
    | none ↦ set_files (Dict.erase file s.files) s
    | some e ↦ s
  ]
]

-- Both kinds of artifact, then the metadata, then the user's list; no failure ends the removal.
pub remove_function : Outside → Text → Text → Server → Server
remove_function out username name s =
    let s' = remove_file out (cwasm_file name) (remove_file out (wasm_file name) s) in
    let (_, db) = Db.delete_function out.fault name s'.db in
    let s'' = record s' { auth = record s'.auth { db = db } } in
    (on_auth (remove_project out.user_codec out.fault username name) s'').1

abbrev pub function_not_found : Text → FunctionError
function_not_found name = not_found (text "Function '" ++ (name ++ text "' not found"))

abbrev pub not_yours : FunctionError
not_yours = permission_denied (text "You don't have permission to unpublish this function")

pub do_remove : Outside → Text → Text → Handler (Unit {0})
do_remove out username name s = (ok tt, remove_function out username name s)

pub remove_entry : Outside → Text → Text → Option Bytes → Handler (Unit {0})
remove_entry out username name none = fail (function_not_found name)
remove_entry out username name (some entry_bytes) = do
  info ← lift (decode_info out entry_bytes)
  require (text_eq info.owner username) not_yours
  do_remove out username name

unfoldable pub unpublish_impl : Outside → Text → Text → Handler (Unit {0})
unpublish_impl out name token = do
  username ← lift (authenticated out token)
  found ← ask (λ s. Db.get_function out.fault name s.db)
  entry ← lift (of_metadata found)
  remove_entry out username name entry

-- Projects with no metadata, or metadata that cannot be read, are left out.
abbrev listed : Outside → Result Text (Option Bytes) → List FunctionInfo → List FunctionInfo
listed out (err e) infos = infos
listed out (ok none) infos = infos
listed out (ok (some value)) infos = elim (out.info_codec.decode value) [
  | ok info ↦ info ∷ infos
  | err e ↦ infos
]

list_projects : Outside → Database → List Text → List FunctionInfo
list_projects out db [] = []
list_projects out db (project_name ∷ projects) =
    listed out (Db.get_function out.fault project_name db) (list_projects out db projects)

abbrev projects_or_none : Option (List Text) → List Text
projects_or_none none = []
projects_or_none (some projects) = projects

unfoldable pub list_functions_impl : Outside → Text → Handler (List FunctionInfo)
unfolding list_projects
list_functions_impl out token = do
  username ← lift (authenticated out token)
  ask (λ s. list_projects out s.db (projects_or_none (get_user_projects username s.auth)))

-- `get_metrics_impl`: what `get_metrics` of Metrics reports goes to every user alike.
unfoldable pub get_metrics_impl : Outside → Metrics → Text → Handler Metrics
get_metrics_impl out report token = do username ← lift (authenticated out token); pure report
