-- ===== src/Tests/Publications.antt =====
-- Publications, removals and requests on the server of Tests.
use faasta.Prelude.{
  Text, text, some, [], ◌∷◌, ◌++◌, ◌≡◌, ◌≢◌, ◌⊎◌, refl, ok, text_eq, ◌>>=◌, split_once,
  strip_prefix, trim, is_ascii_alphanumeric, is_whitespace,
}
use faasta.Prelude.Dict
use faasta.Db
use faasta.Db.{Bytes}
use faasta.GithubAuth.{
  authenticate_github, token_parts, can_upload_project, add_project, with_project, store_user,
}
use faasta.GithubAuth.Limit.{WithinLimit}
use faasta.Server.{Server, Outside, wasm_file, remove_from_cache}
use faasta.Rpc.{
  claim, register, create_temp, write_temp, sync_temp, rename_temp, commit_artifact, record_info,
  authenticated, valid_name, require, publish_impl, unpublish_impl,
}
use faasta.Rpc.Publish.{SameFunctions, Authorised, publish_impl_guarded}
use faasta.Rpc.Unpublish.{MayRemove, IsOrphan, unpublish_impl_guarded, orphan_blocked}
use faasta.Rpc.Service.{publish, unpublish, serve}
use faasta.Rpc.Quota.{serve-WithinLimit}
use faasta.Rpc.Commit.{Published, publish_impl-Published}
use faasta.Tests.{empty_server, empty_database, empty_auth, calm, token, artifact}

abbrev pub app : Text
app = text "app"

publish_impl_guarded_example :
    SameFunctions empty_server (publish_impl calm artifact app token empty_server).1
    ⊎ Authorised calm empty_server artifact app token
publish_impl_guarded_example = publish_impl_guarded calm artifact app token empty_server

-- A function of ann's.
abbrev pub anns_server : Server
anns_server = record {
  auth = record empty_auth { db = record empty_database { functions = (app, text "ann") ∷ [] } };
  files = (wasm_file app, artifact) ∷ [];
  cache = [];
  past = [];
}

unpublish_impl_guarded_example :
    ((unpublish_impl calm app token anns_server).1 ≡ anns_server)
    ⊎ MayRemove calm anns_server app token
unpublish_impl_guarded_example = unpublish_impl_guarded calm app token anns_server

nobody-WithinLimit : WithinLimit []
unfolding Dict.lookup
nobody-WithinLimit = record { at_user = λ u d e. cc }

serve-WithinLimit_example :
    WithinLimit
      (serve empty_server
        ((calm, publish artifact app token) ∷ (calm, unpublish app token) ∷ [])).user_projects
serve-WithinLimit_example =
    serve-WithinLimit empty_server
      ((calm, publish artifact app token) ∷ (calm, unpublish app token) ∷ []) nobody-WithinLimit

abbrev pub done_message : Text
done_message = text "Function '" ++ (app ++ text "' published successfully")

pub published_app : (publish_impl calm artifact app token empty_server).0 ≡ ok done_message
unfolding publish_impl ◌>>=◌ authenticated authenticate_github token_parts valid_name claim register
    create_temp write_temp sync_temp rename_temp commit_artifact record_info require
    remove_from_cache add_project store_user with_project can_upload_project Dict.lookup Dict.insert
    Dict.erase text_eq split_once trim strip_prefix is_ascii_alphanumeric is_whitespace Db.put_user
    Db.put_function
published_app = refl

publish_impl-Published_example :
    (username : Text) × (authenticated calm token ≡ ok username)
    × Published calm artifact app username (publish_impl calm artifact app token empty_server).1
publish_impl-Published_example =
    publish_impl-Published calm artifact app token done_message empty_server published_app

-- The artifact of a function without metadata.
abbrev orphaned_server : Server
orphaned_server = record empty_server { files = (wasm_file app, artifact) ∷ [] }

orphaned_server-IsOrphan : IsOrphan orphaned_server app
unfolding Dict.lookup text_eq
orphaned_server-IsOrphan = record { old = artifact; artifact = refl; unknown = refl }

orphan_blocked_example :
    ((publish_impl calm artifact app token orphaned_server).0 ≢ ok done_message)
    × ((unpublish_impl calm app token orphaned_server).0 ≢ ok tt)
orphan_blocked_example =
    orphan_blocked calm artifact app token done_message orphaned_server orphaned_server-IsOrphan

-- Files cannot be removed.
abbrev stuck : Outside
stuck = record calm { remove_fault = λ file. some (text "permission denied") }

app_file : Dict.lookup (wasm_file app) anns_server.files ≡ some artifact
unfolding Dict.lookup text_eq
app_file = refl
