-- ===== src/Start/Restart.antt =====
-- A server that is started on the disk of another: nothing that was published is lost.
use faasta.Prelude.{
  Text, text, Bool, true, false, Option, none, some, [], ◌≡◌, inl, inr, refl, ap, sym, ◌∙◌, Result,
  ok, err, ok-injective, Action, pure, ask, lift, ◌>>=◌, lift-ok-then, bind-ok-then, Option-cases,
}
use faasta.Prelude.Dict
use faasta.Db
use faasta.Db.{Bytes, Database, select_users}
use faasta.Codec.{IsLawful}
use faasta.GithubAuth
use faasta.GithubAuth.{GithubAuth}
use faasta.GithubAuth.Persistence.{IsSynced, new-IsSynced}
use faasta.Server.{Server, wasm_file}
use faasta.Routing.{resolve_function_name, sanitize_function_name}
use faasta.Rpc.Others.{Stands}
use faasta.Wire.{HttpRequest, HttpResponse, hyper_response_to_worker, faasta_response_to_http}
use faasta.Http.{Engine, function_dispatch}
use faasta.Http.Answers.{Works, dispatch-answers}
use faasta.Sql.Postgres.{join}
use faasta.Backends.{new_runtime, attempt}
use faasta.Start.{Disk, Boot, made, tls_of, renew_at_start, new_server, start}

-- What a start leaves of a disk: the server that runs on it.
abbrev started : GithubAuth → Disk → Server
started auth d = record { auth = auth; files = d.files; cache = []; past = d.past }

module _ (boot : Boot) where
  renew-files : (b : Bool) (d : Disk) → (renew_at_start boot b d).1.files ≡ d.files
  unfolding renew_at_start
  renew-files true d = refl
  renew-files false d = refl

  renew-db : (b : Bool) (d : Disk) → (renew_at_start boot b d).1.db ≡ d.db
  unfolding renew_at_start
  renew-db true d = refl
  renew-db false d = refl

  renew-past : (b : Bool) (d : Disk) → (renew_at_start boot b d).1.past ≡ d.past
  unfolding renew_at_start
  renew-past true d = refl
  renew-past false d = refl

  renew-started :
      (auth : GithubAuth) (b : Bool) (d : Disk)
      → started auth (renew_at_start boot b d).1 ≡ started auth d
  renew-started auth b d = rw (renew-files b d, renew-past b d) refl

  abbrev with_users : Result Text GithubAuth → Action Disk Text Server
  with_users found = lift found >>= λ auth. ask (λ d. started auth d)

  with_users-eq-ok :
      (found : Result Text GithubAuth) (d : Disk) (t : Server)
      → (with_users found d).0 ≡ ok t
      → (auth : GithubAuth) × (found ≡ ok auth) × (t ≡ started auth d)
  unfolding ◌>>=◌
  with_users-eq-ok (ok auth) d t h = (auth, refl, sym (ok-injective (started auth d) t h))
  with_users-eq-ok (err e) d t h = cc

  new_server-eq-ok :
      (d : Disk) (t : Server)
      → (new_server boot d).0 ≡ ok t
      → (auth : GithubAuth) × (GithubAuth.new boot.user_codec boot.fault d.db ≡ ok auth)
        × (t ≡ started auth d)
  unfolding new_server ◌>>=◌
  new_server-eq-ok d t h =
      let (_, _, first) =
        lift-ok-then
          (made boot (join boot.functions_path (text "sandbox"))
            (text "failed to create sandbox directory at "))
          _ d h in
      with_users-eq-ok (GithubAuth.new boot.user_codec boot.fault d.db) d t first

  -- What is left of a start behind the making of the server.
  abbrev serving : Server → Action Disk Text Server
  serving server = ask (tls_of boot) >>= λ loaded. lift loaded >>= λ _. pure server

  loaded-eq-ok :
      (loaded : Result Text (Unit {0})) (server : Server) (d : Disk) (t : Server)
      → ((lift loaded >>= λ _. pure server) d).0 ≡ ok t
      → t ≡ server
  unfolding ◌>>=◌
  loaded-eq-ok (ok u) server d t h = sym (ok-injective server t h)
  loaded-eq-ok (err e) server d t h = cc

  serving-eq-ok :
      (server : Server) (d : Disk) (t : Server) → (serving server d).0 ≡ ok t → t ≡ server
  unfolding ◌>>=◌
  serving-eq-ok server d t h = loaded-eq-ok (tls_of boot d) server d t h

  start-eq-ok :
      (d : Disk) (t : Server)
      → (start boot d).0 ≡ ok t
      → (auth : GithubAuth) × (GithubAuth.new boot.user_codec boot.fault d.db ≡ ok auth)
        × (t ≡ started auth d)
  unfolding start
  start-eq-ok d t h =
      let (_, _, h1) =
        lift-ok-then (made boot boot.db_path (text "failed to create db directory at ")) _ d h in
      let (_, _, h2) =
        lift-ok-then
          (made boot boot.functions_path (text "failed to create functions directory at ")) _ d
          h1 in
      let (_, _, h3) =
        lift-ok-then (made boot boot.certs_dir (text "failed to create cert directory at ")) _ d
          h2 in
      let (_, _, h4) = bind-ok-then (renew_at_start boot boot.auto_cert) _ d h3 in
      let d' = (renew_at_start boot boot.auto_cert d).1 in
      let (_, _, h5) =
        lift-ok-then (attempt boot.open_error (text "failed to open sqlite db") (ok tt)) _ d' h4 in
      let (_, _, h6) = lift-ok-then (new_runtime boot.env boot.clients) _ d' h5 in
      let (server, made_it, h7) = bind-ok-then (new_server boot) serving d' h6 in
      let same = serving-eq-ok server (new_server boot d').1 t h7 in
      let (auth, found, is) = new_server-eq-ok d' server made_it in
      (
        auth,
        ap (λ db. GithubAuth.new boot.user_codec boot.fault db) (sym (renew-db boot.auto_cert d))
            ∙ found,
        same ∙ is ∙ renew-started auth boot.auto_cert d,
      )

  new-eq-ok :
      (db : Database) (auth : GithubAuth)
      → GithubAuth.new boot.user_codec boot.fault db ≡ ok auth
      → boot.fault select_users ≡ none
  unfolding GithubAuth.new Db.iter_users
  new-eq-ok db auth h = elim (Option-cases (boot.fault select_users)) [
    | inl fine ↦ fine
    | inr (e, bad) ↦ let h' = rw (bad, GithubAuth.new) at h in cc h'
  ]

-- A server that starts on the disk of another one, of which nothing but the disk is left, answers a
-- request to a published function by the same component, and has the same projects for every user; where the
-- first one's users were in step with its database, their encoding is lawful, the name passes the character check, the component
-- compiles and nothing around it fails.
pub restart-answers :
    (boot : Boot) (disk : Disk) (s t : Server) (name : Text) (bytes meta : Bytes)
    → (engine : Engine) (base_domain : Text) (host : Option Text) (path : Text)
      (request : HttpRequest) (response : HttpResponse)
    → disk.files ≡ s.files
    → disk.db ≡ s.db
    → IsLawful boot.user_codec
    → IsSynced boot.user_codec s.auth
    → Stands name bytes meta s
    → (start boot disk).0 ≡ ok t
    → resolve_function_name host path base_domain ≡ some name
    → sanitize_function_name name ≡ some name
    → Works engine name bytes disk.past request response
    → ((function_dispatch engine base_domain host path (ok request) t).0
        ≡ faasta_response_to_http engine.http (hyper_response_to_worker engine.http response))
      × ((u : Text) → Dict.lookup u t.user_projects ≡ Dict.lookup u s.user_projects)
restart-answers boot disk s t name bytes meta engine base_domain host path request response files db
      lawful synced stands done resolved clean w =
    let (auth, found, is) = start-eq-ok boot disk t done in
    let (auth', found', users, _) =
      new-IsSynced boot.user_codec lawful boot.fault s.auth synced
        (new-eq-ok boot disk.db auth found) in
    let same =
      ok-injective auth auth'
        (sym found ∙ ap (λ x. GithubAuth.new boot.user_codec boot.fault x) db ∙ found') in
    rw is (
      dispatch-answers engine name bytes request response base_domain host path (started auth disk)
          w (ap (Dict.lookup (wasm_file name)) files ∙ stands.artifact)
          (inl (unfold Dict.lookup in refl)) resolved clean,
      λ u. ap (λ (a : GithubAuth). Dict.lookup u a.user_projects) same ∙ users u,
    )
