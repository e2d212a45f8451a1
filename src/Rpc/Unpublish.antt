-- ===== src/Rpc/Unpublish.antt =====
-- `unpublish_impl` of server/src/rpc_service.rs, and names whose artifact outlives their metadata.
use faasta.Prelude.{
  Text, text, false, Option, none, some, ◌≡◌, ◌≢◌, ◌⊎◌, inl, inr, refl, ap, sym, subst, ◌∙◌, arith,
  Result, ok, err, lift, Bool-cases, length, length-append, bind-eq-ok, text_eq, text_eq_iff,
  text_eq_self, ◌>>=◌, lift-either, Ensures, Ensures-then, Ensures-lift,
}
use faasta.Prelude.Dict
use faasta.Prelude.Dict.{lookup-erase}
use faasta.Db
use faasta.Db.{Bytes, Database, remove_function}
use faasta.GithubAuth.{GithubAuth, remove_project, store_user}
use faasta.Server.{Server, Outside, wasm_file, cwasm_file}
use faasta.Rpc
use faasta.Rpc.{
  authenticated, require, valid_name, claim, decode_info, of_metadata, commit_artifact, record_info,
  publish_impl, remove_entry, do_remove, remove_file, unpublish_impl,
}
use faasta.Rpc.Publish.{Owns, claim-ok, require-either, decode_info_lem, get_function-ok}
use faasta.Rpc.Commit.{Ensures-require}

-- The token's user owns the function.
pub record MayRemove (out : Outside) (s : Server) (name token : Text) : Type 0 where
  pub username : Text
  pub user : authenticated out token ≡ ok username
  pub owns : Owns out s name username

module _ (out : Outside) (name token : Text) (s : Server) where
  abbrev Guarded : Server → Type 0
  Guarded t = (t ≡ s) ⊎ MayRemove out s name token

  entry-Guarded :
      (username : Text)
      → authenticated out token ≡ ok username
      → (found : Result Text (Option Bytes)) → Db.get_function out.fault name s.db ≡ found
      → Guarded ((lift (of_metadata found) >>= remove_entry out username name) s).1
  unfolding remove_entry ◌>>=◌
  entry-Guarded username user (err e) got = inl refl
  entry-Guarded username user (ok none) got = inl refl
  entry-Guarded username user (ok (some entry)) got =
      lift-either Guarded (decode_info out entry) _ s (inl refl) λ info decoded.
        require-either Guarded (text_eq info.owner username) _ _ s (inl refl) λ same. inr (record {
          username = username;
          user = user;
          owns = record {
            entry = entry;
            info = info;
            stored = get_function-ok out name s (some entry) got;
            decodes = decode_info_lem out entry info decoded;
            owner = (text_eq_iff info.owner username).0 same;
          };
        })

-- A removal changes nothing at all unless the token's user owns the function by its metadata.
pub unpublish_impl_guarded :
    (out : Outside) (name token : Text) (s : Server)
    → ((unpublish_impl out name token s).1 ≡ s) ⊎ MayRemove out s name token
unfolding unpublish_impl ◌>>=◌
unpublish_impl_guarded out name token s =
    lift-either (Guarded out name token s) (authenticated out token) _ s (inl refl) λ username user.
      entry-Guarded out name token s username user (Db.get_function out.fault name s.db) refl

-- The artifact is there and the metadata is not.
pub record IsOrphan (s : Server) (name : Text) : Type 0 where
  pub old : Bytes
  pub artifact : Dict.lookup (wasm_file name) s.files ≡ some old
  pub unknown : Dict.lookup name s.db.functions ≡ none

claim-impossible :
    (out : Outside) (username name : Text) (s : Server)
    → IsOrphan s name
    → (claim out username name s).0 ≢ ok tt
claim-impossible out username name s h done = elim (claim-ok out username name s done) [
  | inl (fresh, room) ↦ cc (fresh, h.artifact)
  | inr owns ↦ cc (owns.stored, h.unknown)
]

publish-impossible :
    (out : Outside) (bytes : Bytes) (name token : Text) (s : Server)
    → IsOrphan s name
    → Ensures (λ t. t ≡ s) (publish_impl out bytes name token) (λ t. ⊥)
unfolding publish_impl
publish-impossible out bytes name token s h =
    Ensures-lift (authenticated out token) _ λ username user.
      Ensures-then _ _ (Ensures-require (λ t. t ≡ s) _ _) (
        Ensures-then _ _ (Ensures-require (λ t. t ≡ s) _ _) (
          Ensures-then {R = λ t. ⊥} _ _
            (record {
              after = λ t same a done.
                  claim-impossible out username name t (subst (λ x. IsOrphan x name) (sym same) h)
                    done;
            })
            (record { after = λ t p a done. absurd p })))

entry-impossible :
    (out : Outside) (username name : Text) (s : Server) (found : Result Text (Option Bytes))
    → IsOrphan s name
    → Db.get_function out.fault name s.db ≡ found
    → ((lift (of_metadata found) >>= remove_entry out username name) s).0 ≢ ok tt
unfolding remove_entry ◌>>=◌
entry-impossible out username name s (err e) h got done = cc
entry-impossible out username name s (ok none) h got done = cc
entry-impossible out username name s (ok (some entry)) h got done =
    cc (get_function-ok out name s (some entry) got, h.unknown)

unpublish-impossible :
    (out : Outside) (name token : Text) (s : Server)
    → IsOrphan s name
    → (unpublish_impl out name token s).0 ≢ ok tt
unfolding unpublish_impl ◌>>=◌
unpublish-impossible out name token s h done =
    let (username, user, rest) = bind-eq-ok (lift (authenticated out token)) _ s done in
    entry-impossible out username name s (Db.get_function out.fault name s.db) h refl
      (ap (λ r. r.0) (sym rest) ∙ done)

-- Nobody can publish or remove a function under a name whose artifact is there without metadata.
pub orphan_blocked :
    (out : Outside) (bytes : Bytes) (name token message : Text) (s : Server)
    → IsOrphan s name
    → ((publish_impl out bytes name token s).0 ≢ ok message)
      × ((unpublish_impl out name token s).0 ≢ ok tt)
orphan_blocked out bytes name token message s h = (
  λ done. (publish-impossible out bytes name token s h).after s refl message done,
  unpublish-impossible out name token s h,
)

cwasm_file-ne-wasm_file : (name : Text) → text_eq (cwasm_file name) (wasm_file name) ≡ false
cwasm_file-ne-wasm_file name = elim (Bool-cases (text_eq (cwasm_file name) (wasm_file name))) [
  | inl e ↦ absurd (
      omega (
        arith,
        ap length ((text_eq_iff (cwasm_file name) (wasm_file name)).0 e),
        length-append name (text ".wasm"),
        length-append name (text ".cwasm"),
      ))
  | inr e ↦ e
]

pub remove_file-other :
    (out : Outside) (f g : Text) (s : Server)
    → text_eq f g ≡ false
    → Dict.lookup g (remove_file out f s).files ≡ Dict.lookup g s.files
unfolding remove_file
remove_file-other out f g s h = ground (arith, lookup-erase g f s.files)

remove_file-stuck :
    (out : Outside) (f e : Text) (s : Server)
    → out.remove_fault f ≡ some e
    → (remove_file out f s).files ≡ s.files
unfolding remove_file
remove_file-stuck out f e s h = ground arith

pub functions-remove_project :
    (out : Outside) (username name : Text) (a : GithubAuth)
    → (remove_project out.user_codec out.fault username name a).1.db.functions ≡ a.db.functions
unfolding remove_project store_user Db.put_user
functions-remove_project out username name a = ground arith

delete_function-works :
    (out : Outside) (name : Text) (db : Database)
    → out.fault (remove_function name) ≡ none
    → Dict.lookup name (Db.delete_function out.fault name db).1.functions ≡ none
unfolding Db.delete_function
delete_function-works out name db works =
    rw works (rw (lookup-erase name name db.functions, text_eq_self name))

-- Where the artifact is there, deleting its file fails and the statement that deletes the metadata
-- succeeds, the removal leaves the artifact in place without metadata.
pub failed_removal_orphans :
    (out : Outside) (name username old e : Text) (s : Server)
    → Dict.lookup (wasm_file name) s.files ≡ some old
    → out.remove_fault (wasm_file name) ≡ some e
    → out.fault (remove_function name) ≡ none
    → IsOrphan (do_remove out username name s).1 name
unfolding do_remove Rpc.remove_function
failed_removal_orphans out name username old e s there stuck works = record {
  old = old;
  artifact =
      remove_file-other out (cwasm_file name) (wasm_file name) (remove_file out (wasm_file name) s)
        (cwasm_file-ne-wasm_file name)
      ∙ ap (Dict.lookup (wasm_file name)) (remove_file-stuck out (wasm_file name) e s stuck)
      ∙ there;
  unknown =
      ap (Dict.lookup name) (functions-remove_project out username name _)
      ∙ delete_function-works out name _ works;
}
