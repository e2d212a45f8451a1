-- ===== src/Rpc/Publish.antt =====
-- `publish_impl` of server/src/rpc_service.rs: who may publish, and what a publication leaves.
use faasta.Prelude.{
  Text, Bool, true, false, Option, none, some, ◌≡◌, ◌⊎◌, inl, inr, refl, ap, sym, ◌∙◌, arith,
  Result, ok, err, lift, Option-cases, Bool-cases, length, leb, text_eq_iff, bind-either,
  lift-either, bind-eq-ok, ◌>>=◌,
}
use faasta.Prelude.Dict
use faasta.Db
use faasta.Db.{Bytes}
use faasta.GithubAuth.{can_upload_project, add_project, store_user}
use faasta.Server.{FunctionError, FunctionInfo, Server, Outside, wasm_file, max_wasm_size}
use faasta.Rpc.Keeps.{update-Keeps}
use faasta.Rpc.{
  authenticated, valid_name, require, decode_info, of_metadata, check_owner, register, update,
  claim, publish_impl,
}

-- The user owns the published function of that name, by the metadata.
pub record Owns (out : Outside) (s : Server) (name username : Text) : Type 0 where
  pub entry : Bytes
  pub info : FunctionInfo
  pub stored : Dict.lookup name s.db.functions ≡ some entry
  pub decodes : out.info_codec.decode entry ≡ ok info
  pub owner : info.owner ≡ username

-- The token belongs to a user, the name and the size are allowed, and the name is free and the user
-- has room for one more, or the user owns the function.
pub record Authorised (out : Outside) (s : Server) (bytes : Bytes) (name token : Text)
    : Type 0 where
  pub username : Text
  pub user : authenticated out token ≡ ok username
  pub named : valid_name out name ≡ true
  pub small : leb (length bytes) max_wasm_size ≡ true
  pub right :
      ((Dict.lookup (wasm_file name) s.files ≡ none)
        × (can_upload_project username name s.user_projects ≡ true))
      ⊎ Owns out s name username

-- What the clients and the dispatcher can see of the published functions.
pub record SameFunctions (s t : Server) : Type 0 where
  pub files : t.files ≡ s.files
  pub functions : t.db.functions ≡ s.db.functions
  pub cache : t.cache ≡ s.cache

pub SameFunctions-refl : (s : Server) → SameFunctions s s
SameFunctions-refl s = record { files = refl; functions = refl; cache = refl }

pub require-either :
    {A : Type 0} (Q : Server → Type 0) (b : Bool) (e : FunctionError)
    (n : Server → Result FunctionError A × Server) (s : Server)
    → Q s
    → (b ≡ true → Q (n s).1)
    → Q ((require b e >>= λ _. n) s).1
unfolding require ◌>>=◌
require-either Q true e n s bad good = good refl
require-either Q false e n s bad good = bad

pub decode_info_lem :
    (out : Outside) (entry : Bytes) (info : FunctionInfo)
    → decode_info out entry ≡ ok info
    → out.info_codec.decode entry ≡ ok info
decode_info_lem out entry info h = ground arith

require-ok : (b : Bool) (e : FunctionError) (s : Server) → (require b e s).0 ≡ ok tt → b ≡ true
unfolding require ◌>>=◌
require-ok true e s h = refl
require-ok false e s h = cc

-- `check_owner` succeeds only for the owner.
check_owner-ok :
    (out : Outside) (username : Text) (entry : Option Bytes) (s : Server)
    → (check_owner out username entry s).0 ≡ ok tt
    → (bytes : Bytes) × (info : FunctionInfo) × (entry ≡ some bytes)
      × (out.info_codec.decode bytes ≡ ok info)
      × (info.owner ≡ username)
unfolding check_owner require ◌>>=◌
check_owner-ok out username none s h = cc
check_owner-ok out username (some bytes) s h =
    let (info, decoded, rest) = bind-eq-ok (lift (decode_info out bytes)) _ s h in
    (
      bytes,
      info,
      refl,
      decode_info_lem out bytes info decoded,
      (text_eq_iff info.owner username).0 (require-ok _ _ s (ap (λ r. r.0) (sym rest) ∙ h)),
    )

pub get_function-ok :
    (out : Outside) (name : Text) (s : Server) (entry : Option Bytes)
    → Db.get_function out.fault name s.db ≡ ok entry
    → Dict.lookup name s.db.functions ≡ entry
unfolding Db.get_function
get_function-ok out name s entry h = ground arith

found-ok :
    (out : Outside) (username name : Text) (s : Server) (found : Result Text (Option Bytes))
    → Db.get_function out.fault name s.db ≡ found
    → ((lift (of_metadata found) >>= check_owner out username) s).0 ≡ ok tt
    → Owns out s name username
unfolding ◌>>=◌
found-ok out username name s (err e) got h = cc
found-ok out username name s (ok entry) got h =
    let (bytes, info, is, decodes, owner) = check_owner-ok out username entry s h in
    record {
      entry = bytes;
      info = info;
      stored = get_function-ok out name s entry got ∙ is;
      decodes = decodes;
      owner = owner;
    }

update-ok :
    (out : Outside) (username name : Text) (s : Server)
    → (update out username name s).0 ≡ ok tt
    → Owns out s name username
unfolding update ◌>>=◌
update-ok out username name s h =
    found-ok out username name s (Db.get_function out.fault name s.db) refl h

functions-add_project :
    (out : Outside) (username name : Text) (s : Server)
    → (add_project out.user_codec out.fault username name s.auth).1.db.functions ≡ s.db.functions
unfolding add_project store_user Db.put_user
functions-add_project out username name s = ground arith

pub register-SameFunctions :
    (out : Outside) (username name : Text) (s : Server)
    → SameFunctions s (register out username name s).1
unfolding register
register-SameFunctions out username name s =
    elim (Bool-cases (can_upload_project username name s.user_projects)) [
      | inl room ↦
          rw (room, register)
            (record {
              files = refl;
              functions = functions-add_project out username name s;
              cache = refl;
            })
      | inr full ↦ rw (full, register) (SameFunctions-refl s)
    ]

register-ok :
    (out : Outside) (username name : Text) (s : Server)
    → (register out username name s).0 ≡ ok tt
    → can_upload_project username name s.user_projects ≡ true
unfolding register
register-ok out username name s h = ground arith

claim-SameFunctions :
    (out : Outside) (username name : Text) (s : Server)
    → SameFunctions s (claim out username name s).1
unfolding claim
claim-SameFunctions out username name s =
    elim (Option-cases (Dict.lookup (wasm_file name) s.files)) [
      | inl fresh ↦ rw (fresh, claim) (register-SameFunctions out username name s)
      | inr (old, found) ↦
          rw (found, claim)
            ((update-Keeps (SameFunctions s) out username name).from s (SameFunctions-refl s))
    ]

pub claim-ok :
    (out : Outside) (username name : Text) (s : Server)
    → (claim out username name s).0 ≡ ok tt
    → ((Dict.lookup (wasm_file name) s.files ≡ none)
        × (can_upload_project username name s.user_projects ≡ true))
      ⊎ Owns out s name username
unfolding claim
claim-ok out username name s h = elim (Option-cases (Dict.lookup (wasm_file name) s.files)) [
  | inl fresh ↦ inl (fresh, register-ok out username name s (rw (fresh, claim) at h))
  | inr (old, found) ↦ inr (update-ok out username name s (rw (found, claim) at h))
]

-- Whatever the request and the failures, a publication changes the artifacts, the metadata or the
-- cache only where the token's user may publish under that name.
pub publish_impl_guarded :
    (out : Outside) (bytes : Bytes) (name token : Text) (s : Server)
    → SameFunctions s (publish_impl out bytes name token s).1 ⊎ Authorised out s bytes name token
unfolding publish_impl
publish_impl_guarded out bytes name token s =
    let same = inl (SameFunctions-refl s) in
    lift-either Q (authenticated out token) _ s same λ username user.
      require-either Q (valid_name out name) _ _ s same λ named.
        require-either Q (leb (length bytes) max_wasm_size) _ _ s same λ small.
          bind-either Q (claim out username name) _ s
            (λ e refused. inl (claim-SameFunctions out username name s))
            λ u claimed. inr (record {
              username = username;
              user = user;
              named = named;
              small = small;
              right = claim-ok out username name s claimed;
            })
  where
    Q : Server → Type 0
    Q t = SameFunctions s t ⊎ Authorised out s bytes name token
