-- ===== src/Rpc/Commit.antt =====
-- What a successful `publish_impl` of server/src/rpc_service.rs leaves behind.
use faasta.Prelude.{
  Text, text, Bool, true, false, Option, none, some, ◌++◌, ◌≡◌, inl, inr, refl, ap, sym, subst, ◌∙◌,
  arith, Result, ok, err, Bool-cases, length, length-append, text_eq, text_eq_iff, text_eq_self,
  ◌>>=◌, Ensures, Ensures-then, Ensures-lift, pure,
}
use faasta.Prelude.Dict
use faasta.Prelude.Dict.{lookup-insert, lookup-erase}
use faasta.Db
use faasta.Db.{Bytes, Database, Faults}
use faasta.Server.{
  FunctionError, Server, Outside, wasm_file, temp_file, remove_from_cache, set_files,
}
use faasta.Rpc.{
  io, persisted, authenticated, require, claim, create_temp, write_temp, sync_temp, rename_temp,
  commit_artifact, new_info, save_info, record_info, publish_impl,
}

-- The artifact is the one that was sent, the temporary file is gone, no compiled version is cached,
-- and the metadata has this name and names the token's user as the owner.
pub record Published (out : Outside) (bytes : Bytes) (name username : Text) (t : Server)
    : Type 0 where
  pub artifact : Dict.lookup (wasm_file name) t.files ≡ some bytes
  pub temp : Dict.lookup (temp_file name) t.files ≡ none
  pub cleared : Dict.lookup name t.cache ≡ none
  pub meta : Bytes
  pub owner : (new_info out username name).owner ≡ username
  pub named : (new_info out username name).name ≡ name
  pub encoded : out.info_codec.encode (new_info out username name) ≡ ok meta
  pub stored : Dict.lookup name t.db.functions ≡ some meta

wasm_file-ne-temp_file : (name : Text) → text_eq (wasm_file name) (temp_file name) ≡ false
wasm_file-ne-temp_file name = elim (Bool-cases (text_eq (wasm_file name) (temp_file name))) [
  | inl e ↦ absurd (
      omega (
        arith,
        ap length ((text_eq_iff (wasm_file name) (temp_file name)).0 e),
        length-append name (text ".wasm"),
        length-append name (text ".wasm.tmp"),
      ))
  | inr e ↦ e
]

io-after :
    (Q : Server → Type 0) (f : Option Text) (what : Text) (failed done : Server)
    → Q done
    → (io f what failed done).0 ≡ ok tt
    → Q (io f what failed done).1
io-after Q none what failed done q h = q
io-after Q (some e) what failed done q h = cc

put_function_lem :
    (fault : Faults) (name : Text) (meta : Bytes) (db : Database)
    → persisted (Db.put_function fault name meta db).0 ≡ ok tt
    → (Db.put_function fault name meta db).1
      ≡ record db { functions = Dict.insert name meta db.functions }
unfolding Db.put_function
put_function_lem fault name meta db h = ground arith

pub Ensures-require :
    (P : Server → Type 0) (b : Bool) (e : FunctionError) → Ensures P (require b e) P
unfolding require ◌>>=◌
Ensures-require P true e = record { after = λ s p a h. p }
Ensures-require P false e = record { after = λ s p a h. cc }

module _ (out : Outside) (bytes : Bytes) (name : Text) where
  abbrev Cleared : Server → Type 0
  Cleared t = Dict.lookup name t.cache ≡ none

  abbrev Written : Server → Type 0
  Written t = Cleared t × (Dict.lookup (temp_file name) t.files ≡ some bytes)

  abbrev Renamed : Server → Type 0
  Renamed t =
      Cleared t
      × (Dict.lookup (wasm_file name) t.files ≡ some bytes)
      × (Dict.lookup (temp_file name) t.files ≡ none)

  abbrev Anything : Server → Type 0
  Anything t = Unit

  remove_from_cache-Cleared : Ensures Anything (remove_from_cache name) Cleared
  unfolding remove_from_cache
  remove_from_cache-Cleared = record {
    after = λ s p a h. rw (lookup-erase name name s.cache, text_eq_self name);
  }

  create_temp-Cleared : Ensures Cleared (create_temp out name) Cleared
  unfolding create_temp
  create_temp-Cleared = record { after = λ s p a h. io-after Cleared out.create_fault _ s _ p h }

  write_temp-Written : Ensures Cleared (write_temp out name bytes) Written
  unfolding write_temp
  write_temp-Written = record {
    after = λ s p a h.
        io-after Written out.write_fault _ _ _
          (
            p,
            rw (
              lookup-insert (temp_file name) (temp_file name) bytes s.files,
              text_eq_self (temp_file name),
            ),
          )
          h;
  }

  sync_temp-Written : Ensures Written (sync_temp out) Written
  unfolding sync_temp
  sync_temp-Written = record { after = λ s p a h. io-after Written out.sync_fault _ s s p h }

  abbrev moved : Bytes → Server → Server
  moved contents s =
      set_files (Dict.insert (wasm_file name) contents (Dict.erase (temp_file name) s.files)) s

  rename_temp_lem :
      (s : Server)
      → Dict.lookup (temp_file name) s.files ≡ some bytes
      → rename_temp out name s
        ≡ io out.rename_fault (text "Failed to commit file: ") s (moved bytes s)
  unfolding rename_temp
  rename_temp_lem s e = rw (e, rename_temp)

  moved-Renamed : (s : Server) → Cleared s → Renamed (moved bytes s)
  moved-Renamed s p =
      let old = Dict.erase (temp_file name) s.files in
      (
        p,
        rw (
          lookup-insert (wasm_file name) (wasm_file name) bytes old,
          text_eq_self (wasm_file name),
        ),
        rw (
          lookup-insert (temp_file name) (wasm_file name) bytes old,
          wasm_file-ne-temp_file name,
          lookup-erase (temp_file name) (temp_file name) s.files,
          text_eq_self (temp_file name),
        ),
      )

  rename_temp-Renamed : Ensures Written (rename_temp out name) Renamed
  rename_temp-Renamed = record {
    after = λ s p a h.
        let step = rename_temp_lem s p.1 in
        subst (λ r. Renamed r.1) (sym step)
          (io-after Renamed out.rename_fault (text "Failed to commit file: ") s (moved bytes s)
            (moved-Renamed s p.0) (ap (λ r. r.0) (sym step) ∙ h));
  }

  commit_artifact-Renamed : Ensures Cleared (commit_artifact out name bytes) Renamed
  unfolding commit_artifact
  commit_artifact-Renamed =
      Ensures-then _ _ create_temp-Cleared (
        Ensures-then _ _ write_temp-Written
          (Ensures-then _ _ sync_temp-Written rename_temp-Renamed))

  module _ (username : Text) where
    record_info-Published :
        Ensures Renamed (record_info out username name) (Published out bytes name username)
    unfolding record_info
    record_info-Published = record {
      after = λ s p a h. saved s (out.info_codec.encode (new_info out username name)) refl p h;
    }
      where
        saved :
            (s : Server) (r : Result Text Bytes)
            → out.info_codec.encode (new_info out username name) ≡ r
            → Renamed s
            → (save_info out name r s).0 ≡ ok tt
            → Published out bytes name username (save_info out name r s).1
        saved s (err e) encoded p h = cc
        saved s (ok meta) encoded p h = rw (put_function_lem out.fault name meta s.db h) (record {
          artifact = p.1;
          temp = p.2;
          cleared = p.0;
          meta = meta;
          owner = refl;
          named = refl;
          encoded = encoded;
          stored = rw (lookup-insert name name meta s.db.functions, text_eq_self name);
        })

-- A publication that succeeds leaves the artifact, the metadata and the cache as `Published` says,
-- for a user that the token belongs to.
pub publish_impl-Published :
    (out : Outside) (bytes : Bytes) (name token message : Text) (s : Server)
    → (publish_impl out bytes name token s).0 ≡ ok message
    → (username : Text) × (authenticated out token ≡ ok username)
      × Published out bytes name username (publish_impl out bytes name token s).1
unfolding publish_impl ◌>>=◌
publish_impl-Published out bytes name token message s h = whole.after s tt message h
  where
    Q : Server → Type 0
    Q t =
        (username : Text) × (authenticated out token ≡ ok username)
        × Published out bytes name username t

    claim-Anything :
        (username : Text)
        → Ensures (Anything out bytes name) (claim out username name) (Anything out bytes name)
    claim-Anything username = record { after = λ t p a e. tt }

    done :
        (username : Text)
        → authenticated out token ≡ ok username
        → Ensures
            (Published out bytes name username)
            (pure {E = FunctionError}
              (text "Function '" ++ (name ++ text "' published successfully")))
            Q
    done username user = record { after = λ t p a e. (username, user, p) }

    whole : Ensures (Anything out bytes name) (publish_impl out bytes name token) Q
    whole = Ensures-lift (authenticated out token) _ λ username user.
        Ensures-then _ _ (Ensures-require (Anything out bytes name) _ _) (
          Ensures-then _ _ (Ensures-require (Anything out bytes name) _ _) (
            Ensures-then _ _ (claim-Anything username) (
              Ensures-then _ _ (remove_from_cache-Cleared out bytes name) (
                Ensures-then _ _ (commit_artifact-Renamed out bytes name) (
                  Ensures-then _ _ (record_info-Published out bytes name username)
                    (done username user))))))
