-- ===== src/Rpc/Others.antt =====
-- What the methods of server/src/rpc_service.rs do to a function under another name: nothing.
use faasta.Prelude.{
  ℕ, Text, text, false, none, some, [], ◌∷◌, ◌++◌, ◌≡◌, ◌≢◌, ◌⊎◌, inl, inr, refl, ap, sym, ◌∙◌,
  arith, Result, ok, err, Bool-cases, append_assoc, text_eq, text_eq_iff, Keeps, Option-cases,
}
use faasta.Prelude.Dict
use faasta.Prelude.Dict.{lookup-insert, lookup-erase}
use faasta.Db
use faasta.Db.{Bytes}
use faasta.Server.{Server, Outside, wasm_file, cwasm_file, temp_file, set_files, remove_from_cache}
use faasta.Rpc
use faasta.Rpc.{
  register, create_temp, write_temp, sync_temp, rename_temp, record_info, save_info, new_info,
  remove_file, do_remove, publish_impl, unpublish_impl,
}
use faasta.Rpc.Keeps.{io-from, publish_impl-Keeps, unpublish_impl-Keeps}
use faasta.Rpc.Publish.{SameFunctions, register-SameFunctions}
use faasta.Rpc.Unpublish.{remove_file-other, functions-remove_project}
use mathlib.Core.List.{append_cancel_right}

abbrev last : Text → ℕ
last [] = 0
last (c ∷ []) = c
last (c ∷ d ∷ s) = last (d ∷ s)

last-append : (s : Text) (c : ℕ) (t : Text) → last (s ++ c ∷ t) ≡ last (c ∷ t)
last-append [] c t = refl
last-append (x ∷ []) c t = refl
last-append (x ∷ y ∷ s) c t = last-append (y ∷ s) c t

apart : (s t : Text) → s ≢ t → text_eq s t ≡ false
apart s t h = elim (Bool-cases (text_eq s t)) [
  | inl e ↦ absurd (h ((text_eq_iff s t).0 e))
  | inr e ↦ e
]

temp_file-ne-wasm_file : (other name : Text) → temp_file other ≢ wasm_file name
temp_file-ne-wasm_file other name e = omega (
  arith,
  ap last e,
  last-append other b'.' (text "wasm.tmp"),
  last-append name b'.' (text "wasm"),
)

cwasm_file-ne-wasm_file : (other name : Text) → cwasm_file other ≢ wasm_file name
cwasm_file-ne-wasm_file other name e =
    let long = append_assoc other (text ".c") (text "wasm") in
    let short = append_assoc name (text ".") (text "wasm") in
    let same =
      append_cancel_right (other ++ text ".c") (name ++ text ".") (text "wasm")
        (long ∙ e ∙ sym short) in
    omega (arith, ap last same, last-append other b'.' (text "c"), last-append name b'.' [])

wasm_file-ne-wasm_file :
    (other name : Text) → text_eq other name ≡ false → wasm_file other ≢ wasm_file name
wasm_file-ne-wasm_file other name h e =
    let same = append_cancel_right other name (text ".wasm") e in
    cc ((text_eq_iff other name).1 same, h)

-- The artifact and the metadata are these, and the cache has no other component for the name.
pub record Stands (name : Text) (bytes meta : Bytes) (s : Server) : Type 0 where
  pub artifact : Dict.lookup (wasm_file name) s.files ≡ some bytes
  pub stored : Dict.lookup name s.db.functions ≡ some meta
  pub cached : (Dict.lookup name s.cache ≡ none) ⊎ (Dict.lookup name s.cache ≡ some bytes)

module _ (name : Text) (bytes meta : Bytes) where
  abbrev Stays : Server → Type 0
  Stays s = Stands name bytes meta s

  pub SameFunctions-Stands : (s t : Server) → SameFunctions s t → Stays s → Stays t
  SameFunctions-Stands s t same p = record {
    artifact = ap (Dict.lookup (wasm_file name)) same.files ∙ p.artifact;
    stored = ap (Dict.lookup name) same.functions ∙ p.stored;
    cached = rw same.cache p.cached;
  }

  -- Another file is written or removed.
  insert-Stands :
      (file : Text) (contents : Bytes) (s : Server)
      → file ≢ wasm_file name
      → Stays s
      → Stays (set_files (Dict.insert file contents s.files) s)
  insert-Stands file contents s other p = record {
    artifact =
        lookup-insert (wasm_file name) file contents s.files
        ∙ rw (apart file (wasm_file name) other) p.artifact;
    stored = p.stored;
    cached = p.cached;
  }

  erase-Stands :
      (file : Text) (s : Server)
      → file ≢ wasm_file name
      → Stays s
      → Stays (set_files (Dict.erase file s.files) s)
  erase-Stands file s other p = record {
    artifact =
        lookup-erase (wasm_file name) file s.files
        ∙ rw (apart file (wasm_file name) other) p.artifact;
    stored = p.stored;
    cached = p.cached;
  }

  module _ (out : Outside) (other : Text) (foreign : text_eq other name ≡ false) where
    remove_from_cache-Stands : Keeps Stays (remove_from_cache other)
    unfolding remove_from_cache
    remove_from_cache-Stands = record {
      from = λ s p. record {
        artifact = p.artifact;
        stored = p.stored;
        cached = rw (lookup-erase name other s.cache, foreign) p.cached;
      };
    }

    create_temp-Stands : Keeps Stays (create_temp out other)
    unfolding create_temp
    create_temp-Stands = record {
      from = λ s p.
          io-from Stays out.create_fault _ s _ p
            (insert-Stands (temp_file other) [] s (temp_file-ne-wasm_file other name) p);
    }

    write_temp-Stands : (contents : Bytes) → Keeps Stays (write_temp out other contents)
    unfolding write_temp
    write_temp-Stands contents = record {
      from = λ s p.
          let written = λ (b : Bytes).
            insert-Stands (temp_file other) b s (temp_file-ne-wasm_file other name) p in
          io-from Stays out.write_fault _ _ _ (written (out.cut contents)) (written contents);
    }

    sync_temp-Stands : Keeps Stays (sync_temp out)
    unfolding sync_temp
    sync_temp-Stands = record { from = λ s p. io-from Stays out.sync_fault _ s s p p }

    rename_temp-Stands : Keeps Stays (rename_temp out other)
    unfolding rename_temp
    rename_temp-Stands = record {
      from = λ s p. elim (Option-cases (Dict.lookup (temp_file other) s.files)) [
        | inl gone ↦ rw (gone, rename_temp) p
        | inr (contents, there) ↦
            rw (there, rename_temp)
              (io-from Stays out.rename_fault _ s _ p (
                insert-Stands (wasm_file other) contents _
                  (wasm_file-ne-wasm_file other name foreign)
                  (erase-Stands (temp_file other) s (temp_file-ne-wasm_file other name) p)))
      ];
    }

    record_info-Stands : (username : Text) → Keeps Stays (record_info out username other)
    unfolding record_info Db.put_function
    record_info-Stands username = record {
      from = λ s p. saved s (out.info_codec.encode (new_info out username other)) p;
    }
      where
        saved : (s : Server) (r : Result Text Bytes) → Stays s → Stays (save_info out other r s).1
        saved s (err e) p = p
        saved s (ok entry) p = record {
          artifact = p.artifact;
          stored = ground (arith, lookup-insert name other entry s.db.functions);
          cached = p.cached;
        }

    pub publish_impl-Stands :
        (contents : Bytes) (token : Text) → Keeps Stays (publish_impl out contents other token)
    publish_impl-Stands contents token =
        publish_impl-Keeps Stays out contents other token
          (λ username. record {
            from = λ s p. SameFunctions-Stands s _ (register-SameFunctions out username other s) p;
          })
          remove_from_cache-Stands create_temp-Stands (write_temp-Stands contents) sync_temp-Stands
          rename_temp-Stands record_info-Stands

    remove_file-Stands :
        (file : Text) (s : Server)
        → file ≢ wasm_file name
        → Stays s
        → Stays (remove_file out file s)
    remove_file-Stands file s distinct p = record {
      artifact =
          remove_file-other out file (wasm_file name) s (apart file (wasm_file name) distinct)
          ∙ p.artifact;
      stored = unfold remove_file in ground arith;
      cached = unfold remove_file in ground arith;
    }

    delete_function-Stands :
        (s : Server)
        → Stays s
        → let (_, db) = Db.delete_function out.fault other s.db in
          Stays (record s { auth = record s.auth { db = db } })
    unfolding Db.delete_function
    delete_function-Stands s p = record {
      artifact = p.artifact;
      stored = ground (arith, lookup-erase name other s.db.functions);
      cached = p.cached;
    }

    do_remove-Stands : (username : Text) → Keeps Stays (do_remove out username other)
    unfolding do_remove Rpc.remove_function
    do_remove-Stands username = record {
      from = λ s p.
          let s' = remove_file out (cwasm_file other) (remove_file out (wasm_file other) s) in
          let q = remove_file-Stands (cwasm_file other) _ (cwasm_file-ne-wasm_file other name) (
            remove_file-Stands (wasm_file other) s (wasm_file-ne-wasm_file other name foreign) p) in
          let d = delete_function-Stands s' q in
          record {
            artifact = d.artifact;
            stored =
                ap (Dict.lookup name) (functions-remove_project out username other _) ∙ d.stored;
            cached = d.cached;
          };
    }

    pub unpublish_impl-Stands : (token : Text) → Keeps Stays (unpublish_impl out other token)
    unpublish_impl-Stands token = unpublish_impl-Keeps Stays out other token do_remove-Stands
