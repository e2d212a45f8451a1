-- ===== src/Guest/Objects.antt =====
-- Objects that a function writes through faasta/src/blob.rs into the stores of
-- server/src/wasm_function.rs.
use faasta.Prelude.{
  ℕ, Bool, suc, Text, text, true, false, Option, none, some, ltb, pure-eq, lift-eq-ok, ◌++◌, ◌≡◌,
  arith, refl, sym, ap, ◌∙◌, ok, Action, pure, ◌>>=◌, bind-eq-ok, bind-answer, ok-injective,
  trim_start_matches, lift_lem,
}
use faasta.Db.{Bytes}
use faasta.Tenant.{TenantId}
use faasta.Blobstore
use faasta.Blobstore.{Container, s3, s3_container, container_of, ensure}
use faasta.Blobstore.S3
use faasta.Blobstore.S3.{ObjectStore, Page, S3Container, prefix, object_key, u64_max, or_zero}
use faasta.Blobstore.Objects.{IsConsistent, has-put_at, get-put_at, write_data-eq}
use faasta.Guest.Blobs.{Wasi, map_err, or_error, open_container, read_whole, get, put}

-- The bindings of a function hand its calls to the containers of its tenant.
pub record PassesOn {R N : Type 0} (wasi : Wasi R (Container R) N) (store : ObjectStore R)
    (id : TenantId) (rounds : ℕ) : Type 0 where
  pub opens :
      (name : Text) (r : R)
      → wasi.get_container name r ≡ Blobstore.get_container id (s3 store) rounds name r
  pub finds :
      (c : Container R) (name : Text) (r : R) → wasi.has_object c name r ≡ c.has_object name r
  pub writes :
      (c : Container R) (name : Text) (v : Bytes) (r : R)
      → wasi.write_data c name v r ≡ c.write_data name v r
  pub reads :
      (c : Container R) (name : Text) (v : Bytes) (r : R)
      → (c.get_data name 0 u64_max r).0 ≡ ok (some v)
      → (wasi.get_data c name 0 u64_max r).0 ≡ ok v
  pub consumes : (v : Bytes) → wasi.consume_error v ≡ none

-- Looking changes nothing in S3, and a key that was stored is counted below each of its prefixes.
pub record IsSteady {R : Type 0} (store : ObjectStore R) : Type 0 where
  pub lists :
      (p : Text) (n : Option ℕ) (t : Option Text) (r : R) → (store.list_objects_v2 p n t r).1 ≡ r
  pub heads : (k : Text) (r : R) → (store.head_object k r).1 ≡ r
  pub counts :
      (p s : Text) (v : Bytes) (r : R)
      → (store.put_object (p ++ s) v r).0 ≡ ok tt
      → (page : Page) × (n : ℕ) × ((store.list_objects_v2 p
            (some 1)
            none
            (store.put_object (p ++ s) v r).1).0
          ≡ ok page)
        × (page.key_count ≡ some (suc n))

map_err-ok :
    {R A : Type 0} (what : Text) (m : Action R Text A) (r : R) (a : A)
    → (map_err what m r).0 ≡ ok a
    → (m r).0 ≡ ok a
map_err-ok what m r a h = ground arith

map_err-answer :
    {R A : Type 0} (what : Text) (m : Action R Text A) (r t : R) (a : A)
    → m r ≡ (ok a, t)
    → map_err what m r ≡ (ok a, t)
map_err-answer what m r t a h = rw h refl

pair-eq : {A B : Type 0} (p : A × B) (a : A) (b : B) → p.0 ≡ a → p.1 ≡ b → p ≡ (a, b)
pair-eq p a b h k = cc

module _ {R : Type 0} (store : ObjectStore R) (id : TenantId) (rounds : ℕ) (container : Text) where
  abbrev pub Its : S3Container
  Its = container_of id container

  abbrev pub opened : Container R
  opened = s3_container store rounds Its

  opened-eq :
      (there : Bool) (c : Container R) (t : R)
      → ((ensure there (text "container not found") >>= λ _. pure opened) t).0 ≡ ok c
      → c ≡ opened
  unfolding ◌>>=◌
  opened-eq true c t h = sym (ok-injective opened c h)
  opened-eq false c t h = cc

  -- What a container that opens is.
  get_container-eq-ok :
      (r : R) (c : Container R)
      → (Blobstore.get_container id (s3 store) rounds container r).0 ≡ ok c
      → c ≡ opened
  unfolding Blobstore.get_container
  get_container-eq-ok r c h =
      let (there, found, split) = bind-eq-ok (S3.exists store Its) _ r h in
      opened-eq there c (S3.exists store Its r).1 (ap (λ x. x.0) (sym split) ∙ h)

  module _ (steady : IsSteady store) (name : Text) (v : Bytes) (r : R)
      (stored : (store.put_object (object_key Its name) v r).0 ≡ ok tt) where
    abbrev pub After : R
    After = (store.put_object (object_key Its name) v r).1

    exists-after : S3.exists store Its After ≡ (ok true, After)
    unfolding S3.exists object_key
    exists-after =
        let (page, n, listed, count) =
          steady.counts (prefix Its) (trim_start_matches b'/' name) v r stored in
        bind-answer (store.list_objects_v2 (prefix Its) (some 1) none) _ After After page
          (pair-eq _ (ok page) After listed (steady.lists (prefix Its) (some 1) none After))
        ∙ pure-eq (ltb 0 (or_zero page.key_count)) After
        ∙ ap (λ b. (ok b, After)) (rw count (ground arith))

    pub get_container-after :
        Blobstore.get_container id (s3 store) rounds container After ≡ (ok opened, After)
    unfolding Blobstore.get_container ◌>>=◌
    get_container-after = bind-answer (S3.exists store Its) _ After After true exists-after ∙ refl

    has_object-after : IsConsistent store → S3.has_object store Its name After ≡ (ok true, After)
    has_object-after lawful =
        pair-eq _ (ok true) After (has-put_at store lawful Its name v r stored)
          (unfold S3.has_object in steady.heads (object_key Its name) After)

  module _ {N : Type 0} (wasi : Wasi R (Container R) N) (passes : PassesOn wasi store id rounds)
      (name : Text) (v : Bytes) where
    -- A write that succeeds ends with the container's.
    put-eq :
        (r : R)
        → (put wasi container name v r).0 ≡ ok tt
        → (t : R) × ((S3.write_data store Its name v t).0 ≡ ok tt)
          × ((put wasi container name v r).1 ≡ (S3.write_data store Its name v t).1)
    unfolding put
    put-eq r h =
        let (c, there, split) = bind-eq-ok (open_container wasi container) _ r h in
        let t = (open_container wasi container r).1 in
        let same = get_container-eq-ok r c (
          ap (λ x. x.0) (sym (passes.opens container r))
          ∙ map_err-ok (text "opening container: ") (wasi.get_container container) r c there) in
        let (_, _, split') =
          lift-eq-ok (or_error (text "writing data: ") (wasi.write_error v) tt) _ t
            (ap (λ x. x.0) (sym split) ∙ h) in
        let h' = ap (λ x. x.0) (sym split') ∙ ap (λ x. x.0) (sym split) ∙ h in
        let (_, wrote, split'') =
          bind-eq-ok (map_err (text "writing object: ") (wasi.write_data c name v)) _ t h' in
        let passed =
          passes.writes c name v t ∙ ap (λ (d : Container R). d.write_data name v t) same in
        (
          t,
          ap (λ x. x.0) (sym passed)
              ∙ map_err-ok (text "writing object: ") (wasi.write_data c name v) t tt wrote,
          ap (λ x. x.1) (split ∙ split' ∙ split'') ∙ (lift_lem _ _).1 ∙ ap (λ x. x.1) passed,
        )

    read_whole-eq :
        (c : Container R) (r : R)
        → (wasi.get_data c name 0 u64_max r).0 ≡ ok v
        → (read_whole wasi c name r).0 ≡ ok (some v)
    unfolding ◌>>=◌
    read_whole-eq c r e = rw (e, passes.consumes v) refl

    -- An object that a function writes is the one that it reads next: where the write succeeded, a read
    -- of the same name in the same container gives the bytes that were written, through the function's
    -- own containers in S3; where S3 then answers that it reads what it stored, finds it and counts it below each
    -- prefix of its key, looking
    -- changes nothing in it, and the bindings pass the calls on and can consume the bytes.
    pub put-get :
        (r : R)
        → IsConsistent store
        → IsSteady store
        → (put wasi container name v r).0 ≡ ok tt
        → (get wasi container name (put wasi container name v r).1).0 ≡ ok (some v)
    unfolding get
    put-get r lawful steady h =
        let (t, wrote, left) = put-eq r h in
        let (t', split) = write_data-eq store Its name v t wrote in
        let stored = ap (λ x. x.0) (sym split) ∙ wrote in
        let after = After steady name v t' stored in
        let opens =
          map_err-answer (text "opening container: ") (wasi.get_container container) after after
            opened (passes.opens container after ∙ get_container-after steady name v t' stored) in
        let finds =
          map_err-answer (text "checking object existence: ") (wasi.has_object opened name) after
            after true
            (passes.finds opened name after ∙ has_object-after steady name v t' stored lawful) in
        let reads =
          passes.reads opened name v after (get-put_at store lawful Its name v t' stored) in
        rw (left, ap (λ x. x.1) split)
          (ap (λ x. x.0)
              (bind-answer (open_container wasi container) _ after after opened opens
                ∙ bind-answer
                    (map_err (text "checking object existence: ") (wasi.has_object opened name)) _
                    after after true finds)
            ∙ read_whole-eq opened after reads)
