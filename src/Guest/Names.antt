-- ===== src/Guest/Names.antt =====
-- The listing of a container as a function sees it: the loop of `list` in faasta/src/blob.rs.
use faasta.Prelude.{
  ℕ, zero, suc, ◌<◌, Text, text, Bool, true, false, List, [], ◌++◌, ◌≡◌, ◌⊎◌, inl, inr, refl, ap,
  sym, ◌∙◌, arith, append_assoc, append-nil, Result, ok, err, ◌>>=◌,
}
use faasta.Guest.Blobs.{Wasi, read_names, list}

-- A read of a stream that succeeds takes its batch from the names that are left, none are left behind the
-- batch with which it ends, and it ends after so many reads at most.
pub record IsStream {R C N : Type 0} (wasi : Wasi R C N) (left : N → List Text) (reads : N → ℕ)
    : Type 0 where
  pub takes :
      (s : N) (batch : List Text) (done : Bool) (t : N)
      → wasi.read_stream_object_names 100 s ≡ ok (batch, done, t)
      → left s ≡ batch ++ left t
  pub ends :
      (s : N) (batch : List Text) (t : N)
      → wasi.read_stream_object_names 100 s ≡ ok (batch, true, t)
      → left t ≡ []
  pub goes_on :
      (s : N) (batch : List Text) (t : N)
      → wasi.read_stream_object_names 100 s ≡ ok (batch, false, t)
      → reads t < reads s

-- A read of the stream fails with this error, the first or one behind reads that did not end it.
pub data Breaks {R C N : Type 0} (wasi : Wasi R C N) : N → Text → Type 0 where
  now : {s : N} {e : Text} → wasi.read_stream_object_names 100 s ≡ err e → Breaks wasi s e
  later :
      {s t : N} {e : Text} (batch : List Text)
      → wasi.read_stream_object_names 100 s ≡ ok (batch, false, t)
      → Breaks wasi t e
      → Breaks wasi s e

abbrev reading : Text → Text
reading e = text "reading object names: " ++ e

module _ {R C N : Type 0} (wasi : Wasi R C N) (left : N → List Text) (reads : N → ℕ)
    (stream : IsStream wasi left reads) where
  abbrev Read : N → List Text → Result Text (List Text) → Type 0
  Read s names r =
      (r ≡ ok (names ++ left s)) ⊎ ((e : Text) × Breaks wasi s e × (r ≡ err (reading e)))

  read_names-Read :
      (rounds : ℕ) (s : N) (names : List Text)
      → reads s < rounds
      → Read s names (read_names wasi rounds s names)
  unfolding read_names
  read_names-Read zero s names enough = absurd (omega (arith, enough))
  read_names-Read (suc rounds) s names enough =
      by_read (wasi.read_stream_object_names 100 s) refl
        (λ t names' h. read_names-Read rounds t names' h)
    where
      onward :
          (batch : List Text) (t : N) (r : Result Text (List Text))
          → wasi.read_stream_object_names 100 s ≡ ok (batch, false, t)
          → Read t (names ++ batch) r
          → Read s names r
      onward batch t r k (inl h) = inl (
          h
          ∙ ap (λ x. ok x)
              (append_assoc names batch (left t)
                ∙ ap (λ x. names ++ x) (sym (stream.takes s batch false t k))))
      onward batch t r k (inr (e, breaks, h)) = inr (e, later batch k breaks, h)

      by_read :
          (read : Result Text (List Text × Bool × N))
          → wasi.read_stream_object_names 100 s ≡ read
          → ((t : N) (names' : List Text)
              → reads t < rounds
              → Read t names' (read_names wasi rounds t names'))
          → Read s names (read_names wasi (suc rounds) s names)
      by_read (err e) k ih = rw (k, read_names) (inr (e, now k, refl))
      by_read (ok (batch, true, t)) k ih =
          rw (k, read_names, stream.takes s batch true t k, stream.ends s batch t k, append-nil)
            (inl refl)
      by_read (ok (batch, false, t)) k ih =
          rw (k, read_names)
            (onward batch t (read_names wasi rounds t (names ++ batch)) k
              (ih t (names ++ batch) (omega (arith, enough, stream.goes_on s batch t k))))

  -- With more rounds than the stream has reads, the listing of a container that opens and whose listing
  -- begins ends: with the names of the stream, each batch once and in order, or, where a read of the stream
  -- fails, with the error of that read.
  pub list-eq :
      (rounds : ℕ) (container : Text) (c : C) (s : N) (r t u : R)
      → wasi.get_container container r ≡ (ok c, t)
      → wasi.list_objects c t ≡ (ok s, u)
      → reads s < rounds
      → (list wasi rounds container r ≡ (ok (left s), u))
        ⊎ ((e : Text) × Breaks wasi s e
            × (list wasi rounds container r ≡ (err (text "reading object names: " ++ e), u)))
  unfolding list ◌>>=◌
  list-eq rounds container c s r t u opens lists enough =
      elim (read_names-Read rounds s [] enough) [
        | inl h ↦ rw (opens, lists, h) (inl refl)
        | inr (e, breaks, h) ↦ rw (opens, lists, h) (inr (e, breaks, refl))
      ]
