-- ===== src/Blobstore/Objects.antt =====
-- Objects of an `S3Container` that are written, read, looked for and removed.
use faasta.Prelude.{
  Text, text, true, false, none, some, ◌∷◌, ◌++◌, ◌≡◌, refl, sym, ap, ◌∙◌, ok, err, bind-eq-ok,
  append_assoc, trim_start_matches, contains_text,
}
use faasta.Db.{Bytes}
use faasta.Tenant.{TenantId}
use faasta.Blobstore.S3.{
  ObjectStore, S3Container, Head, prefix, object_key, get_data, write_data, has_object,
  delete_object, ensure_marker, u64_max,
}

-- S3 reads what it wrote.
pub record IsConsistent {R : Type 0} (store : ObjectStore R) : Type 0 where
  pub get-put :
      (k : Text) (v : Bytes) (r : R)
      → (store.put_object k v r).0 ≡ ok tt
      → (store.get_object k none (store.put_object k v r).1).0 ≡ ok v
  pub head-put :
      (k : Text) (v : Bytes) (r : R)
      → (store.put_object k v r).0 ≡ ok tt
      → (h : Head) × ((store.head_object k (store.put_object k v r).1).0 ≡ ok h)

-- An error about a key that was removed prints the word that the code looks for.
pub record SaysGone {R : Type 0} (store : ObjectStore R) : Type 0 where
  pub get-delete :
      (k : Text) (r : R)
      → (store.delete_object k r).0 ≡ ok tt
      → (e : Text) × ((store.get_object k none (store.delete_object k r).1).0 ≡ err e)
        × (contains_text (text "NoSuchKey") e ≡ true)
  pub head-delete :
      (k : Text) (r : R)
      → (store.delete_object k r).0 ≡ ok tt
      → (e : Text) × ((store.head_object k (store.delete_object k r).1).0 ≡ err e)
        × (contains_text (text "NotFound") e ≡ true)

module _ {R : Type 0} (store : ObjectStore R) where
  -- A write that succeeds ends with the request that stored the object.
  pub write_data-eq :
      (c : S3Container) (name : Text) (v : Bytes) (r : R)
      → (write_data store c name v r).0 ≡ ok tt
      → (r' : R) × (write_data store c name v r ≡ store.put_object (object_key c name) v r')
  unfolding write_data
  write_data-eq c name v r h =
      let (_, _, split) =
        bind-eq-ok (ensure_marker store c) (λ _. store.put_object (object_key c name) v) r h in
      ((ensure_marker store c r).1, split)

  module _ (lawful : IsConsistent store) (c : S3Container) (name : Text) where
    pub get-put_at :
        (v : Bytes) (r : R)
        → (store.put_object (object_key c name) v r).0 ≡ ok tt
        → (get_data store c name 0 u64_max (store.put_object (object_key c name) v r).1).0
          ≡ ok (some v)
    unfolding get_data
    get-put_at v r h = rw (lawful.get-put (object_key c name) v r h) refl

    pub has-put_at :
        (v : Bytes) (r : R)
        → (store.put_object (object_key c name) v r).0 ≡ ok tt
        → (has_object store c name (store.put_object (object_key c name) v r).1).0 ≡ ok true
    unfolding has_object
    has-put_at v r h = let (_, e) = lawful.head-put (object_key c name) v r h in rw e refl

  -- An object that was removed is not there: reading it gives nothing and looking for it false, and
  -- neither is an error, where the errors about the removed key print the words that the code looks for.
  pub delete_object-read :
      (c : S3Container) (name : Text) (r : R)
      → SaysGone store
      → (delete_object store c name r).0 ≡ ok tt
      → ((get_data store c name 0 u64_max (delete_object store c name r).1).0 ≡ ok none)
        × ((has_object store c name (delete_object store c name r).1).0 ≡ ok false)
  unfolding delete_object get_data has_object
  delete_object-read c name r says_gone h =
      let (e, gone, says) = says_gone.get-delete (object_key c name) r h in
      let (e', gone', says') = says_gone.head-delete (object_key c name) r h in
      (rw (gone, says) refl, rw (gone', says') refl)

  -- What was written under one name is read, whole, under every name that has the same key, also through
  -- another container, and is found there.
  pub write_data-read :
      (c d : S3Container) (name name' : Text) (v : Bytes) (r : R)
      → IsConsistent store
      → object_key c name ≡ object_key d name'
      → (write_data store c name v r).0 ≡ ok tt
      → ((get_data store d name' 0 u64_max (write_data store c name v r).1).0 ≡ ok (some v))
        × ((has_object store d name' (write_data store c name v r).1).0 ≡ ok true)
  write_data-read c d name name' v r lawful same h =
      let (r', split) = write_data-eq c name v r h in
      let put = ap (λ k. store.put_object k v r') same in
      let stored = sym (ap (λ x. x.0) (split ∙ put)) ∙ h in
      rw (split, put) (get-put_at lawful d name' v r' stored, has-put_at lawful d name' v r' stored)

-- A container with a slash in its name shares its keys with the container named by what is before the slash.
object_key-slash :
    (id : TenantId) (a b name : Text)
    → trim_start_matches b'/' (b ++ b'/' ∷ name) ≡ b ++ b'/' ∷ name
    → trim_start_matches b'/' name ≡ name
    → object_key (record { tenant = id; guest_name = a }) (b ++ b'/' ∷ name)
      ≡ object_key (record { tenant = id; guest_name = a ++ b'/' ∷ b }) name
unfolding object_key prefix
object_key-slash id a b name h k = rw (h, k) (simp append_assoc)

-- An object written as `b/name` into a container `a` is the object `name` of the container `a/b` of the
-- same function, where neither name begins with a slash.
pub write_data-collides :
    {R : Type 0} (store : ObjectStore R) (id : TenantId) (a b name : Text) (v : Bytes) (r : R)
    → IsConsistent store
    → trim_start_matches b'/' (b ++ b'/' ∷ name) ≡ b ++ b'/' ∷ name
    → trim_start_matches b'/' name ≡ name
    → (write_data store (record { tenant = id; guest_name = a }) (b ++ b'/' ∷ name) v r).0 ≡ ok tt
    → (get_data store
        (record { tenant = id; guest_name = a ++ b'/' ∷ b })
        name
        0
        u64_max
        (write_data store (record { tenant = id; guest_name = a }) (b ++ b'/' ∷ name) v r).1).0
      ≡ ok (some v)
write_data-collides store id a b name v r lawful h k done =
    (write_data-read store (record { tenant = id; guest_name = a })
      (record { tenant = id; guest_name = a ++ b'/' ∷ b }) (b ++ b'/' ∷ name) name v r lawful
      (object_key-slash id a b name h k) done).0
