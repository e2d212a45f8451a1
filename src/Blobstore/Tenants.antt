-- ===== src/Blobstore/Tenants.antt =====
-- What one function does with its containers leaves the objects of the others alone.
use faasta.Prelude.{
  ℕ, zero, suc, Text, text, Bool, true, false, Option, none, List, [], ◌∷◌, ◌++◌, ◌≡◌, ◌≢◌, refl,
  sym, ◌∙◌, append_assoc, trim_start_matches, Action, if◌then◌else◌, ◌>>=◌, Keeps, Keeps-bind,
  Keeps-then, Keeps-pure, Keeps-fail, Keeps-assoc, Keeps-pure-then, keeps_rules,
}
use faasta.Db.{Bytes}
use faasta.Tenant.{tenant, stable_tenant_hash, s3_prefix}
use faasta.Tenant.Isolation.{prefixes_disjoint}
use faasta.Blobstore
use faasta.Blobstore.{
  Container, BlobstoreProvider, s3, Call, blob_call, create_container, get_container,
  delete_container, container_exists, container_of, s3_container, ensure, ignore,
}
use faasta.Blobstore.S3
use faasta.Blobstore.S3.{
  ObjectStore, S3Container, Page, prefix, marker_key, object_key, ensure_marker, list_from,
  list_objects, names, delete_object, delete_all, delete_marker, clear, get_data, write_data,
  has_object, object_info, or_false, range_of,
}

-- The requests that write a key leave what is under the other keys; the others write none.
pub record IsKeyed {R E : Type 0} (store : ObjectStore R) (at : Text → R → E) : Type 0 where
  pub at-put : (k j : Text) (v : Bytes) (r : R) → k ≢ j → at j (store.put_object k v r).1 ≡ at j r
  pub at-delete : (k j : Text) (r : R) → k ≢ j → at j (store.delete_object k r).1 ≡ at j r
  pub at-get :
      (k j : Text) (range : Option Text) (r : R) → at j (store.get_object k range r).1 ≡ at j r
  pub at-head : (k j : Text) (r : R) → at j (store.head_object k r).1 ≡ at j r
  pub at-list :
      (p j : Text) (max_keys : Option ℕ) (token : Option Text) (r : R)
      → at j (store.list_objects_v2 p max_keys token r).1 ≡ at j r

below_prefix :
    (c : S3Container) (s : Text)
    → prefix c ++ s ≡ s3_prefix c.tenant ++ (text "/" ++ (c.guest_name ++ (text "/" ++ s)))
unfolding prefix
below_prefix c s = simp append_assoc

module _ {R E : Type 0} (store : ObjectStore R) (at : Text → R → E) (keyed : IsKeyed store at)
    (c : S3Container) (j : Text) (apart : (s : Text) → s3_prefix c.tenant ++ s ≢ j) (e : E) where
  abbrev Same : R → Type 0
  Same r = at j r ≡ e

  key_apart : (s : Text) → prefix c ++ s ≢ j
  key_apart s same =
      apart (text "/" ++ (c.guest_name ++ (text "/" ++ s))) (sym (below_prefix c s) ∙ same)

  put-Keeps : (s : Text) (v : Bytes) → Keeps Same (store.put_object (prefix c ++ s) v)
  put-Keeps s v = record { from = λ r h. keyed.at-put (prefix c ++ s) j v r (key_apart s) ∙ h }

  delete-Keeps : (s : Text) → Keeps Same (store.delete_object (prefix c ++ s))
  delete-Keeps s = record { from = λ r h. keyed.at-delete (prefix c ++ s) j r (key_apart s) ∙ h }

  list-Keeps :
      (p : Text) (n : Option ℕ) (token : Option Text) → Keeps Same (store.list_objects_v2 p n token)
  list-Keeps p n token = record { from = λ r h. keyed.at-list p j n token r ∙ h }

  head-Keeps : (k : Text) → Keeps Same (store.head_object k)
  head-Keeps k = record { from = λ r h. keyed.at-head k j r ∙ h }

  ensure_marker-Keeps : Keeps Same (ensure_marker store c)
  unfolding ensure_marker marker_key
  ensure_marker-Keeps = put-Keeps (text ".container") []

  exists-Keeps : Keeps Same (S3.exists store c)
  unfolding S3.exists
  exists-Keeps = search (keeps_rules, list-Keeps)

  branch-Keeps :
      (b : Bool) (m n : Action R Text (List Text))
      → Keeps Same m
      → Keeps Same n
      → Keeps Same (if b then m else n)
  branch-Keeps true m n km kn = km
  branch-Keeps false m n km kn = kn

  list_from-Keeps :
      (rounds : ℕ) (p : Text) (token : Option Text) (objects : List Text)
      → Keeps Same (list_from store rounds p token objects)
  unfolding list_from
  list_from-Keeps zero p token objects = Keeps-fail _
  list_from-Keeps (suc rounds) p token objects = Keeps-bind _ _ (list-Keeps p none token) λ output.
      branch-Keeps (or_false output.is_truncated) _ _
        (list_from-Keeps rounds p output.next_continuation_token
          (objects ++ names p output.contents))
        (Keeps-pure _)

  delete_object-Keeps : (name : Text) → Keeps Same (delete_object store c name)
  unfolding delete_object object_key
  delete_object-Keeps name = delete-Keeps (trim_start_matches b'/' name)

  delete_all-Keeps : (objects : List Text) → Keeps Same (delete_all store c objects)
  unfolding delete_all
  delete_all-Keeps [] = Keeps-pure tt
  delete_all-Keeps (object ∷ objects) =
      Keeps-then _ _ (delete_object-Keeps object) (delete_all-Keeps objects)

  delete_marker-Keeps : Keeps Same (delete_marker store c)
  unfolding delete_marker marker_key
  delete_marker-Keeps = record { from = λ r h. (delete-Keeps (text ".container")).from r h }

  list_objects-Keeps : (rounds : ℕ) → Keeps Same (list_objects store rounds c)
  unfolding list_objects
  list_objects-Keeps rounds = list_from-Keeps rounds (prefix c) none []

  clear-Keeps : (rounds : ℕ) → Keeps Same (clear store rounds c)
  unfolding clear
  clear-Keeps rounds =
      Keeps-bind _ _ (list_objects-Keeps rounds)
        λ objects. Keeps-then _ _ (delete_all-Keeps objects) delete_marker-Keeps

  get_data-Keeps : (name : Text) (start end : ℕ) → Keeps Same (get_data store c name start end)
  unfolding get_data
  get_data-Keeps name start end = record {
    from = λ r h. keyed.at-get (object_key c name) j (range_of start end) r ∙ h;
  }

  write_data-Keeps : (name : Text) (v : Bytes) → Keeps Same (write_data store c name v)
  unfolding write_data object_key
  write_data-Keeps name v =
      Keeps-then _ _ ensure_marker-Keeps (put-Keeps (trim_start_matches b'/' name) v)

  has_object-Keeps : (name : Text) → Keeps Same (has_object store c name)
  unfolding has_object
  has_object-Keeps name = record { from = λ r h. keyed.at-head (object_key c name) j r ∙ h }

  object_info-Keeps : (name : Text) → Keeps Same (object_info store c name)
  unfolding object_info
  object_info-Keeps name = search (keeps_rules, head-Keeps)

module _ {R E : Type 0} (store : ObjectStore R) (at : Text → R → E) (keyed : IsKeyed store at)
    (f name j : Text) (apart : (s : Text) → s3_prefix (tenant f) ++ s ≢ j) (e : E)
    (rounds : ℕ) where
  abbrev own : S3Container
  own = container_of (tenant f) name

  abbrev Kept : R → Type 0
  Kept r = at j r ≡ e

  ensure-Keeps : (b : Bool) (why : Text) → Keeps Kept (ensure b why)
  ensure-Keeps true why = Keeps-pure tt
  ensure-Keeps false why = Keeps-fail why

  -- What is done with the container that is opened keeps what its use keeps.
  opened-Keeps :
      (use_it : Container R → Action R Text (Unit {0}))
      → Keeps Kept (use_it (s3_container store rounds own))
      → Keeps Kept (get_container (tenant f) (s3 store) rounds name >>= use_it)
  unfolding get_container
  opened-Keeps use_it k = Keeps-assoc _ _ _ (
      Keeps-bind _ _ (exists-Keeps store at keyed own j apart e) λ there.
        Keeps-assoc _ _ _ (Keeps-bind _ _ (ensure-Keeps there _) (λ _. Keeps-pure-then _ _ k)))

  ignore-Keeps : {A : Type 0} → (m : Action R Text A) → Keeps Kept m → Keeps Kept (ignore m)
  ignore-Keeps m k = Keeps-bind _ _ k (λ _. Keeps-pure tt)

  blob_call-Keeps : (what : Call) → Keeps Kept (blob_call f (s3 store) rounds name what)
  unfolding blob_call create_container delete_container container_exists
  blob_call-Keeps Blobstore.create =
      ignore-Keeps _
        (Keeps-then _ _ (ensure_marker-Keeps store at keyed own j apart e) (Keeps-pure _))
  blob_call-Keeps Blobstore.remove = clear-Keeps store at keyed own j apart e rounds
  blob_call-Keeps Blobstore.exists = ignore-Keeps _ (exists-Keeps store at keyed own j apart e)
  blob_call-Keeps Blobstore.list =
      opened-Keeps _ (ignore-Keeps _ (list_objects-Keeps store at keyed own j apart e rounds))
  blob_call-Keeps (Blobstore.get object start end) =
      opened-Keeps _ (ignore-Keeps _ (get_data-Keeps store at keyed own j apart e object start end))
  blob_call-Keeps (Blobstore.write object bytes) =
      opened-Keeps _ (write_data-Keeps store at keyed own j apart e object bytes)
  blob_call-Keeps (Blobstore.delete object) =
      opened-Keeps _ (delete_object-Keeps store at keyed own j apart e object)
  blob_call-Keeps (Blobstore.has object) =
      opened-Keeps _ (ignore-Keeps _ (has_object-Keeps store at keyed own j apart e object))
  blob_call-Keeps (Blobstore.info object) =
      opened-Keeps _ (ignore-Keeps _ (object_info-Keeps store at keyed own j apart e object))

-- Where every request to S3 touches its own key alone, nothing that a function does with a container,
-- failures, listings and its removal included, changes an object below the prefix of another function
-- with another hash.
pub blob_call-isolated :
    {R E : Type 0} (store : ObjectStore R) (at : Text → R → E) (f g name suffix : Text) (rounds : ℕ)
    (what : Call) (r : R)
    → IsKeyed store at
    → stable_tenant_hash f ≢ stable_tenant_hash g
    → at (s3_prefix (tenant g) ++ suffix) (blob_call f (s3 store) rounds name what r).1
      ≡ at (s3_prefix (tenant g) ++ suffix) r
blob_call-isolated store at f g name suffix rounds what r keyed apart =
    let key = s3_prefix (tenant g) ++ suffix in
    (blob_call-Keeps store at keyed f name key (λ s. (prefixes_disjoint f g [] [] s suffix apart).1)
        (at key r) rounds what).from
      r refl
