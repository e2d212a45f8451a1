-- ===== src/Tests/Blobs.antt =====
-- A bucket of S3 as a dictionary, which answers a listing by one page.
use faasta.Prelude.{
  Text, text, Bool, true, false, Option, none, some, List, [], ◌∷◌, ◌++◌, map, ◌≡◌, refl, sym, ap,
  arith, Result, ok, err, length, text_eq, text_eq_self, contains_text, strip_prefix,
}
use faasta.Prelude.Dict
use faasta.Prelude.Dict.{Dict, lookup-insert, lookup-erase}
use faasta.Db.{Bytes}
use faasta.Tenant.{tenant, s3_prefix}
use faasta.Blobstore
use faasta.Blobstore.{s3, container_of, blob_call}
use faasta.Blobstore.S3.{ObjectStore, Page, Head, S3Container, object_key, prefix, list_objects}
use faasta.Blobstore.Tenants.{IsKeyed, blob_call-isolated}
use faasta.Blobstore.Listing.{IsPaged, present, below, visible, list_objects_lem}
use faasta.Blobstore.Objects.{IsConsistent, SaysGone}
use faasta.Tests.Stores.{hashes_apart, insert-other, erase-other}

abbrev pub got : Option Bytes → Result Text Bytes
got none = err (text "NoSuchKey")
got (some bytes) = ok bytes

abbrev pub no_head : Head
no_head = record { last_modified = none; content_length = none }

abbrev pub head_of : Option Bytes → Result Text Head
head_of none = err (text "NotFound")
head_of (some bytes) = ok no_head

abbrev pub keys_of : Dict Bytes → List Text
keys_of [] = []
keys_of ((k, v) ∷ d) = k ∷ keys_of d

abbrev pub one_page : Dict Bytes → Text → Option Text → Page
one_page r p token = record {
  contents = map (λ k. some k) (below p (keys_of r));
  key_count = some (length (below p (keys_of r)));
  is_truncated = some false;
  next_continuation_token = none;
}

abbrev pub small_s3 : ObjectStore (Dict Bytes)
small_s3 = record {
  put_object = λ k v r. (ok tt, Dict.insert k v r);
  get_object = λ k range r. (got (Dict.lookup k r), r);
  delete_object = λ k r. (ok tt, Dict.erase k r);
  head_object = λ k r. (head_of (Dict.lookup k r), r);
  list_objects_v2 = λ p max_keys token r. (ok (one_page r p token), r);
}

small_s3-IsKeyed : IsKeyed small_s3 Dict.lookup
small_s3-IsKeyed = record {
  at-put = λ k j v r apart. insert-other k j v r apart;
  at-delete = λ k j r apart. erase-other k j r apart;
  at-get = λ k j range r. refl;
  at-head = λ k j r. refl;
  at-list = λ p j n token r. refl;
}

blob_call-isolated_example :
    Dict.lookup
      (s3_prefix (tenant (text "b")) ++ text "/k/x")
      (blob_call (text "a") (s3 small_s3) 9 (text "k") (Blobstore.write (text "x") (1 ∷ [])) []).1
    ≡ Dict.lookup (s3_prefix (tenant (text "b")) ++ text "/k/x") []
blob_call-isolated_example =
    blob_call-isolated small_s3 Dict.lookup (text "a") (text "b") (text "k") (text "/k/x") 9
      (Blobstore.write (text "x") (1 ∷ [])) [] small_s3-IsKeyed hashes_apart

stored : (k : Text) (v : Bytes) (r : Dict Bytes) → Dict.lookup k (Dict.insert k v r) ≡ some v
stored k v r = rw (lookup-insert k k v r, text_eq_self k) refl

erased : (k : Text) (r : Dict Bytes) → Dict.lookup k (Dict.erase k r) ≡ none
erased k r = rw (lookup-erase k k r, text_eq_self k) refl

pub small_s3-IsConsistent : IsConsistent small_s3
small_s3-IsConsistent = record {
  get-put = λ k v r h. ap got (stored k v r);
  head-put = λ k v r h. (no_head, ap head_of (stored k v r));
}

small_s3-SaysGone : SaysGone small_s3
unfolding contains_text strip_prefix text_eq
small_s3-SaysGone = record {
  get-delete = λ k r h. (text "NoSuchKey", ap got (erased k r), refl);
  head-delete = λ k r h. (text "NotFound", ap head_of (erased k r), refl);
}

abbrev pub shelf : S3Container
shelf = container_of (tenant (text "a")) (text "k")

present-map : (keys : List Text) → present (map (λ k. some k) keys) ≡ keys
present-map [] = refl
present-map (k ∷ keys) = ap (λ ks. k ∷ ks) (present-map keys)

abbrev pub left_over : Dict Bytes → Text → Option Text → List Text
left_over r p token = below p (keys_of r)

abbrev pub Any : Dict Bytes → Text → Option Text → Type 0
Any r p token = Unit

pub small_s3-IsPaged : IsPaged small_s3 keys_of one_page left_over Any
small_s3-IsPaged = record {
  first = λ r p. tt;
  all = λ r p. refl;
  answers = λ r p t issued. refl;
  last = λ r p t issued done. sym (present-map (below p (keys_of r)));
  more = λ r p t issued goes_on. absurd (never goes_on);
}
  where
    never : ¬ (Path Bool false true)
    never e = cc

abbrev pub two_objects : Dict Bytes
two_objects = (object_key shelf (text "x"), 1 ∷ []) ∷ (text "other", 2 ∷ []) ∷ []

list_objects_lem_example :
    list_objects small_s3 5 shelf two_objects
    ≡ (ok (visible (prefix shelf) (keys_of two_objects)), two_objects)
list_objects_lem_example =
    list_objects_lem small_s3 keys_of one_page left_over Any small_s3-IsPaged 5 shelf two_objects
      (omega arith)
