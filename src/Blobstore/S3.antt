-- ===== src/Blobstore/S3.antt =====
-- `S3Container` of server/src/wasm_function.rs: a container is the keys below a prefix of one bucket.
-- The contexts that are put before an error's text are left out.
use faasta.Prelude.{
  ℕ, zero, suc, ◌^◌, ◌-◌, Text, text, Bool, true, false, ◌&&◌, Option, none, some, List, [], ◌∷◌,
  ◌++◌, Result, ok, err, Action, pure, fail, ◌>>=◌, ◌>>◌, strip_prefix, ends_with,
  trim_start_matches, ltb, ◌==◌, if◌then◌else◌, contains_text,
}
use faasta.Prelude.Decimal.{to_string}
use faasta.Prelude.Int.{ℤ, max0_as_u64}
use faasta.Db.{Bytes}
use faasta.Tenant.{TenantId, s3_prefix}

pub record ContainerMetadata : Type 0 where
  pub name : Text
  pub created_at : ℕ

pub record ObjectMetadata : Type 0 where
  pub name : Text
  pub container : Text
  pub created_at : ℕ
  pub size : ℕ

-- One answer to `list_objects_v2`.
pub record Page : Type 0 where
  pub contents : List (Option Text)
  pub key_count : Option ℕ
  pub is_truncated : Option Bool
  pub next_continuation_token : Option Text

-- What `head_object` tells of an object.
pub record Head : Type 0 where
  pub last_modified : Option ℤ
  pub content_length : Option ℤ

-- The requests to S3 for the bucket of the server. `get_object` takes a range where there is one.
pub record ObjectStore (R : Type 0) : Type 0 where
  pub put_object : Text → Bytes → Action R Text (Unit {0})
  pub get_object : Text → Option Text → Action R Text Bytes
  pub delete_object : Text → Action R Text (Unit {0})
  pub head_object : Text → Action R Text Head
  pub list_objects_v2 : Text → Option ℕ → Option Text → Action R Text Page

pub record S3Container : Type 0 where
  pub tenant : TenantId
  pub guest_name : Text

unfoldable pub prefix : S3Container → Text
prefix c = s3_prefix c.tenant ++ (text "/" ++ (c.guest_name ++ text "/"))

unfoldable pub marker_key : S3Container → Text
marker_key c = prefix c ++ text ".container"

unfoldable pub object_key : S3Container → Text → Text
object_key c name = prefix c ++ trim_start_matches b'/' name

abbrev pub u64_max : ℕ
u64_max = 2 ^ 64 - 1

-- The result, where the error is one that an object is missing.
abbrev pub missing_as {ℓ} : {A : Type ℓ} → Text → A → Result Text A → Result Text A
missing_as code a (ok b) = ok b
missing_as code a (err e) = if contains_text code e then ok a else err e

abbrev pub or_zero : Option ℕ → ℕ
or_zero none = 0
or_zero (some n) = n

abbrev pub seconds : Option ℤ → ℕ
seconds none = 0
seconds (some i) = max0_as_u64 i

abbrev pub or_false : Option Bool → Bool
or_false none = false
or_false (some b) = b

abbrev pub onto : Option Text → List Text → List Text
onto none names = names
onto (some name) names = name ∷ names

-- The names of a page: keys that are there, are no markers and begin with the prefix.
unfoldable pub names : Text → List (Option Text) → List Text
names p [] = []
names p (none ∷ keys) = names p keys
names p (some key ∷ keys) =
    let rest = names p keys in
    if ends_with (text ".container") key then rest else onto (strip_prefix p key) rest

abbrev pub range_of : ℕ → ℕ → Option Text
range_of start end =
    if start == 0 && end == u64_max
    then none
    else some (text "bytes=" ++ (to_string start ++ (text "-" ++ to_string end)))

abbrev pub as_some {ℓ} : {A : Type ℓ} → Result Text A → Result Text (Option A)
as_some (ok a) = ok (some a)
as_some (err e) = err e

abbrev pub as_true {ℓ} : {A : Type ℓ} → Result Text A → Result Text Bool
as_true (ok a) = ok true
as_true (err e) = err e

-- The rounds ran out; the code has no such end.
abbrev pub out_of_rounds : Text
out_of_rounds = text "more pages than rounds"

module _ {R : Type 0} (s3 : ObjectStore R) where
  unfoldable pub ensure_marker : S3Container → Action R Text (Unit {0})
  ensure_marker c = s3.put_object (marker_key c) []

  unfoldable pub exists : S3Container → Action R Text Bool
  exists c = do
    listed ← s3.list_objects_v2 (prefix c) (some 1) none
    pure (ltb 0 (or_zero listed.key_count))

  -- The loop of `list_objects`, a page a round.
  unfoldable pub list_from : ℕ → Text → Option Text → List Text → Action R Text (List Text)
  unfolding names
  list_from zero p continuation objects = fail out_of_rounds
  list_from (suc rounds) p continuation objects = do
    output ← s3.list_objects_v2 p none continuation
    (if or_false output.is_truncated
        then list_from rounds p output.next_continuation_token (objects ++ names p output.contents)
        else pure (objects ++ names p output.contents))

  unfoldable pub list_objects : ℕ → S3Container → Action R Text (List Text)
  list_objects rounds c = list_from rounds (prefix c) none []

  unfoldable pub delete_object : S3Container → Text → Action R Text (Unit {0})
  delete_object c name = s3.delete_object (object_key c name)

  unfoldable pub delete_all : S3Container → List Text → Action R Text (Unit {0})
  delete_all c [] = pure tt
  delete_all c (object ∷ objects) = do delete_object c object; delete_all c objects

  -- What the last request comes to is ignored.
  unfoldable pub delete_marker : S3Container → Action R Text (Unit {0})
  delete_marker c r = let (_, r') = s3.delete_object (marker_key c) r in (ok tt, r')

  unfoldable pub clear : ℕ → S3Container → Action R Text (Unit {0})
  unfolding delete_all
  clear rounds c = do objects ← list_objects rounds c; delete_all c objects; delete_marker c

  unfoldable pub get_data : S3Container → Text → ℕ → ℕ → Action R Text (Option Bytes)
  get_data c name start end r =
      let (output, r') = s3.get_object (object_key c name) (range_of start end) r in
      (missing_as (text "NoSuchKey") none (as_some output), r')

  unfoldable pub write_data : S3Container → Text → Bytes → Action R Text (Unit {0})
  write_data c name bytes = do ensure_marker c; s3.put_object (object_key c name) bytes

  unfoldable pub has_object : S3Container → Text → Action R Text Bool
  has_object c name r =
      let (output, r') = s3.head_object (object_key c name) r in
      (missing_as (text "NotFound") false (as_true output), r')

  unfoldable pub object_info : S3Container → Text → Action R Text ObjectMetadata
  object_info c name = do
    output ← s3.head_object (object_key c name)
    pure (record {
      name = name;
      container = c.guest_name;
      created_at = seconds output.last_modified;
      size = seconds output.content_length;
    })
