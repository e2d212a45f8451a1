-- ===== src/Guest.antt =====
-- The library that functions are written with: faasta/src/kv.rs, and the values of faasta/src/sql.rs. The
-- bindings to the host are arguments.
pub mod Buckets
pub mod Blobs
pub mod Objects
pub mod Names
pub mod Responses
pub mod Statements
use faasta.Prelude.{
  ℕ, Text, text, Bool, Option, none, some, List, [], ◌∷◌, ◌++◌, Action, ◌>>=◌, text_eq,
  if◌then◌else◌,
}
use faasta.Prelude.Int.{ℤ}
use faasta.Db.{Bytes}
use faasta.Sql.Values.{DataType, boolean, int32, int64, uint32, uint64, float, double, str, binary}

-- The interface `wasi:keyvalue` with buckets of a type `B`; `set` takes a time to live where there is one.
pub record Cache (R B : Type 0) : Type 0 where
  pub open_bucket : Text → Action R Text B
  pub get : B → Text → Action R Text (Option Bytes)
  pub set : B → Text → Bytes → Option ℕ → Action R Text (Unit {0})
  pub delete : B → Text → Action R Text (Unit {0})

-- `Bucket::key`
unfoldable pub key_in : Text → Text → Text
key_in name key = if text_eq name (text "cache") then key else name ++ b':' ∷ key

module _ {R B : Type 0} (cache : Cache R B) where
  -- The host's bucket is opened for every call.
  unfoldable pub get : Text → Action R Text (Option Bytes)
  get key = do bucket ← cache.open_bucket (text "cache"); cache.get bucket key

  unfoldable pub set : Text → Bytes → Option ℕ → Action R Text (Unit {0})
  set key value ttl_secs = do
    bucket ← cache.open_bucket (text "cache")
    cache.set bucket key value ttl_secs

  unfoldable pub delete : Text → Action R Text (Unit {0})
  delete key = do bucket ← cache.open_bucket (text "cache"); cache.delete bucket key

  -- `Bucket`
  unfoldable pub bucket_get : Text → Text → Action R Text (Option Bytes)
  bucket_get name key = get (key_in name key)

  unfoldable pub bucket_set : Text → Text → Bytes → Action R Text (Unit {0})
  bucket_set name key value = set (key_in name key) value none

  unfoldable pub bucket_set_ttl : Text → Text → Bytes → ℕ → Action R Text (Unit {0})
  bucket_set_ttl name key value ttl_secs = set (key_in name key) value (some ttl_secs)

  unfoldable pub bucket_delete : Text → Text → Action R Text (Unit {0})
  bucket_delete name key = delete (key_in name key)

  -- `Kv`
  unfoldable pub kv_get : Text → Action R Text (Option Bytes)
  kv_get key = bucket_get (text "cache") key

  unfoldable pub kv_set : Text → Bytes → Action R Text (Unit {0})
  kv_set key value = bucket_set (text "cache") key value

  unfoldable pub kv_delete : Text → Action R Text (Unit {0})
  kv_delete key = bucket_delete (text "cache") key

-- The types that are `IntoSqlValue`.
pub data IntoSqlValue : Type 0 where
  string bytes : List ℕ → IntoSqlValue
  bool : Bool → IntoSqlValue
  i32 i64 : ℤ → IntoSqlValue
  u32 u64 f32 f64 : ℕ → IntoSqlValue

unfoldable pub into_sql_value : IntoSqlValue → DataType
into_sql_value (string s) = str (some s)
into_sql_value (bool b) = boolean (some b)
into_sql_value (i32 i) = int32 (some i)
into_sql_value (i64 i) = int64 (some i)
into_sql_value (u32 n) = uint32 (some n)
into_sql_value (u64 n) = uint64 (some n)
into_sql_value (f32 bits) = float (some bits)
into_sql_value (f64 bits) = double (some bits)
into_sql_value (bytes s) = binary (some s)
