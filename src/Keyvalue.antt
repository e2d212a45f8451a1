-- ===== src/Keyvalue.antt =====
-- The key-value stores of the functions: `TenantKeyValue`, `TenantBucket` and `ValkeyBucket` of
-- server/src/wasm_function.rs. Valkey and the store in memory are arguments, with states of a type
-- `R` of their own.
pub mod Tenants
pub mod Refinement
pub mod BucketMap
use faasta.Prelude.{
  ℕ, Text, text, Bool, Option, List, ◌++◌, Result, ok, Action, pure, lift, ◌>>=◌, ◌>>◌,
}
use faasta.Db.{Bytes}
use faasta.Tenant.{TenantId, tenant, resource_name, valkey_prefix, guest_resource_name}

-- The trait `Bucket`.
pub record Bucket (R : Type 0) : Type 0 where
  pub name : Text
  pub get : Text → Action R Text (Option Bytes)
  pub set : Text → Bytes → Action R Text (Unit {0})
  pub delete : Text → Action R Text (Unit {0})
  pub exists : Text → Action R Text Bool
  pub keys : Action R Text (List Text)

-- The commands of a Valkey server, each on a connection; `connection` opens one.
pub record Valkey (R : Type 0) : Type 0 where
  pub connection : Action R Text (Unit {0})
  pub get : Text → Action R Text (Option Bytes)
  pub set : Text → Bytes → Action R Text (Unit {0})
  pub sadd : Text → Text → Action R Text ℕ
  pub del : Text → Action R Text ℕ
  pub srem : Text → Text → Action R Text ℕ
  pub exists : Text → Action R Text Bool
  pub smembers : Text → Action R Text (List Text)

pub data KeyValueProvider (R : Type 0) : Type 0 where
  memory : (Text → Action R Text (Bucket R)) → KeyValueProvider R
  valkey : Valkey R → KeyValueProvider R

abbrev pub data_key : Text → Text → Text
data_key prefix key = prefix ++ (text ":data:" ++ key)

abbrev pub index_key : Text → Text
index_key prefix = prefix ++ text ":keys"

-- One call of a guest on a bucket that it opens.
pub data Call : Type 0 where
  get delete exists : Text → Call
  set : Text → Bytes → Call
  keys : Call

module _ {R : Type 0} where
  -- The same bucket under the guest's name for it.
  abbrev pub tenant_bucket : Text → Bucket R → Bucket R
  tenant_bucket guest_name bucket = record bucket { name = guest_name }

  module _ (c : Valkey R) where
    unfoldable pub valkey_get : Text → Text → Action R Text (Option Bytes)
    valkey_get prefix key = do c.connection; c.get (data_key prefix key)

    unfoldable pub valkey_set : Text → Text → Bytes → Action R Text (Unit {0})
    valkey_set prefix key value = do
      c.connection
      c.set (data_key prefix key) value
      _ ← c.sadd (index_key prefix) key
      pure tt

    unfoldable pub valkey_delete : Text → Text → Action R Text (Unit {0})
    valkey_delete prefix key = do
      c.connection
      _ ← c.del (data_key prefix key)
      _ ← c.srem (index_key prefix) key
      pure tt

    unfoldable pub valkey_exists : Text → Text → Action R Text Bool
    valkey_exists prefix key = do c.connection; c.exists (data_key prefix key)

    unfoldable pub valkey_keys : Text → Action R Text (List Text)
    valkey_keys prefix = do c.connection; c.smembers (index_key prefix)

    -- `ValkeyBucket`
    abbrev pub valkey_bucket : Text → Text → Bucket R
    valkey_bucket guest_name prefix = record {
      name = guest_name;
      get = valkey_get prefix;
      set = valkey_set prefix;
      delete = valkey_delete prefix;
      exists = valkey_exists prefix;
      keys = valkey_keys prefix;
    }

  unfoldable pub open_bucket : TenantId → KeyValueProvider R → Text → Action R Text (Bucket R)
  open_bucket id (memory opens) identifier = do
    bucket ← opens (resource_name id identifier)
    pure (tenant_bucket (guest_resource_name identifier) bucket)
  open_bucket id (valkey c) identifier =
      let guest_name = guest_resource_name identifier in
      pure (valkey_bucket c guest_name (valkey_prefix id guest_name))

  abbrev pub ignore : {A : Type 0} → Action R Text A → Action R Text (Unit {0})
  ignore m = m >>= λ _. pure tt

  abbrev pub call : Call → Bucket R → Action R Text (Unit {0})
  call (get key) bucket = ignore (bucket.get key)
  call (delete key) bucket = bucket.delete key
  call (exists key) bucket = ignore (bucket.exists key)
  call (set key value) bucket = bucket.set key value
  call keys bucket = ignore bucket.keys

  unfoldable pub guest_call : Text → KeyValueProvider R → Text → Call → Action R Text (Unit {0})
  guest_call function_name provider identifier c = do
    bucket ← open_bucket (tenant function_name) provider identifier
    call c bucket
