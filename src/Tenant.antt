-- ===== src/Tenant.antt =====
-- `TenantId` of server/src/wasm_function.rs: the names under which a function's data is kept.
pub mod Hash
pub mod Isolation
use Prim.Native.Nat.{bit_xor}
use faasta.Prelude.{
  ℕ, ◌*◌, ◌%◌, ◌^◌, Text, text, List, [], ◌∷◌, ◌++◌, ◌≡◌, refl, is_empty, if◌then◌else◌,
}
use faasta.Prelude.Decimal.{hex16}
use faasta.Prelude.Utf8.{as_bytes}

abbrev pub fnv_offset_basis : ℕ
fnv_offset_basis = 0xcbf29ce484222325

abbrev pub fnv_prime : ℕ
fnv_prime = 0x100000001b3

-- One round of the loop of `stable_tenant_hash`: `hash ^= byte`, then `wrapping_mul`.
unfoldable pub fnv_round : ℕ → ℕ → ℕ
fnv_round hash byte = (bit_xor hash byte * fnv_prime) % 2 ^ 64

unfoldable pub fnv_from : ℕ → List ℕ → ℕ
fnv_from hash [] = hash
fnv_from hash (byte ∷ bytes) = fnv_from (fnv_round hash byte) bytes

unfoldable pub tenant_word : Text → ℕ
tenant_word function_name = fnv_from fnv_offset_basis (as_bytes function_name)

unfoldable pub stable_tenant_hash : Text → Text
stable_tenant_hash function_name = hex16 (tenant_word function_name)

pub record TenantId : Type 0 where
  pub namespace : Text
  pub hash : Text

-- `TenantId::new`
abbrev pub tenant : Text → TenantId
tenant function_name = record {
  namespace = text "fn:" ++ function_name;
  hash = stable_tenant_hash function_name;
}

unfoldable pub resource_name : TenantId → Text → Text
resource_name id name =
    if is_empty name then id.namespace ++ text ":default" else id.namespace ++ (text ":" ++ name)

unfoldable pub s3_prefix : TenantId → Text
s3_prefix id = text "functions/" ++ (id.hash ++ text "/blob")

unfoldable pub valkey_prefix : TenantId → Text → Text
valkey_prefix id bucket = text "faasta:" ++ (id.hash ++ (text ":kv:" ++ bucket))

unfoldable pub guest_resource_name : Text → Text
guest_resource_name name = if is_empty name then text "default" else name

hash_of_a : stable_tenant_hash (text "a") ≡ text "af63dc4c8601ec8c"
unfolding stable_tenant_hash tenant_word fnv_from fnv_round hex16 as_bytes
hash_of_a = refl
