-- ===== src/Keyvalue/Tenants.antt =====
-- One function's calls leave the keys of the others alone.
use faasta.Prelude.{Text, ◌++◌, ◌≡◌, ◌≢◌, refl, ◌∙◌, ◌>>=◌, Keeps, keeps_rules}
use faasta.Db.{Bytes}
use faasta.Tenant.{tenant, stable_tenant_hash, valkey_prefix, guest_resource_name}
use faasta.Tenant.Isolation.{prefixes_disjoint}
use faasta.Keyvalue
use faasta.Keyvalue.{
  Bucket, Valkey, KeyValueProvider, memory, valkey, data_key, index_key, valkey_get, valkey_set,
  valkey_delete, valkey_exists, valkey_keys, valkey_bucket, open_bucket, Call, call, ignore,
  guest_call,
}

-- The commands of Valkey that write a key leave what is under the other keys; the others write none.
pub record IsKeyed {R E : Type 0} (c : Valkey R) (at : Text → R → E) : Type 0 where
  pub at-connection : (j : Text) (r : R) → at j (c.connection r).1 ≡ at j r
  pub at-get : (k j : Text) (r : R) → at j (c.get k r).1 ≡ at j r
  pub at-exists : (k j : Text) (r : R) → at j (c.exists k r).1 ≡ at j r
  pub at-smembers : (k j : Text) (r : R) → at j (c.smembers k r).1 ≡ at j r
  pub at-set : (k j : Text) (v : Bytes) (r : R) → k ≢ j → at j (c.set k v r).1 ≡ at j r
  pub at-del : (k j : Text) (r : R) → k ≢ j → at j (c.del k r).1 ≡ at j r
  pub at-sadd : (k j x : Text) (r : R) → k ≢ j → at j (c.sadd k x r).1 ≡ at j r
  pub at-srem : (k j x : Text) (r : R) → k ≢ j → at j (c.srem k x r).1 ≡ at j r

module _ {R E : Type 0} (c : Valkey R) (at : Text → R → E) (keyed : IsKeyed c at) (prefix j : Text)
    (apart : (s : Text) → prefix ++ s ≢ j) (e : E) where
  abbrev Same : R → Type 0
  Same r = at j r ≡ e

  connection-Keeps : Keeps Same c.connection
  connection-Keeps = record { from = λ r h. keyed.at-connection j r ∙ h }

  get-Keeps : (k : Text) → Keeps Same (c.get k)
  get-Keeps k = record { from = λ r h. keyed.at-get k j r ∙ h }

  exists-Keeps : (k : Text) → Keeps Same (c.exists k)
  exists-Keeps k = record { from = λ r h. keyed.at-exists k j r ∙ h }

  smembers-Keeps : (k : Text) → Keeps Same (c.smembers k)
  smembers-Keeps k = record { from = λ r h. keyed.at-smembers k j r ∙ h }

  set-Keeps : (s : Text) (v : Bytes) → Keeps Same (c.set (prefix ++ s) v)
  set-Keeps s v = record { from = λ r h. keyed.at-set (prefix ++ s) j v r (apart s) ∙ h }

  del-Keeps : (s : Text) → Keeps Same (c.del (prefix ++ s))
  del-Keeps s = record { from = λ r h. keyed.at-del (prefix ++ s) j r (apart s) ∙ h }

  sadd-Keeps : (s x : Text) → Keeps Same (c.sadd (prefix ++ s) x)
  sadd-Keeps s x = record { from = λ r h. keyed.at-sadd (prefix ++ s) j x r (apart s) ∙ h }

  srem-Keeps : (s x : Text) → Keeps Same (c.srem (prefix ++ s) x)
  srem-Keeps s x = record { from = λ r h. keyed.at-srem (prefix ++ s) j x r (apart s) ∙ h }

  call-Keeps : (name : Text) (what : Call) → Keeps Same (call what (valkey_bucket c name prefix))
  unfolding valkey_get valkey_set valkey_delete valkey_exists valkey_keys
  call-Keeps name (Keyvalue.get key) = search (keeps_rules, connection-Keeps, get-Keeps)
  call-Keeps name (Keyvalue.delete key) =
      search (keeps_rules, connection-Keeps, del-Keeps, srem-Keeps)
  call-Keeps name (Keyvalue.exists key) = search (keeps_rules, connection-Keeps, exists-Keeps)
  call-Keeps name (Keyvalue.set key value) =
      search (keeps_rules, connection-Keeps, set-Keeps, sadd-Keeps)
  call-Keeps name Keyvalue.keys = search (keeps_rules, connection-Keeps, smembers-Keeps)

-- Where every command of Valkey touches its own key alone, nothing that a function does with a bucket of its
-- own, failures included, changes a key below a prefix of another function with another hash.
pub guest_call-isolated :
    {R E : Type 0} (c : Valkey R) (at : Text → R → E) (f g identifier other suffix : Text)
    (what : Call) (r : R)
    → IsKeyed c at
    → stable_tenant_hash f ≢ stable_tenant_hash g
    → at (valkey_prefix (tenant g) other ++ suffix) (guest_call f (valkey c) identifier what r).1
      ≡ at (valkey_prefix (tenant g) other ++ suffix) r
unfolding guest_call open_bucket ◌>>=◌
guest_call-isolated c at f g identifier other suffix what r keyed apart =
    let guest = guest_resource_name identifier in
    let key = valkey_prefix (tenant g) other ++ suffix in
    (call-Keeps c at keyed (valkey_prefix (tenant f) guest) key
        (λ s. (prefixes_disjoint f g guest other s suffix apart).0) (at key r) guest what).from
      r refl
