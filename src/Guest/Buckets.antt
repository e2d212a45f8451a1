-- ===== src/Guest/Buckets.antt =====
-- Buckets of a function in the host's one bucket (faasta/src/kv.rs).
use faasta.Prelude.{
  Text, text, false, none, ◌∷◌, ◌++◌, ◌≡◌, ◌≢◌, refl, ap, sym, ◌∙◌, contains_char, text_eq,
  text_eq_iff, Bool-cases, inl, inr,
}
use faasta.Prelude.Cuts.{cut_injective}
use faasta.Db.{Bytes}
use faasta.Guest
use faasta.Guest.{Cache, key_in, bucket_get, bucket_set, kv_get, kv_set}

key_in-named : (name key : Text) → name ≢ text "cache" → key_in name key ≡ name ++ b':' ∷ key
unfolding key_in
key_in-named name key other = elim (Bool-cases (text_eq name (text "cache"))) [
  | inl same ↦ absurd (other ((text_eq_iff name (text "cache")).0 same))
  | inr apart ↦ rw apart refl
]

-- Two buckets without a colon in their names, neither the default one, share no key.
pub key_in-injective :
    (name other key key' : Text)
    → name ≢ text "cache"
    → other ≢ text "cache"
    → contains_char b':' name ≡ false
    → contains_char b':' other ≡ false
    → key_in name key ≡ key_in other key'
    → (name ≡ other) × (key ≡ key')
key_in-injective name other key key' named named' lacks lacks' e =
    cut_injective b':' name other key key' lacks lacks'
      (sym (key_in-named name key named) ∙ e ∙ key_in-named other key' named')

-- The default bucket shares its keys with every other one: what is written there under `name:key` is
-- what the bucket `name` has under `key`.
pub kv_set-collides :
    {R B : Type 0} (cache : Cache R B) (name key : Text) (value : Bytes) (r : R)
    → name ≢ text "cache"
    → (kv_set cache (name ++ b':' ∷ key) value r ≡ bucket_set cache name key value r)
      × (kv_get cache (name ++ b':' ∷ key) r ≡ bucket_get cache name key r)
unfolding kv_set kv_get bucket_set bucket_get
kv_set-collides cache name key value r named =
    let same = default_key (name ++ b':' ∷ key) ∙ sym (key_in-named name key named) in
    (ap (λ k. Guest.set cache k value none r) same, ap (λ k. Guest.get cache k r) same)
  where
    default_key : (k : Text) → key_in (text "cache") k ≡ k
    default_key k = unfold key_in text_eq in refl
