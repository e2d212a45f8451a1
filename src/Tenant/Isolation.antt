-- ===== src/Tenant/Isolation.antt =====
-- Functions with different names keep their data under different names.
use faasta.Prelude.{
  ℕ, Text, text, some, [], ◌∷◌, ◌++◌, ◌≡◌, ◌≢◌, ◌↔◌, refl, sym, ap, ◌∙◌, arith, append_assoc,
  length,
}
use faasta.Prelude.Decimal.{hex16, hex16-injective, length-hex16}
use faasta.Prelude.Cuts.{cut_injective, prefix_injective}
use faasta.Routing.{sanitize_function_name}
use faasta.Routing.Names.{IsNameChar, sanitize-lacks}
use faasta.Tenant.{
  tenant, tenant_word, stable_tenant_hash, resource_name, guest_resource_name, valkey_prefix,
  s3_prefix,
}
use faasta.Tenant.Hash.{tenant_word-lt}

resource_name-guest :
    (f n : Text) → resource_name (tenant f) n ≡ text "fn:" ++ (f ++ b':' ∷ guest_resource_name n)
unfolding resource_name guest_resource_name
resource_name-guest f [] = append_assoc (text "fn:") f (text ":default")
resource_name-guest f (c ∷ n) = append_assoc (text "fn:") f (b':' ∷ c ∷ n)

-- Two resources with one host name belong to one function and are one resource of it, where both
-- function names pass the character check.
pub resource_name-injective :
    (f g n m : Text)
    → sanitize_function_name f ≡ some f
    → sanitize_function_name g ≡ some g
    → resource_name (tenant f) n ≡ resource_name (tenant g) m
    → (f ≡ g) × (guest_resource_name n ≡ guest_resource_name m)
resource_name-injective f g n m hf hg e =
    let colon : ¬ IsNameChar b':' = λ h. ground arith in
    let same = sym (resource_name-guest f n) ∙ e ∙ resource_name-guest g m in
    cut_injective b':' f g (guest_resource_name n) (guest_resource_name m)
      (sanitize-lacks b':' f f colon hf) (sanitize-lacks b':' g g colon hg)
      ((prefix_injective (text "fn:") (text "fn:") _ _ refl same).1)

-- Two function names have one tenant hash exactly when their 64-bit words are equal: printing the
-- word loses nothing.
pub stable_tenant_hash_iff :
    (f g : Text) → (stable_tenant_hash f ≡ stable_tenant_hash g) ↔ (tenant_word f ≡ tenant_word g)
unfolding stable_tenant_hash
stable_tenant_hash_iff f g = (
  hex16-injective (tenant_word f) (tenant_word g) (tenant_word-lt f) (tenant_word-lt g),
  ap (λ (w : ℕ). hex16 w),
)

pub length-stable_tenant_hash : (f : Text) → length (stable_tenant_hash f) ≡ 16
unfolding stable_tenant_hash
length-stable_tenant_hash f = length-hex16 (tenant_word f)

same_length : (f g : Text) → length (stable_tenant_hash f) ≡ length (stable_tenant_hash g)
same_length f g = length-stable_tenant_hash f ∙ sym (length-stable_tenant_hash g)

regroup : (p h a s : Text) → (p ++ (h ++ a)) ++ s ≡ p ++ (h ++ (a ++ s))
regroup p h a s = simp append_assoc

-- Texts that have the hashes of two functions at one place are equal for one hash only.
pub hash_within :
    (p f g s t : Text)
    → p ++ (stable_tenant_hash f ++ s) ≡ p ++ (stable_tenant_hash g ++ t)
    → stable_tenant_hash f ≡ stable_tenant_hash g
hash_within p f g s t e =
    let tails =
      prefix_injective p p (stable_tenant_hash f ++ s) (stable_tenant_hash g ++ t) refl e in
    (prefix_injective (stable_tenant_hash f) (stable_tenant_hash g) s t (same_length f g) tails.1).0

hash_of_prefix :
    (p f g a b s t : Text)
    → (p ++ (stable_tenant_hash f ++ a)) ++ s ≡ (p ++ (stable_tenant_hash g ++ b)) ++ t
    → stable_tenant_hash f ≡ stable_tenant_hash g
hash_of_prefix p f g a b s t e =
    hash_within p f g (a ++ s) (b ++ t)
      (sym (regroup p (stable_tenant_hash f) a s) ∙ e ∙ regroup p (stable_tenant_hash g) b t)

-- Every key below a Valkey prefix of one function differs from every key below one of another, and
-- so for S3 prefixes, where the hashes of the functions differ.
pub prefixes_disjoint :
    (f g a b s t : Text)
    → stable_tenant_hash f ≢ stable_tenant_hash g
    → (valkey_prefix (tenant f) a ++ s ≢ valkey_prefix (tenant g) b ++ t)
      × (s3_prefix (tenant f) ++ s ≢ s3_prefix (tenant g) ++ t)
unfolding valkey_prefix s3_prefix
prefixes_disjoint f g a b s t h = (
  λ e. h (hash_of_prefix (text "faasta:") f g (text ":kv:" ++ a) (text ":kv:" ++ b) s t e),
  λ e. h (hash_of_prefix (text "functions/") f g (text "/blob") (text "/blob") s t e),
)
