-- ===== src/Keyvalue/Refinement.antt =====
-- A bucket of `ValkeyBucket` behaves as a map from keys to values.
use faasta.Prelude.{
  ℕ, Text, text, Bool, true, false, Option, none, some, List, [], ◌∷◌, ◌++◌, ◌≡◌, ◌≢◌, refl, sym,
  ap, ◌∙◌, Result, ok, Action, pure, ◌>>=◌, text_eq, text_eq_iff, text_eq_self, ◌&&◌, if◌then◌else◌,
  Bool-cases, inl, inr,
}
use faasta.Prelude.Cuts.{prefix_injective}
use faasta.Prelude.Dict
use faasta.Prelude.Dict.{Dict, lookup-insert, lookup-erase}
use faasta.Db.{Bytes}
use faasta.GithubAuth.{contains}
use faasta.Keyvalue.{
  Valkey, data_key, index_key, Call, valkey_get, valkey_set, valkey_delete, valkey_exists,
  valkey_keys,
}
use faasta.Keyvalue

abbrev pub is_some {ℓ} : {A : Type ℓ} → Option A → Bool
is_some none = false
is_some (some _) = true

-- A Valkey server that answers: what its commands do to the strings and to the sets. A set that is there
-- has a member, and a key is never both: `SET` and `DEL` take a set at their key away, and the other
-- commands are for keys of their own kind, or of none.
pub record IsWorking {R : Type 0} (c : Valkey R) (value : Text → R → Option Bytes)
    (member : Text → Text → R → Bool) : Type 0 where
  pub connects : (r : R) → c.connection r ≡ (ok tt, r)
  pub gets :
      (k : Text) (r : R) → ((x : Text) → member k x r ≡ false) → c.get k r ≡ (ok (value k r), r)
  pub finds :
      (k : Text) (r : R)
      → ((x : Text) → member k x r ≡ false)
      → c.exists k r ≡ (ok (is_some (value k r)), r)
  pub lists :
      (k : Text) (r : R)
      → value k r ≡ none
      → (xs : List Text) × (c.smembers k r ≡ (ok xs, r))
        × ((x : Text) → contains xs x ≡ member k x r)
  pub sets : (k : Text) (v : Bytes) (r : R) → (c.set k v r).0 ≡ ok tt
  pub value-set :
      (k j : Text) (v : Bytes) (r : R)
      → value j (c.set k v r).1 ≡ (if text_eq k j then some v else value j r)
  pub member-set :
      (k j x : Text) (v : Bytes) (r : R)
      → member j x (c.set k v r).1 ≡ (if text_eq k j then false else member j x r)
  pub deletes : (k : Text) (r : R) → (n : ℕ) × ((c.del k r).0 ≡ ok n)
  pub value-del :
      (k j : Text) (r : R) → value j (c.del k r).1 ≡ (if text_eq k j then none else value j r)
  pub member-del :
      (k j x : Text) (r : R)
      → member j x (c.del k r).1 ≡ (if text_eq k j then false else member j x r)
  pub adds : (k x : Text) (r : R) → value k r ≡ none → (n : ℕ) × ((c.sadd k x r).0 ≡ ok n)
  pub value-sadd : (k j x : Text) (r : R) → value k r ≡ none → value j (c.sadd k x r).1 ≡ value j r
  pub member-sadd :
      (k j x y : Text) (r : R)
      → value k r ≡ none
      → member j y (c.sadd k x r).1 ≡ (if text_eq k j && text_eq x y then true else member j y r)
  pub removes : (k x : Text) (r : R) → value k r ≡ none → (n : ℕ) × ((c.srem k x r).0 ≡ ok n)
  pub value-srem : (k j x : Text) (r : R) → value k r ≡ none → value j (c.srem k x r).1 ≡ value j r
  pub member-srem :
      (k j x y : Text) (r : R)
      → value k r ≡ none
      → member j y (c.srem k x r).1 ≡ (if text_eq k j && text_eq x y then false else member j y r)

-- What a call answers.
pub data Answer : Type 0 where
  value : Option Bytes → Answer
  found : Bool → Answer
  names : List Text → Answer
  done : Answer

-- The answer that a map gives, and the map after the call. Names come in any order.
abbrev pub Answers : Call → Dict Bytes → Result Text Answer → Type 0
Answers (Keyvalue.get k) d r = r ≡ ok (value (Dict.lookup k d))
Answers (Keyvalue.exists k) d r = r ≡ ok (found (is_some (Dict.lookup k d)))
Answers (Keyvalue.set k v) d r = r ≡ ok done
Answers (Keyvalue.delete k) d r = r ≡ ok done
Answers Keyvalue.keys d r =
    (xs : List Text) × (r ≡ ok (names xs))
    × ((x : Text) → contains xs x ≡ is_some (Dict.lookup x d))

abbrev pub after : Call → Dict Bytes → Dict Bytes
after (Keyvalue.set k v) d = Dict.insert k v d
after (Keyvalue.delete k) d = Dict.erase k d
after c d = d

abbrev pub AllAnswer : List Call → Dict Bytes → List (Result Text Answer) → Type 0
AllAnswer [] d [] = Unit
AllAnswer (c ∷ cs) d (r ∷ rs) = Answers c d r × AllAnswer cs (after c d) rs
AllAnswer _ d _ = ⊥

abbrev pub after_all : List Call → Dict Bytes → Dict Bytes
after_all [] d = d
after_all (c ∷ cs) d = after_all cs (after c d)

module _ {R : Type 0} (c : Valkey R) (prefix : Text) where
  -- A call on the bucket, with its answer.
  abbrev pub bucket_call : Call → Action R Text Answer
  bucket_call (Keyvalue.get k) = valkey_get c prefix k >>= λ v. pure (value v)
  bucket_call (Keyvalue.exists k) = valkey_exists c prefix k >>= λ b. pure (found b)
  bucket_call (Keyvalue.set k v) = valkey_set c prefix k v >>= λ _. pure done
  bucket_call (Keyvalue.delete k) = valkey_delete c prefix k >>= λ _. pure done
  bucket_call Keyvalue.keys = valkey_keys c prefix >>= λ xs. pure (names xs)

  abbrev pub run_calls : List Call → R → List (Result Text Answer) × R
  run_calls [] r = ([], r)
  run_calls (call ∷ calls) r =
      let (a, r') = bucket_call call r in let (rs, r'') = run_calls calls r' in (a ∷ rs, r'')

-- The strings and the index of the bucket are those of a map.
pub record Represents {R : Type 0} (value_at : Text → R → Option Bytes)
    (member : Text → Text → R → Bool) (prefix : Text) (r : R) (d : Dict Bytes) : Type 0 where
  pub strings : (key : Text) → value_at (data_key prefix key) r ≡ Dict.lookup key d
  pub index : (key : Text) → member (index_key prefix) key r ≡ is_some (Dict.lookup key d)
  pub no_sets : (key x : Text) → member (data_key prefix key) x r ≡ false
  pub no_string : value_at (index_key prefix) r ≡ none

text_eq-false : (s t : Text) → s ≢ t → text_eq s t ≡ false
text_eq-false s t h = elim (Bool-cases (text_eq s t)) [
  | inl e ↦ absurd (h ((text_eq_iff s t).0 e))
  | inr e ↦ e
]

module _ (prefix : Text) where
  data-ne-index : (key : Text) → data_key prefix key ≢ index_key prefix
  data-ne-index key e =
      two (prefix_injective prefix prefix (text ":data:" ++ key) (text ":keys") refl e).1
    where
      two : text ":data:" ++ key ≢ text ":keys"
      two h = cc

  pub data_index : (key : Text) → text_eq (data_key prefix key) (index_key prefix) ≡ false
  data_index key = text_eq-false _ _ (data-ne-index key)

  pub index_data : (key : Text) → text_eq (index_key prefix) (data_key prefix key) ≡ false
  index_data key = text_eq-false _ _ (λ e. data-ne-index key (sym e))

  pub data_data : (k j : Text) → text_eq (data_key prefix k) (data_key prefix j) ≡ text_eq k j
  data_data k j = elim (Bool-cases (text_eq k j)) [
    | inl same ↦
        ap (λ x. text_eq (data_key prefix k) (data_key prefix x)) (sym ((text_eq_iff k j).0 same))
        ∙ text_eq_self _
        ∙ sym same
    | inr apart ↦ text_eq-false _ _ (λ e. different (same_key e) apart) ∙ sym apart
  ]
    where
      same_key : data_key prefix k ≡ data_key prefix j → k ≡ j
      same_key e =
          (prefix_injective (text ":data:") (text ":data:") k j refl
            (prefix_injective prefix prefix (text ":data:" ++ k) (text ":data:" ++ j) refl e).1).1

      different : k ≡ j → text_eq k j ≡ false → ⊥
      different e h = two ((text_eq_iff k j).1 e) h
        where
          two : text_eq k j ≡ true → text_eq k j ≡ false → ⊥
          two a b = cc

pub is_some-if :
    {A : Type 0} (b : Bool) (x y : Option A)
    → is_some (if b then x else y) ≡ (if b then is_some x else is_some y)
is_some-if true x y = refl
is_some-if false x y = refl
