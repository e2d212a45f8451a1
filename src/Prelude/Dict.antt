-- ===== src/Prelude/Dict.antt =====
-- Maps with text keys as association lists with one entry for a key: `DashMap`, a table with a
-- primary key, a directory of files.
use faasta.Prelude.Tests.{Bool-cases, if◌then◌else◌}
use faasta.Prelude.Texts.{Text, text_eq, text_eq_iff}
use mathlib.Core.Path.{◌≡◌, refl}
use mathlib.Core.Logic.{inl, inr}
use mathlib.Core.Bool.{false}
use mathlib.Core.Option.{Option, none, some}
use mathlib.Core.List.{List, [], ◌∷◌}
use native.Mathlib.Omega.{arith}

abbrev pub Dict {ℓ} : Type ℓ → Type ℓ
Dict V = List (Text × V)

abbrev IsNone {ℓ} : {A : Type ℓ} → Option A → Type 0
IsNone none = Unit
IsNone (some _) = ⊥

module _ {ℓ} {V : Type ℓ} where
  unfoldable pub lookup : Text → Dict V → Option V
  lookup k [] = none
  lookup k ((j, v) ∷ d) = if text_eq j k then some v else lookup k d

  unfoldable pub insert : Text → V → Dict V → Dict V
  insert k v [] = (k, v) ∷ []
  insert k v ((j, w) ∷ d) = if text_eq j k then (k, v) ∷ d else (j, w) ∷ insert k v d

  unfoldable pub erase : Text → Dict V → Dict V
  erase k [] = []
  erase k ((j, w) ∷ d) = let rest = erase k d in if text_eq j k then rest else (j, w) ∷ rest

  pub lookup-insert :
      (j k : Text) (v : V) (d : Dict V)
      → lookup j (insert k v d) ≡ (if text_eq k j then some v else lookup j d)
  unfolding lookup insert
  lookup-insert j k v [] = refl
  lookup-insert j k v ((i, w) ∷ d) =
      ground (arith, text_eq_iff k j, text_eq_iff i k, text_eq_iff i j, lookup-insert j k v d)

  pub lookup-erase :
      (j k : Text) (d : Dict V) → lookup j (erase k d) ≡ (if text_eq k j then none else lookup j d)
  unfolding lookup erase
  lookup-erase j k [] = ground arith
  lookup-erase j k ((i, w) ∷ d) =
      ground (arith, lookup-erase j k d, text_eq_iff i k, text_eq_iff i j, text_eq_iff k j)

  -- One entry for a key.
  abbrev pub NodupKeys : Dict V → Type 0
  NodupKeys [] = Unit
  NodupKeys ((k, _) ∷ d) = IsNone (lookup k d) × NodupKeys d

  IsNone-insert :
      (j k : Text) (v : V) (d : Dict V)
      → IsNone (lookup j d)
      → text_eq k j ≡ false
      → IsNone (lookup j (insert k v d))
  IsNone-insert j k v d h e = rw (lookup-insert j k v d, e) h

  pub insert-NodupKeys : (k : Text) (v : V) (d : Dict V) → NodupKeys d → NodupKeys (insert k v d)
  unfolding insert
  insert-NodupKeys k v [] h = (unfold lookup in tt, tt)
  insert-NodupKeys k v ((j, w) ∷ d) (fresh, h) = elim (Bool-cases (text_eq j k)) [
    | inl e ↦ rw (e, ← (text_eq_iff j k).0 e) (fresh, h)
    | inr e ↦ rw e (
      IsNone-insert j k v d fresh (ground (arith, text_eq_iff j k, text_eq_iff k j)),
      insert-NodupKeys k v d h,
    )
  ]
