-- ===== src/Prelude/Cuts.antt =====
-- Laws of `before`, `split`, `ends_with` and `trim_start_matches` at a concatenation.
use faasta.Prelude.Tests.{◌==◌, Bool-cases}
use faasta.Prelude.Texts.{
  Text, contains_char, before, split, ends_with, text_eq_self, trim_start_matches,
}
use faasta.Prelude.Lists.{length}
use Prim.Native.Nat.{ℕ}
use mathlib.Core.Path.{◌≡◌, refl}
use mathlib.Core.Logic.{inl, inr}
use mathlib.Core.Bool.{true, false, ◌||◌}
use mathlib.Core.List.{List, [], ◌∷◌, ◌++◌}
use native.Mathlib.Omega.{arith}

module _ (c : ℕ) where
  pub contains_char-append :
      (s t : Text) → contains_char c (s ++ t) ≡ (contains_char c s || contains_char c t)
  unfolding contains_char
  contains_char-append [] t = refl
  contains_char-append (d ∷ s) t = ground (arith, contains_char-append s t)

  pub before-append : (s t : Text) → contains_char c s ≡ false → before c (s ++ c ∷ t) ≡ s
  unfolding before contains_char
  before-append [] t h = ground arith
  before-append (d ∷ s) t h = ground (arith, before-append s t)

  pub before_self : (s : Text) → contains_char c s ≡ false → before c s ≡ s
  unfolding before contains_char
  before_self [] h = refl
  before_self (d ∷ s) h = ground (arith, before_self s)

  pub split-append : (s t : Text) → contains_char c s ≡ false → split c (s ++ c ∷ t) ≡ s ∷ split c t
  unfolding split contains_char
  split-append [] t h = ground arith
  split-append (d ∷ s) t h = ground (arith, split-append s t)

  pub split_self : (s : Text) → contains_char c s ≡ false → split c s ≡ s ∷ []
  unfolding split contains_char
  split_self [] h = refl
  split_self (d ∷ s) h = ground (arith, split_self s)

  split_head : (s : Text) → (p : Text) × (ps : List Text) × (split c s ≡ p ∷ ps)
  unfolding split
  split_head [] = ([], [], refl)
  split_head (d ∷ s) =
      let (p, ps, e) = split_head s in
      elim (Bool-cases (d == c)) [ inl h ↦ ([], split c s, rw h) | inr h ↦ (d ∷ p, ps, rw (h, e)) ]

  -- A text with the character has two parts or more.
  pub split_two :
      (s : Text)
      → contains_char c s ≡ true
      → (p : Text) × (q : Text) × (ps : List Text) × (split c s ≡ p ∷ q ∷ ps)
  unfolding contains_char split
  split_two [] h = cc
  split_two (d ∷ s) h = elim (Bool-cases (d == c)) [
    | inl e ↦ let (q, ps, eq) = split_head s in ([], q, ps, rw (e, eq))
    | inr e ↦ let (p, q, ps, eq) = split_two s (ground arith) in (d ∷ p, q, ps, rw (e, eq))
  ]

  pub trim_start_matches_self :
      (d : ℕ) (s : Text) → (d == c) ≡ false → trim_start_matches c (d ∷ s) ≡ d ∷ s
  unfolding trim_start_matches
  trim_start_matches_self d s h = rw h

ends_with_self : (p : Text) → ends_with p p ≡ true
unfolding ends_with
ends_with_self [] = text_eq_self []
ends_with_self (d ∷ p) = rw (text_eq_self (d ∷ p))

pub ends_with-append : (s p : Text) → ends_with p (s ++ p) ≡ true
unfolding ends_with
ends_with-append [] p = ends_with_self p
ends_with-append (d ∷ s) p = ground (arith, ends_with-append s p)

-- A text is cut in one way at the first occurrence of a character.
pub cut_injective :
    (c : ℕ) (a b s t : Text)
    → contains_char c a ≡ false
    → contains_char c b ≡ false
    → a ++ c ∷ s ≡ b ++ c ∷ t
    → (a ≡ b) × (s ≡ t)
unfolding contains_char
cut_injective c [] [] s t h k e = ground arith
cut_injective c [] (y ∷ b) s t h k e = ground arith
cut_injective c (x ∷ a) [] s t h k e = ground arith
cut_injective c (x ∷ a) (y ∷ b) s t h k e = ground (arith, cut_injective c a b s t)

-- Prefixes of one length are equal where the whole texts are.
pub prefix_injective : (a b s t : Text) → length a ≡ length b → a ++ s ≡ b ++ t → (a ≡ b) × (s ≡ t)
prefix_injective [] [] s t h e = ground arith
prefix_injective [] (y ∷ b) s t h e = absurd (omega arith)
prefix_injective (x ∷ a) [] s t h e = absurd (omega arith)
prefix_injective (x ∷ a) (y ∷ b) s t h e = ground (arith, prefix_injective a b s t)
