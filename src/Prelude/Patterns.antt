-- ===== src/Prelude/Patterns.antt =====
-- String functions that look for a text in a text. Matches do not overlap and are taken from the left.
use Prim.Native.Nat.{ℕ, zero, suc, ◌-◌}
use mathlib.Core.Path.{◌≡◌, refl, ap, ◌∙◌}
use mathlib.Core.Bool.{Bool, true, false}
use mathlib.Core.Option.{none, some}
use mathlib.Core.List.{List, [], ◌∷◌, ◌++◌}
use native.Mathlib.Omega.{arith}
use faasta.Prelude.Lists.{length}
use faasta.Prelude.Texts.{Text, text, text_eq, strip_prefix, onto_first, contains_char}

-- `s.contains(p)`
unfoldable pub contains_text : Text → Text → Bool
contains_text p [] = text_eq p []
contains_text p (c ∷ s) =
    let later = contains_text p s in elim (strip_prefix p (c ∷ s)) [ some _ ↦ true | none ↦ later ]

-- `s.starts_with(p)`
unfoldable pub starts_with : Text → Text → Bool
starts_with p s = elim (strip_prefix p s) [ some _ ↦ true | none ↦ false ]

-- The number counts the characters of a match that are still to be passed over.
unfoldable pub split_from : Text → ℕ → Text → List Text
split_from p k [] = [] ∷ []
split_from p (suc k) (c ∷ s) = split_from p k s
split_from p zero (c ∷ s) =
    let matched = split_from p (length p - 1) s in
    let plain = split_from p zero s in
    elim (strip_prefix p (c ∷ s)) [ some _ ↦ [] ∷ matched | none ↦ onto_first c plain ]

-- `s.split(p)`, collected, for a text that is not empty
abbrev pub split_text : Text → Text → List Text
split_text p s = split_from p zero s

unfoldable pub replace_from : Text → Text → ℕ → Text → Text
replace_from p q k [] = []
replace_from p q (suc k) (c ∷ s) = replace_from p q k s
replace_from p q zero (c ∷ s) =
    let matched = replace_from p q (length p - 1) s in
    let plain = replace_from p q zero s in
    elim (strip_prefix p (c ∷ s)) [ some _ ↦ q ++ matched | none ↦ c ∷ plain ]

-- `s.replace(p, q)`, for a `p` that is not empty
abbrev pub replace_text : Text → Text → Text → Text
replace_text p q s = replace_from p q zero s

abbrev pub colon_slashes : Text
colon_slashes = text "://"

strip_colon_slashes :
    (c : ℕ) (s : Text) → contains_char b'/' s ≡ false → strip_prefix colon_slashes (c ∷ s) ≡ none
unfolding strip_prefix contains_char
strip_colon_slashes c [] h = ground arith
strip_colon_slashes c (d ∷ s) h = ground arith

lacks-tail : (c d : ℕ) (s : Text) → contains_char c (d ∷ s) ≡ false → contains_char c s ≡ false
unfolding contains_char
lacks-tail c d s h = ground arith

contains_text-cons :
    (p : Text) (c : ℕ) (s : Text)
    → strip_prefix p (c ∷ s) ≡ none
    → contains_text p (c ∷ s) ≡ contains_text p s
unfolding contains_text
contains_text-cons p c s h = rw (contains_text, h) refl

split_from-cons :
    (p : Text) (c : ℕ) (s : Text)
    → strip_prefix p (c ∷ s) ≡ none
    → split_from p zero (c ∷ s) ≡ onto_first c (split_from p zero s)
unfolding split_from
split_from-cons p c s h = rw (split_from, h) refl

-- A text without a slash has no `://`.
pub contains_colon_slashes :
    (s : Text) → contains_char b'/' s ≡ false → contains_text colon_slashes s ≡ false
unfolding contains_text text_eq
contains_colon_slashes [] h = refl
contains_colon_slashes (c ∷ s) h =
    let h' = lacks-tail b'/' c s h in
    contains_text-cons colon_slashes c s (strip_colon_slashes c s h') ∙ contains_colon_slashes s h'

pub split_colon_slashes :
    (s : Text) → contains_char b'/' s ≡ false → split_text colon_slashes s ≡ s ∷ []
unfolding split_from
split_colon_slashes [] h = refl
split_colon_slashes (c ∷ s) h =
    let h' = lacks-tail b'/' c s h in
    split_from-cons colon_slashes c s (strip_colon_slashes c s h')
    ∙ ap (onto_first c) (split_colon_slashes s h')
