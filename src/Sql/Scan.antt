-- ===== src/Sql/Scan.antt =====
-- Where a character stands inside a string literal: after an odd number of quotes. An escaped
-- quote is two quotes, so it changes nothing.
use faasta.Prelude.{
  ℕ, ◌+◌, Text, Bool, true, false, not, ◌&&◌, [], ◌∷◌, ◌++◌, ◌≡◌, refl, append-nil, ap, inl, inr,
  Bool-cases, ==_iff, Result, ok, any, arith, ◌==◌, if◌then◌else◌, text, is_whitespace,
}
use faasta.Prelude.Decimal.{to_string}
use faasta.Sql.{quote, semicolon, qmark, is_text, multi_statement, validate_from, rewrite_from}

-- The flag after reading a text.
abbrev pub flag_after : Bool → Text → Bool
flag_after b [] = b
flag_after b (c ∷ s) = flag_after (if c == quote then not b else b) s

-- How often a character stands outside string literals.
abbrev pub unquoted : ℕ → Bool → Text → ℕ
unquoted x b [] = 0
unquoted x b (c ∷ s) =
    (if c == x && not b then 1 else 0) + unquoted x (if c == quote then not b else b) s

-- The two loops without the lookahead.
unfoldable pub check : Bool → Text → Result Text (Unit {0})
check b [] = ok tt
check b (c ∷ s) =
    let rest = check (if c == quote then not b else b) s in
    if c == semicolon && not b && any is_text s then multi_statement else rest

unfoldable pub number : Bool → ℕ → Text → Text
number b i [] = []
number b i (c ∷ s) =
    let marked = text "$" ++ (to_string i ++ number b (i + 1) s) in
    let plain = c ∷ number (if c == quote then not b else b) i s in
    if c == qmark && not b then marked else plain

-- No semicolon and no quote counts in a blank rest.
is_text-quote : is_text quote ≡ true
unfolding is_whitespace
is_text-quote = refl

is_text-semicolon : is_text semicolon ≡ true
unfolding is_whitespace
is_text-semicolon = refl

is_text-qmark : is_text qmark ≡ true
unfolding is_whitespace
is_text-qmark = refl

pub ne_of_blank : (c x : ℕ) → is_text x ≡ true → is_text c ≡ false → (c == x) ≡ false
ne_of_blank c x t h = elim (Bool-cases (c == x)) [
  | inl e ↦ cc (ap is_text ((==_iff c x).0 e))
  | inr e ↦ e
]

check-blank : (b : Bool) (s : Text) → any is_text s ≡ false → check b s ≡ ok tt
unfolding check
check-blank b [] h = refl
check-blank b (c ∷ s) h = ground (
  arith,
  check-blank b s,
  ne_of_blank c quote is_text-quote,
  ne_of_blank c semicolon is_text-semicolon,
)

pub validate_from-eq-check : (b : Bool) (s : Text) → validate_from b s ≡ check b s
unfolding validate_from check
validate_from-eq-check b [] = refl
validate_from-eq-check b (c ∷ []) = ground arith
validate_from-eq-check b (c ∷ next ∷ rest) = ground (
  arith,
  validate_from-eq-check b rest,
  validate_from-eq-check (not b) (next ∷ rest),
  validate_from-eq-check b (next ∷ rest),
  check-blank b (next ∷ rest),
)

pub rewrite_from-eq-number : (b : Bool) (i : ℕ) (s : Text) → rewrite_from b i s ≡ number b i s
unfolding rewrite_from number
rewrite_from-eq-number b i [] = refl
rewrite_from-eq-number b i (c ∷ []) = ground (arith, append-nil (to_string i))
rewrite_from-eq-number b i (c ∷ next ∷ rest) = ground (
  arith,
  rewrite_from-eq-number b i rest,
  rewrite_from-eq-number (not b) i (next ∷ rest),
  rewrite_from-eq-number b (i + 1) (next ∷ rest),
  rewrite_from-eq-number b i (next ∷ rest),
)
