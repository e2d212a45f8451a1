-- ===== src/Sql/Statements.antt =====
-- Which queries `validate_single_statement` of server/src/wasm_function.rs refuses.
use mathlib.Core.Logic.{◌↔◌}
use faasta.Prelude.{
  ℕ, ◌+◌, ◌%◌, Text, Bool, true, false, not, ◌&&◌, [], ◌∷◌, ◌++◌, ◌≡◌, refl, inl, inr, ap, ◌⊎◌, ok,
  any, arith, ◌==◌, if◌then◌else◌, Bool-cases,
}
use faasta.Sql.{quote, semicolon, is_text, multi_statement, validate_single_statement}
use faasta.Sql.Scan.{flag_after, check, validate_from-eq-check}

abbrev pub count_quotes : Text → ℕ
count_quotes [] = 0
count_quotes (c ∷ s) = (if c == quote then 1 else 0) + count_quotes s

-- A semicolon behind an even number of quotes with more than blanks behind it.
abbrev pub HasSecond : Text → Type 0
HasSecond q =
    (pre : Text) × (post : Text) × (q ≡ pre ++ semicolon ∷ post)
    × (count_quotes pre % 2 ≡ 0)
    × (any is_text post ≡ true)

-- The flag is the parity of the quotes.
flag_after_iff :
    (pre : Text)
    → ((flag_after false pre ≡ false) ↔ (count_quotes pre % 2 ≡ 0))
      × ((flag_after true pre ≡ false) ↔ (count_quotes pre % 2 ≡ 1))
flag_after_iff [] = ground arith
flag_after_iff (c ∷ s) = ground (arith, flag_after_iff s)

check-append :
    (b : Bool) (pre post : Text)
    → flag_after b pre ≡ false
    → any is_text post ≡ true
    → check b (pre ++ semicolon ∷ post) ≡ multi_statement
unfolding check
check-append b [] post f t = ground arith
check-append b (c ∷ pre) post f t =
    ground (arith, check-append (if c == quote then not b else b) pre post)

check-split :
    (b : Bool) (s : Text)
    → check b s ≡ multi_statement
    → (pre : Text) × (post : Text) × (s ≡ pre ++ semicolon ∷ post)
      × (flag_after b pre ≡ false)
      × (any is_text post ≡ true)
unfolding check
check-split b [] h = cc
check-split b (c ∷ s) h = elim (Bool-cases (c == semicolon && not b && any is_text s)) [
  | inl e ↦ ([], s, ground arith, ground arith, ground arith)
  | inr e ↦
      let (pre, post, eq, f, t) = check-split (if c == quote then not b else b) s (ground arith) in
      (c ∷ pre, post, ap (λ r. c ∷ r) eq, ground arith, t)
]

check-total : (b : Bool) (s : Text) → (check b s ≡ ok tt) ⊎ (check b s ≡ multi_statement)
unfolding check
check-total b [] = inl refl
check-total b (c ∷ s) = ground (arith, check-total (if c == quote then not b else b) s)

rejects_iff : (q : Text) → (validate_single_statement q ≡ multi_statement) ↔ HasSecond q
unfolding validate_single_statement
rejects_iff q = (
  λ h.
      let (pre, post, eq, f, t) = check-split false q (rw (← validate_from-eq-check false q) h) in
      (pre, post, eq, (flag_after_iff pre).0.0 f, t),
  λ (pre, post, eq, f, t).
      rw (validate_from-eq-check false q, eq)
        (check-append false pre post ((flag_after_iff pre).0.1 f) t),
)

-- A query is refused exactly when a semicolon behind an even number of quotes has more than blanks
-- behind it, and every other query is accepted.
pub validate_single_statement_iff :
    (q : Text)
    → ((validate_single_statement q ≡ multi_statement) ↔ HasSecond q)
      × ((validate_single_statement q ≡ ok tt) ↔ ¬ HasSecond q)
unfolding validate_single_statement
validate_single_statement_iff q = (
  rejects_iff q,
  (
    λ accepted second. cc (accepted, (rejects_iff q).1 second),
    λ single. elim (check-total false q) [
      | inl e ↦ rw (validate_from-eq-check false q) e
      | inr e ↦ absurd (single ((rejects_iff q).0 (rw (validate_from-eq-check false q) e)))
    ],
  ),
)
