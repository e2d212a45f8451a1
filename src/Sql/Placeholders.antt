-- ===== src/Sql/Placeholders.antt =====
-- What `rewrite_qmark_params` of server/src/wasm_function.rs does to a query.
use native.Mathlib.Nat.{zero-add}
use faasta.Prelude.{
  ℕ, ◌+◌, Text, text, Bool, false, not, ◌&&◌, [], ◌∷◌, ◌++◌, ◌≡◌, ◌≢◌, refl, ap, any, arith, ◌==◌,
  if◌then◌else◌, append_assoc, is_whitespace, All, ◌∙◌, inl, inr, Bool-cases,
}
use faasta.Prelude.Decimal.{to_string, to_string-All, IsDigit}
use faasta.Sql.{
  quote, semicolon, qmark, is_text, validate_single_statement, rewrite_qmark_params, rewrite_from,
}
use faasta.Sql.Scan.{
  flag_after, unquoted, check, number, validate_from-eq-check, rewrite_from-eq-number,
}

-- The loop goes on behind any part of the query with the flag and the counter that the part leaves.
number-append :
    (b : Bool) (i : ℕ) (s t : Text)
    → number b i (s ++ t) ≡ number b i s ++ number (flag_after b s) (i + unquoted qmark b s) t
unfolding number
number-append b i [] t = ap (λ j. number b j t) (omega arith)
number-append b i (c ∷ s) t = elim (Bool-cases (c == qmark && not b)) [
  | inl e ↦
      let q : (c == quote) ≡ false = ground arith in
      rw (e, q)
        (rw
          (
            number-append b (i + 1) s t,
            append_assoc (to_string i) (number b (i + 1) s)
                (number (flag_after b s) (i + (1 + unquoted qmark b s)) t),
          )
          (ap
            (λ (j : ℕ).
              text "$" ++ (to_string i ++ (number b (i + 1) s ++ number (flag_after b s) j t)))
            (omega arith)))
  | inr e ↦
      rw (e, zero-add)
        (ap (λ (r : Text). c ∷ r) (number-append (if c == quote then not b else b) i s t))
]

-- The digits and the dollar sign that stand for a question mark.
abbrev pub placeholder : ℕ → Text
placeholder n = text "$" ++ to_string n

-- A question mark outside a string becomes `$n`, where `n - 1` question marks outside strings stand
-- before it; what comes before it is rewritten by itself, and what follows is numbered on from
-- `n + 1`.
pub rewrite_qmark_params-qmark :
    (pre post : Text)
    → flag_after false pre ≡ false
    → rewrite_qmark_params (pre ++ qmark ∷ post)
      ≡ rewrite_qmark_params pre
        ++ (placeholder (unquoted qmark false pre + 1)
            ++ rewrite_from false (unquoted qmark false pre + 2) post)
unfolding rewrite_qmark_params number
rewrite_qmark_params-qmark pre post f =
    let n = unquoted qmark false pre in
    let here : 1 + n ≡ n + 1 = omega arith in
    let there : n + 1 + 1 ≡ n + 2 = omega arith in
    rw
      (
        rewrite_from-eq-number false 1 (pre ++ qmark ∷ post),
        rewrite_from-eq-number false 1 pre,
        rewrite_from-eq-number false (unquoted qmark false pre + 2) post,
        number-append false 1 pre (qmark ∷ post),
        f,
      )
      (rw (here, there))

abbrev IsPlain : ℕ → Type 0
IsPlain c = (c ≢ quote) × (c ≢ semicolon)

check-plain : (b : Bool) (p s : Text) → All IsPlain p → check b (p ++ s) ≡ check b s
unfolding check
check-plain b [] s h = refl
check-plain b (c ∷ p) s (h, hs) = ground (arith, check-plain b p s hs)

All-IsPlain : (s : Text) → All IsDigit s → All IsPlain s
All-IsPlain [] h = tt
All-IsPlain (c ∷ s) ((low, high), h) = ((omega arith, omega arith), All-IsPlain s h)

any-number : (b : Bool) (i : ℕ) (s : Text) → any is_text (number b i s) ≡ any is_text s
unfolding number
any-number b i [] = refl
any-number b i (c ∷ s) = elim (Bool-cases (c == qmark && not b)) [
  | inl e ↦ let q : c ≡ qmark = ground arith in rw (e, q) (unfold is_whitespace in refl)
  | inr e ↦ rw (e, any-number (if c == quote then not b else b) i s)
]

check-number : (b : Bool) (i : ℕ) (s : Text) → check b (number b i s) ≡ check b s
unfolding check number
check-number b i [] = refl
check-number b i (c ∷ s) = elim (Bool-cases (c == qmark && not b)) [
  | inl e ↦
      let p : c ≡ qmark = ground arith in
      let plain = All-IsPlain (to_string i) (to_string-All i) in
      rw (e, p) (check-plain b (to_string i) (number b (i + 1) s) plain ∙ check-number b (i + 1) s)
  | inr e ↦ rw (
    e,
    check-number (if c == quote then not b else b) i s,
    any-number (if c == quote then not b else b) i s,
  )
]

-- The query that Postgres is sent passes the check for a single statement exactly when the query
-- that the guest wrote does.
pub validate-rewrite :
    (q : Text) → validate_single_statement (rewrite_qmark_params q) ≡ validate_single_statement q
unfolding validate_single_statement rewrite_qmark_params
validate-rewrite q =
    rw
      (
        validate_from-eq-check false (rewrite_from false 1 q),
        validate_from-eq-check false q,
        rewrite_from-eq-number false 1 q,
      )
      (check-number false 1 q)
