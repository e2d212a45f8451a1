-- ===== src/Sql/Identifiers.antt =====
-- Quoted identifiers: `quote_pg_ident` against the rule by which Postgres reads one.
use faasta.Prelude.{
  ℕ, Text, [], ◌∷◌, ◌++◌, ◌≡◌, ◌≢◌, refl, ap, sym, ◌∙◌, append-nil, Option, none, some, arith, ◌==◌,
  if◌then◌else◌, append_assoc, inl, inr, Bool-cases, ==_iff,
}
use faasta.Sql.{double_quote, double_quotes, quote_pg_ident}

-- The body of a quoted identifier: two double quotes stand for one, and one ends it.
read_body : Text → Option (Text × Text)
read_body [] = none
read_body (c ∷ []) = if c == double_quote then some ([], []) else none
read_body (c ∷ next ∷ rest) =
    let escaped = read_body rest in
    let plain = read_body (next ∷ rest) in
    if c == double_quote
    then (if next == double_quote
        then elim escaped [ none ↦ none | some (name, tail) ↦ some (c ∷ name, tail) ]
        else some ([], next ∷ rest))
    else elim plain [ none ↦ none | some (name, tail) ↦ some (c ∷ name, tail) ]

-- The identifier at the head of a text, and what follows it.
unfoldable pub read_ident : Text → Option (Text × Text)
unfolding read_body
read_ident [] = none
read_ident (c ∷ s) = if c == double_quote then read_body s else none

abbrev pub StartsQuoted : Text → Type 0
StartsQuoted [] = ⊥
StartsQuoted (c ∷ _) = c ≡ double_quote

read_body-end :
    (rest : Text) → ¬ StartsQuoted rest → read_body (double_quote ∷ rest) ≡ some ([], rest)
unfolding read_body
read_body-end [] h = refl
read_body-end (c ∷ rest) h = ground arith

read_body-plain :
    (c : ℕ) (s : Text) (name tail : Text)
    → c ≢ double_quote
    → read_body s ≡ some (name, tail)
    → read_body (c ∷ s) ≡ some (c ∷ name, tail)
unfolding read_body
read_body-plain c [] name tail h e = cc
read_body-plain c (d ∷ s) name tail h e = ground arith

read_body-pair :
    (s : Text) (name tail : Text)
    → read_body s ≡ some (name, tail)
    → read_body (double_quote ∷ double_quote ∷ s) ≡ some (double_quote ∷ name, tail)
unfolding read_body
read_body-pair s name tail e = ground arith

read_body-double_quotes :
    (s rest : Text)
    → ¬ StartsQuoted rest
    → read_body (double_quotes s ++ double_quote ∷ rest) ≡ some (s, rest)
unfolding double_quotes
read_body-double_quotes [] rest h = read_body-end rest h
read_body-double_quotes (c ∷ s) rest h = elim (Bool-cases (c == double_quote)) [
  | inl e ↦
      rw (e, (==_iff c double_quote).0 e)
        (read_body-pair _ s rest (read_body-double_quotes s rest h))
  | inr e ↦ rw e (
      read_body-plain c (double_quotes s ++ double_quote ∷ rest) s rest (ground arith)
        (read_body-double_quotes s rest h))
]

pub read_ident-quote_pg_ident :
    (name rest : Text)
    → ¬ StartsQuoted rest
    → read_ident (quote_pg_ident name ++ rest) ≡ some (name, rest)
unfolding read_ident quote_pg_ident
read_ident-quote_pg_ident name rest h =
    rw (append_assoc (double_quotes name) (double_quote ∷ []) rest)
      (read_body-double_quotes name rest h)

-- A quoted name that stands alone reads back as the name.
pub read_ident-quoted : (name : Text) → read_ident (quote_pg_ident name) ≡ some (name, [])
read_ident-quoted name =
    ap read_ident (sym (append-nil (quote_pg_ident name)))
    ∙ read_ident-quote_pg_ident name [] (λ h. h)
