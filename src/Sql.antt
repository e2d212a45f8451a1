-- ===== src/Sql.antt =====
-- SQL for Postgres: here the texts, of the helpers at the end of server/src/wasm_function.rs.
pub mod Scan
pub mod Statements
pub mod Identifiers
pub mod Placeholders
pub mod Values
pub mod Postgres
pub mod Transactions
pub mod Stored
use faasta.Prelude.{
  ℕ, ◌+◌, Text, text, Bool, true, false, not, ◌&&◌, List, [], ◌∷◌, ◌++◌, ◌≡◌, refl, Result, ok, err,
  any, is_whitespace, ◌==◌, if◌then◌else◌,
}
use faasta.Prelude.Decimal.{to_string}

abbrev pub quote : ℕ
quote = b'\''

abbrev pub semicolon : ℕ
semicolon = b';'

abbrev pub qmark : ℕ
qmark = b'?'

abbrev pub is_text : ℕ → Bool
is_text c = not (is_whitespace c)

abbrev pub multi_statement : Result Text (Unit {0})
multi_statement = err (text "multi-statement SQL is not allowed")

-- The loop of `validate_single_statement`; `next` is what `chars.peek()` sees. At a semicolon
-- outside a string `any` has read the rest, so the loop ends either way. A last character finds
-- nothing behind it.
pub validate_from : Bool → Text → Result Text (Unit {0})
validate_from in_string [] = ok tt
validate_from in_string (ch ∷ []) = ok tt
validate_from in_string (ch ∷ next ∷ rest) =
    let escaped = validate_from in_string rest in
    let toggled = validate_from (not in_string) (next ∷ rest) in
    let other = validate_from in_string (next ∷ rest) in
    if ch == quote
    then (if in_string && next == quote then escaped else toggled)
    else if ch == semicolon && not in_string
    then (if any is_text (next ∷ rest) then multi_statement else ok tt)
    else other

unfoldable pub validate_single_statement : Text → Result Text (Unit {0})
unfolding validate_from is_whitespace
validate_single_statement query = validate_from false query

-- The loop of `rewrite_qmark_params`; the result is what the loop still pushes.
pub rewrite_from : Bool → ℕ → Text → Text
rewrite_from in_string index [] = []
rewrite_from in_string index (ch ∷ []) =
    if ch == qmark && not in_string then text "$" ++ to_string index else ch ∷ []
rewrite_from in_string index (ch ∷ next ∷ rest) =
    let escaped = rewrite_from in_string index rest in
    let toggled = rewrite_from (not in_string) index (next ∷ rest) in
    let numbered = rewrite_from in_string (index + 1) (next ∷ rest) in
    let other = rewrite_from in_string index (next ∷ rest) in
    if ch == quote
    then (if in_string && next == quote then ch ∷ next ∷ escaped else ch ∷ toggled)
    else if ch == qmark && not in_string
    then text "$" ++ (to_string index ++ numbered)
    else ch ∷ other

unfoldable pub rewrite_qmark_params : Text → Text
unfolding rewrite_from
rewrite_qmark_params query = rewrite_from false 1 query

abbrev pub double_quote : ℕ
double_quote = b'"'

-- `identifier.replace('"', "\"\"")`
double_quotes : Text → Text
double_quotes [] = []
double_quotes (c ∷ s) = if c == double_quote then c ∷ c ∷ double_quotes s else c ∷ double_quotes s

unfoldable pub quote_pg_ident : Text → Text
unfolding double_quotes
quote_pg_ident identifier = (double_quote ∷ double_quotes identifier) ++ double_quote ∷ []

escaped_quote : rewrite_qmark_params (text "a '?''?' = ? and ?") ≡ text "a '?''?' = $1 and $2"
unfolding rewrite_qmark_params to_string
escaped_quote = refl
