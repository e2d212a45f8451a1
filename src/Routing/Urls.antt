-- ===== src/Routing/Urls.antt =====
-- The two URLs of a function lead to its name (`resolve_function_name` of
-- server/src/wasi_server/mod.rs).
use faasta.Prelude.{
  ℕ, Text, true, false, Option, none, some, [], ◌∷◌, ◌++◌, ◌≡◌, ◌≢◌, refl, All, arith, ap,
  append-nil, append_assoc, ◌∙◌, before, split, ends_with, contains_char, trim_start_matches, ◌==◌,
}
use faasta.Prelude.Cuts.{
  contains_char-append, before-append, before_self, split-append, split_self, split_two,
  ends_with-append,
}
use faasta.Routing.{name_in_host, name_in_path, subdomain, resolve_function_name}
use faasta.Routing.Names.{IsNameChar, lacks-All}

-- Nothing, or text behind a separator.
abbrev pub IsTail : ℕ → Text → Type 0
IsTail c [] = Unit
IsTail c (d ∷ _) = d ≡ c

pub before-tail :
    (c : ℕ) (s t : Text) → contains_char c s ≡ false → IsTail c t → before c (s ++ t) ≡ s
before-tail c s [] h k = rw append-nil (before_self c s h)
before-tail c s (d ∷ t) h k = rw k (before-append c s t h)

name_in_host-tail :
    (hostname port base : Text)
    → contains_char b':' hostname ≡ false
    → IsTail b':' port
    → ends_with base hostname ≡ true
    → name_in_host (some (hostname ++ port)) base ≡ subdomain (split b'.' hostname)
unfolding name_in_host
name_in_host-tail hostname port base lacks tail ends =
    rw (before-tail b':' hostname port lacks tail, ends)

-- What the host gives decides; the path is asked where it gives nothing.
abbrev or_path : Option Text → Text → Option Text
or_path name path = elim name [ some found ↦ some found | none ↦ name_in_path path ]

resolve-host :
    (host : Option Text) (path base : Text) (name : Option Text)
    → name_in_host host base ≡ name
    → resolve_function_name host path base ≡ or_path name path
unfolding resolve_function_name
resolve-host host path base name e = ap (λ (o : Option Text). or_path o path) e

subdomain-split :
    (name rest : Text)
    → name ≢ []
    → contains_char b'.' name ≡ false
    → contains_char b'.' rest ≡ true
    → subdomain (split b'.' (name ++ b'.' ∷ rest)) ≡ some name
unfolding subdomain
subdomain-split [] rest h lacks dots = absurd (h refl)
subdomain-split (c ∷ name) rest h lacks dots =
    let (p, q, ps, e) = split_two b'.' rest dots in rw (split-append b'.' (c ∷ name) rest lacks, e)

dot_not-IsNameChar : ¬ IsNameChar b'.'
dot_not-IsNameChar h = ground arith

colon_not-IsNameChar : ¬ IsNameChar b':'
colon_not-IsNameChar h = ground arith

slash_not-IsNameChar : ¬ IsNameChar b'/'
slash_not-IsNameChar h = ground arith

hostname-colon :
    (name rest : Text)
    → All IsNameChar name
    → contains_char b':' rest ≡ false
    → contains_char b':' (name ++ b'.' ∷ rest) ≡ false
unfolding contains_char
hostname-colon name rest good colons =
    rw (contains_char-append b':' name (b'.' ∷ rest), lacks-All b':' name colon_not-IsNameChar good)
      colons

-- A host `name.domain` or `name.domain:port` leads to `name`, whatever the path, where the name is
-- not empty and passes the character check, and the domain ends with the base domain and holds a
-- dot and no colon. (The code asks for no dot in front of the base domain.)
pub resolve-subdomain :
    (name domain base port path : Text)
    → All IsNameChar name
    → name ≢ []
    → contains_char b'.' (domain ++ base) ≡ true
    → contains_char b':' (domain ++ base) ≡ false
    → IsTail b':' port
    → resolve_function_name (some ((name ++ b'.' ∷ (domain ++ base)) ++ port)) path base ≡ some name
resolve-subdomain name domain base port path good filled dots colons tail =
    let rest = domain ++ base in
    let ends : ends_with base (name ++ b'.' ∷ rest) ≡ true =
      rw (← append_assoc name (b'.' ∷ domain) base)
        (ends_with-append (name ++ b'.' ∷ domain) base) in
    resolve-host _ path base (some name) (
      name_in_host-tail (name ++ b'.' ∷ rest) port base (hostname-colon name rest good colons) tail
        ends
      ∙ subdomain-split name rest filled (lacks-All b'.' name dot_not-IsNameChar good) dots)

name_in_path-slash :
    (name rest : Text)
    → All IsNameChar name
    → name ≢ []
    → IsTail b'/' rest
    → name_in_path (b'/' ∷ (name ++ rest)) ≡ some name
unfolding name_in_path trim_start_matches
name_in_path-slash [] rest good filled slash = absurd (filled refl)
name_in_path-slash (c ∷ name) rest (p, good) filled slash =
    let first : (c == b'/') ≡ false = ground arith in
    rw (
      first,
      before-tail b'/' (c ∷ name) rest (lacks-All b'/' (c ∷ name) slash_not-IsNameChar (p, good))
          slash,
    )

-- On the base domain itself, with a port or without, the first part of the path is the name, with
-- a slash behind it or nothing, where the base domain has one dot and no colon and the name is not
-- empty and passes the character check.
pub resolve-path :
    (name left right port rest : Text)
    → All IsNameChar name
    → name ≢ []
    → contains_char b'.' left ≡ false
    → contains_char b'.' right ≡ false
    → contains_char b':' (left ++ b'.' ∷ right) ≡ false
    → IsTail b':' port
    → IsTail b'/' rest
    → resolve_function_name
        (some ((left ++ b'.' ∷ right) ++ port))
        (b'/' ∷ (name ++ rest))
        (left ++ b'.' ∷ right)
      ≡ some name
resolve-path name left right port rest good filled l r colons tail slash =
    let base = left ++ b'.' ∷ right in
    let two : subdomain (split b'.' base) ≡ none =
      unfold subdomain in rw (split-append b'.' left right l, split_self b'.' right r) in
    resolve-host (some (base ++ port)) (b'/' ∷ (name ++ rest)) base none
      (name_in_host-tail base port base colons tail (ends_with-append [] base) ∙ two)
    ∙ name_in_path-slash name rest good filled slash
