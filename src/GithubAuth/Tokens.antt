-- ===== src/GithubAuth/Tokens.antt =====
-- Who a token belongs to: `authenticate_github` of server/src/github_auth.rs.
use faasta.Prelude.{
  ℕ, Text, text, true, false, ◌==◌, Option, none, some, [], ◌∷◌, ◌++◌, ◌≡◌, ◌⊎◌, inl, inr, ap, refl,
  ok, err, arith, Option-cases, text_eq_iff, trim, contains_char, split_once, strip_prefix,
  strip_prefix-append,
}
use faasta.GithubAuth.{
  Reply, unreachable, answered, token_parts, is_success, or_empty, authenticate_github,
  check_username, read_reply, strip_bearer,
}

-- The secret is what stands in the text, without the blanks at its ends: behind `Bearer ` where the text
-- begins so, and else the whole.
abbrev pub IsSecret : Text → Text → Type 0
IsSecret contents secret =
    ((rest : Text) × (contents ≡ text "Bearer " ++ rest) × (secret ≡ trim rest))
    ⊎ ((strip_prefix (text "Bearer ") contents ≡ none) × (secret ≡ trim contents))

-- A token with a colon is a user name, up to the first one, and a secret; a token without is a secret.
abbrev pub IsToken : Text → Option Text → Text → Type 0
IsToken token provided secret =
    ((p : Text) × (contents : Text) × (token ≡ p ++ b':' ∷ contents)
      × (contains_char b':' p ≡ false)
      × (provided ≡ some p)
      × IsSecret contents secret)
    ⊎ ((contains_char b':' token ≡ false) × (provided ≡ none) × IsSecret token secret)

-- What a token's acceptance as `username` means.
pub record Vouches (github : Text → Reply) (token username : Text) : Type 0 where
  pub given : Option Text
  pub secret : Text
  pub parts : IsToken token given secret
  pub agrees : (given ≡ none) ⊎ (given ≡ some username)
  pub status : ℕ
  pub login : Option Text
  pub reply : github secret ≡ answered status (ok login)
  pub success : is_success status ≡ true
  pub name : username ≡ or_empty login

split_once-cons :
    (c d e : ℕ) (s a b : Text)
    → split_once c (d ∷ s) ≡ some (e ∷ a, b)
    → (split_once c s ≡ some (a, b)) × ((d == c) ≡ false) × (d ≡ e)
unfolding split_once
split_once-cons c d e s a b h = elim (Option-cases (split_once c s)) [
  | inl gone ↦ ground (arith, gone)
  | inr ((a', b'), found) ↦ ground (arith, found)
]

split_once-some :
    (c : ℕ) (s a b : Text)
    → split_once c s ≡ some (a, b)
    → (s ≡ a ++ c ∷ b) × (contains_char c a ≡ false)
unfolding split_once contains_char
split_once-some c [] a b h = cc
split_once-some c (d ∷ s) [] b h = ground arith
split_once-some c (d ∷ s) (e ∷ a) b h =
    let (tail, plain, first) = split_once-cons c d e s a b h in
    let (joined, lacks) = split_once-some c s a b tail in
    (ground (arith, joined), ground (arith, lacks))

split_once-none : (c : ℕ) (s : Text) → split_once c s ≡ none → contains_char c s ≡ false
unfolding split_once contains_char
split_once-none c [] h = refl
split_once-none c (d ∷ s) h = ground (arith, split_once-none c s)

strip_prefix-some : (p s t : Text) → strip_prefix p s ≡ some t → s ≡ p ++ t
unfolding strip_prefix
strip_prefix-some [] s t h = cc
strip_prefix-some (c ∷ p) [] t h = cc
strip_prefix-some (c ∷ p) (d ∷ s) t h = ground (arith, strip_prefix-some p s t)

strip_bearer-IsSecret : (contents : Text) → IsSecret contents (trim (strip_bearer contents))
strip_bearer-IsSecret contents = elim (Option-cases (strip_prefix (text "Bearer ") contents)) [
  | inl bare ↦ rw (bare, strip_bearer) (inr (refl, refl))
  | inr (rest, there) ↦
      rw (there, strip_bearer)
        (inl (rest, strip_prefix-some (text "Bearer ") contents rest there, refl))
]

token_parts-IsToken : (token : Text) → IsToken token (token_parts token).0 (token_parts token).1
unfolding token_parts
token_parts-IsToken token = elim (Option-cases (split_once b':' token)) [
  | inl whole ↦
      rw (whole, token_parts)
        (inr (split_once-none b':' token whole, refl, strip_bearer-IsSecret token))
  | inr ((p, contents), split) ↦
      let (joined, lacks) = split_once-some b':' token p contents split in
      rw (split, token_parts)
        (inl (p, contents, joined, lacks, refl, strip_bearer-IsSecret contents))
]

read_reply_valid :
    (provided : Option Text) (reply : Reply) (username : Text)
    → read_reply provided reply ≡ (username, true)
    → (status : ℕ) × (login : Option Text) × (reply ≡ answered status (ok login))
      × (is_success status ≡ true)
      × (username ≡ or_empty login)
      × ((provided ≡ none) ⊎ (provided ≡ some username))
unfolding read_reply check_username
read_reply_valid provided (unreachable e) username h = cc
read_reply_valid provided (answered status (err e)) username h = cc
read_reply_valid none (answered status (ok login)) username h =
    (status, login, refl, ground arith, ground arith, inl refl)
read_reply_valid (some q) (answered status (ok login)) username h = (
  status,
  login,
  refl,
  ground arith,
  ground arith,
  inr (ap (λ x. some x) (ground (arith, text_eq_iff q (or_empty login)))),
)

-- A token is accepted for a user only if GitHub answered the request with the token's secret part by
-- a success status and that login, and a user name written in front of the token is that login: the name is what
-- stands before the first colon, where there is one, and the secret what is behind it, or the whole token,
-- without a `Bearer ` in front and without blanks at its ends.
pub authenticate_github_valid :
    (github : Text → Reply) (token username : Text)
    → authenticate_github github token ≡ ok (username, true)
    → Vouches github token username
unfolding authenticate_github
authenticate_github_valid github token username h =
    let (status, login, reply, success, name, agrees) =
      read_reply_valid (token_parts token).0 (github (token_parts token).1) username
        (ground arith) in
    record {
      given = (token_parts token).0;
      secret = (token_parts token).1;
      parts = token_parts-IsToken token;
      agrees = agrees;
      status = status;
      login = login;
      reply = reply;
      success = success;
      name = name;
    }

split_once-append :
    (c : ℕ) (s t : Text) → contains_char c s ≡ false → split_once c (s ++ c ∷ t) ≡ some (s, t)
unfolding split_once contains_char
split_once-append c [] t h = ground arith
split_once-append c (d ∷ s) t h = ground (arith, split_once-append c s t)

-- The token that the command line sends, `username:token`, is taken apart into the two, where the
-- user name has no colon and the token neither begins with "Bearer " nor has blanks at its ends.
pub token_parts-format :
    (username token : Text)
    → contains_char b':' username ≡ false
    → strip_prefix (text "Bearer ") token ≡ none
    → trim token ≡ token
    → token_parts (username ++ b':' ∷ token) ≡ (some username, token)
unfolding token_parts
token_parts-format username token lacks bare trimmed =
    let split = split_once-append b':' username token lacks in
    rw (split, token_parts) (rw (bare, strip_bearer) (rw trimmed))

-- And so with "Bearer " in front of the token, which is how a login through GitHub stores it.
pub token_parts-bearer :
    (username token : Text)
    → contains_char b':' username ≡ false
    → trim token ≡ token
    → token_parts (username ++ b':' ∷ (text "Bearer " ++ token)) ≡ (some username, token)
unfolding token_parts
token_parts-bearer username token lacks trimmed =
    let split = split_once-append b':' username (text "Bearer " ++ token) lacks in
    rw (split, token_parts)
      (rw (strip_prefix-append (text "Bearer ") token, strip_bearer) (rw trimmed))
