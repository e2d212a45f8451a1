-- ===== src/Routing/Names.antt =====
-- What the name functions of server/src/wasi_server/mod.rs let through.
use faasta.Prelude.{
  ℕ, ◌≤◌, Text, true, false, some, [], ◌∷◌, ◌≡◌, ◌↔◌, inl, inr, refl, all, All, arith,
  contains_char, is_ascii_alphanumeric, ◌==◌, Bool-cases, ◌⊎◌, subst, ==_iff,
}
use faasta.Routing.{is_name_char, sanitize_function_name}

-- A letter, a digit, a hyphen or an underscore, in ASCII.
abbrev pub IsNameChar : ℕ → Type 0
IsNameChar c =
    ((b'0' ≤ c) × (c ≤ b'9'))
    ⊎ ((b'A' ≤ c) × (c ≤ b'Z'))
    ⊎ ((b'a' ≤ c) × (c ≤ b'z'))
    ⊎ (c ≡ b'-')
    ⊎ (c ≡ b'_')

is_name_char_iff : (c : ℕ) → (is_name_char c ≡ true) ↔ IsNameChar c
unfolding is_ascii_alphanumeric
is_name_char_iff c = ground arith

all-is_name_char : (s : Text) → (all is_name_char s ≡ true) ↔ All IsNameChar s
all-is_name_char [] = ground arith
all-is_name_char (c ∷ s) = ground (arith, is_name_char_iff c, all-is_name_char s)

-- A name passes exactly when all its characters are ASCII letters, digits, hyphens or underscores,
-- and then it passes unchanged; every other name is refused.
pub sanitize_function_name_iff :
    (name result : Text)
    → (sanitize_function_name name ≡ some result) ↔ (All IsNameChar name × (result ≡ name))
unfolding sanitize_function_name
sanitize_function_name_iff name result = ground (arith, all-is_name_char name)

pub lacks-All : (x : ℕ) (s : Text) → ¬ IsNameChar x → All IsNameChar s → contains_char x s ≡ false
unfolding contains_char
lacks-All x [] h k = refl
lacks-All x (c ∷ s) h (p, k) = elim (Bool-cases (c == x)) [
  | inl e ↦ absurd (h (subst IsNameChar ((==_iff c x).0 e) p))
  | inr e ↦ rw e (lacks-All x s h k)
]

-- A name that passes holds no character that separates paths, labels or tenant names.
pub sanitize-lacks :
    (x : ℕ) (name result : Text)
    → ¬ IsNameChar x
    → sanitize_function_name name ≡ some result
    → contains_char x result ≡ false
sanitize-lacks x name result h e =
    let (good, same) = (sanitize_function_name_iff name result).0 e in
    rw same (lacks-All x name h good)
