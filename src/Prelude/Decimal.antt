-- ===== src/Prelude/Decimal.antt =====
-- `to_string` of an unsigned integer, and `{:016x}` of a 64-bit word.
use faasta.Prelude.Tests.{ltb, if◌then◌else◌}
use faasta.Prelude.Lists.{All, length}
use faasta.Prelude.Texts.{Text}
use Prim.Native.Nat.{ℕ, zero, suc, ◌+◌, ◌-◌, ◌*◌, ◌/◌, ◌%◌, ◌^◌, ◌<◌, ◌≤◌}
use mathlib.Core.Path.{◌≡◌, ap, ◌∙◌}
use native.Mathlib.Nat.{pow-suc}
use mathlib.Core.List.{[], ◌∷◌}
use native.Mathlib.Omega.{arith}

-- The fuel is above the number, and a round divides the number by ten.
digits_from : ℕ → ℕ → Text → Text
digits_from zero n out = out
digits_from (suc fuel) n out =
    let rest = digits_from fuel (n / 10) ((b'0' + n % 10) ∷ out) in
    if ltb n 10 then (b'0' + n) ∷ out else rest

unfoldable pub to_string : ℕ → Text
unfolding digits_from
to_string n = digits_from (suc n) n []

abbrev pub IsDigit : ℕ → Type 0
IsDigit c = (b'0' ≤ c) × (c ≤ b'9')

digits_from-All : (fuel n : ℕ) (out : Text) → All IsDigit out → All IsDigit (digits_from fuel n out)
unfolding digits_from
digits_from-All zero n out h = h
digits_from-All (suc fuel) n out h =
    ground (arith, digits_from-All fuel (n / 10) ((b'0' + n % 10) ∷ out))

-- A printed number is made of decimal digits.
pub to_string-All : (n : ℕ) → All IsDigit (to_string n)
unfolding to_string
to_string-All n = digits_from-All (suc n) n [] tt

-- A hexadecimal digit, in lower case.
unfoldable pub hex_digit : ℕ → ℕ
hex_digit d = if ltb d 10 then b'0' + d else b'a' + (d - 10)

hex_from : ℕ → ℕ → Text → Text
hex_from zero n out = out
hex_from (suc width) n out = hex_from width (n / 16) (hex_digit (n % 16) ∷ out)

-- `format!("{n:016x}")` of a number below 2^64.
unfoldable pub hex16 : ℕ → Text
unfolding hex_from hex_digit
hex16 n = hex_from 16 n []

length-hex_from : (width n : ℕ) (out : Text) → length (hex_from width n out) ≡ width + length out
unfolding hex_from
length-hex_from zero n out = omega arith
length-hex_from (suc width) n out =
    omega (arith, length-hex_from width (n / 16) (hex_digit (n % 16) ∷ out))

-- A hexadecimal text has sixteen characters, for any number.
pub length-hex16 : (n : ℕ) → length (hex16 n) ≡ 16
unfolding hex16
length-hex16 n = length-hex_from 16 n []

hex_value : ℕ → ℕ
hex_value c = if ltb c b'a' then c - b'0' else c - b'a' + 10

read_hex : ℕ → Text → ℕ
read_hex acc [] = acc
read_hex acc (c ∷ s) = read_hex (acc * 16 + hex_value c) s

hex_value-hex_digit : (d : ℕ) → d < 16 → hex_value (hex_digit d) ≡ d
unfolding hex_value hex_digit
hex_value-hex_digit d h = ground arith

read_hex-hex_from :
    (width n acc : ℕ) (out : Text)
    → n < 16 ^ width
    → read_hex acc (hex_from width n out) ≡ read_hex (acc * 16 ^ width + n) out
unfolding hex_from read_hex
read_hex-hex_from zero n acc out h = ap (λ (a : ℕ). read_hex a out) (omega arith)
read_hex-hex_from (suc width) n acc out h =
    let p : 16 ^ suc width ≡ 16 ^ width * 16 = pow-suc 16 width in
    read_hex-hex_from width (n / 16) acc (hex_digit (n % 16) ∷ out) (omega (arith, p))
    ∙ ap (λ (a : ℕ). read_hex a out)
        (rw (hex_value-hex_digit (n % 16) (omega arith), p) (omega arith))

pub hex16-injective : (m n : ℕ) → m < 2 ^ 64 → n < 2 ^ 64 → hex16 m ≡ hex16 n → m ≡ n
unfolding hex16 read_hex
hex16-injective m n hm hn e =
    let a = read_hex-hex_from 16 m 0 [] hm in
    let b = read_hex-hex_from 16 n 0 [] hn in omega (arith, a, b, ap (read_hex 0) e)
