-- ===== src/Prelude/Int.antt =====
-- Signed 64-bit integers, as SQLite keeps them: `negsuc n` is -(n + 1).
use faasta.Prelude.Tests.{ltb, if◌then◌else◌}
use Prim.Native.Nat.{ℕ, ◌-◌, ◌^◌}
use mathlib.Core.Path.{◌≡◌}
use native.Mathlib.Omega.{arith}

pub data ℤ : Type 0 where
  pos : ℕ → ℤ
  negsuc : ℕ → ℤ

-- `n as i64` for a `u64`
unfoldable pub as_i64 : ℕ → ℤ
as_i64 n = if ltb n (2 ^ 63) then pos n else negsuc (2 ^ 64 - n - 1)

-- `i.max(0) as u64` for an `i64`
unfoldable pub max0_as_u64 : ℤ → ℕ
max0_as_u64 (pos n) = n
max0_as_u64 (negsuc n) = 0

-- What a `u64` reads as after it was stored: itself, or 0 from 2^63 on.
pub max0_as_u64-as_i64 : (n : ℕ) → max0_as_u64 (as_i64 n) ≡ (if ltb n (2 ^ 63) then n else 0)
unfolding max0_as_u64 as_i64
max0_as_u64-as_i64 n = ground arith
