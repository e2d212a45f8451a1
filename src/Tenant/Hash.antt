-- ===== src/Tenant/Hash.antt =====
-- The tenant hash as a text.
use faasta.Prelude.{ℕ, ◌^◌, ◌<◌, Text, List, [], ◌∷◌, arith}
use faasta.Tenant.{tenant_word, fnv_from, fnv_round, fnv_offset_basis}

fnv_from-lt : (bytes : List ℕ) (hash : ℕ) → hash < 2 ^ 64 → fnv_from hash bytes < 2 ^ 64
unfolding fnv_from fnv_round
fnv_from-lt [] hash h = h
fnv_from-lt (byte ∷ bytes) hash h = fnv_from-lt bytes (fnv_round hash byte) (omega arith)

-- The hash stays a 64-bit word.
pub tenant_word-lt : (name : Text) → tenant_word name < 2 ^ 64
unfolding tenant_word
tenant_word-lt name = fnv_from-lt _ fnv_offset_basis (omega arith)
