-- ===== src/Codec.antt =====
-- Binary encodings (bincode's `encode_to_vec` and `decode_from_slice`), as the program uses them.
use faasta.Prelude.{Text, Result, ok, ◌≡◌}
use faasta.Db.{Bytes}

pub record Codec {ℓ} (A : Type ℓ) : Type ℓ where
  pub encode : A → Result Text Bytes
  pub decode : Bytes → Result Text A

-- What is encoded decodes to itself.
pub record IsLawful {ℓ} {A : Type ℓ} (c : Codec A) : Type ℓ where
  pub decode-encode : (a : A) (bytes : Bytes) → c.encode a ≡ ok bytes → c.decode bytes ≡ ok a
