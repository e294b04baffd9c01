-- ===== src/Prelude/Collisions.antt =====
-- Two strings with one hash, to which theorems about keys and commitments are reduced.
use mathlib.Core.Path.{◌≡◌}
use mathlib.Core.Logic.{◌≢◌, ◌⊎◌, inl, inr}
use native.Mathlib.Omega.{arith}
use noirnet.Prelude.Tests.{Bool-cases}
use noirnet.Prelude.ByteStrings.{Bytes, bytes_eq, bytes_eq_iff, bytes_eq→eq}

abbrev pub Collision : (Bytes → Bytes) → Type 0
Collision blake3 = (x : Bytes) × (y : Bytes) × (x ≢ y) × (blake3 x ≡ blake3 y)

-- Strings with the same hash are the same, or a collision.
pub hash-cases :
    (blake3 : Bytes → Bytes) (x y : Bytes) → blake3 x ≡ blake3 y → (x ≡ y) ⊎ Collision blake3
hash-cases blake3 x y e = elim (Bool-cases (bytes_eq x y)) [
  | inl same ↦ inl (bytes_eq→eq x y same)
  | inr apart ↦ inr (x, y, (λ h. ground (arith, bytes_eq_iff x y)), e)
]
