-- ===== src/Crypto/Commitments.antt =====
-- crates/noirnet-crypto/src/commitment.rs and nullifier.rs.
pub mod Binding
pub mod Balance
use noirnet.Prelude.{
  ℕ, ◌+◌, ◌-◌, ◌/◌, Bool, List, [], ◌∷◌, ◌++◌, ◌==◌, sum, ◌>>=◌, ◌>>◌, add_u64, Bytes, bytes_eq,
  to_le_bytes,
}
use noirnet.Prelude.{codes}
use noirnet.Types.Note.{Hash32}

-- `iter().sum()` of a slice of `u64`.
unfoldable pub sum_u64 : ℕ → List ℕ → ℕ
sum_u64 acc [] = acc
sum_u64 acc (v ∷ vs) = sum_u64 (add_u64 acc v) vs

unfoldable pub check_value_balance : List Bytes → List Bytes → ℕ → List ℕ → List ℕ → Bool
unfolding sum_u64
check_value_balance spend_cvs output_cvs fee spend_values output_values =
    sum_u64 0 spend_values == add_u64 (sum_u64 0 output_values) fee

module _ (blake3 : Bytes → Bytes) where
  unfoldable pub value_commitment : ℕ → Bytes → Bytes
  value_commitment value rcv =
      blake3 (codes "NoirNet_ValueCommit_v1" ++ (to_le_bytes 8 value ++ rcv))

  unfoldable pub note_commitment : ℕ → Bytes → Bytes → Bytes → Bytes → Hash32
  note_commitment value pk_d rho rcm diversifier =
      blake3
        (codes "NoirNet_note_cm_v1" ++ to_le_bytes 8 value ++ pk_d ++ rho ++ rcm ++ diversifier)

  unfoldable pub rerandomize_commitment : Hash32 → Bytes → Hash32
  rerandomize_commitment cm alpha = blake3 (codes "NoirNet_rerandom_v1" ++ (cm ++ alpha))

  unfoldable pub compute_nullifier : Bytes → Bytes → Hash32 → Hash32
  compute_nullifier nk rho cm = blake3 (codes "NoirNet_Nullifier_v1" ++ (nk ++ (rho ++ cm)))

  unfoldable pub verify_nullifier : Bytes → Bytes → Hash32 → Hash32 → Bool
  unfolding compute_nullifier
  verify_nullifier nk rho cm claimed = bytes_eq (compute_nullifier nk rho cm) claimed
