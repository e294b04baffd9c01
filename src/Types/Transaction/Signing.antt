-- ===== src/Types/Transaction/Signing.antt =====
-- What `signing_bytes` of crates/noirnet-types/src/transaction.rs covers.
use noirnet.Prelude.{
  ℕ, ◌^◌, ◌<◌, ◌≡◌, refl, ap, Option, [], ◌++◌, arith, unwrap_or, length, length-append, Bytes,
  to_le_bytes, length-to_le_bytes, to_le_bytes_injective,
}
use mathlib.Core.List.{append_assoc}
use noirnet.Prelude.{slice, slice-append, take-append_eq}
use noirnet.Types.Note.{EncryptedMemo}
use noirnet.Types.Transaction.{Transaction, signing_bytes, spend_bytes, output_bytes, call_bytes}

-- The ranges of the integer fields that are signed.
pub record InRange (tx : Transaction) : Type 0 where
  pub version_u8 : tx.version < 2 ^ 8
  pub chain_id_u32 : tx.chain_id < 2 ^ 32
  pub fee_u64 : tx.fee < 2 ^ 64
  pub timestamp_u64 : tx.timestamp < 2 ^ 64

-- The four integers stand in front at fixed places.
module _ (a b c d r : Bytes) (la : length a ≡ 1) (lb : length b ≡ 4) (lc : length c ≡ 8)
    (ld : length d ≡ 8) where
  field_slices :
      let bytes = a ++ (b ++ (c ++ (d ++ r))) in
      (slice 0 1 bytes ≡ a)
      × (slice 1 5 bytes ≡ b)
      × (slice 5 13 bytes ≡ c)
      × (slice 13 21 bytes ≡ d)
  field_slices = (
    take-append_eq 1 a (b ++ (c ++ (d ++ r))) la,
    slice-append 1 5 a b (c ++ (d ++ r)) la (omega arith),
    simp append_assoc at
        (slice-append 5 13 (a ++ b) c (d ++ r) (omega (arith, length-append a b)) (omega arith)),
    simp append_assoc at (
        slice-append 13 21 ((a ++ b) ++ c) d r
          (omega (arith, length-append (a ++ b) c, length-append a b)) (omega arith)),
  )

signed_tail : Transaction → Bytes
signed_tail tx =
    spend_bytes tx.spends
    ++ (output_bytes tx.outputs ++ (call_bytes tx.contract_call ++ unwrap_or tx.deploy_contract []))

signing_bytes-split :
    (tx : Transaction)
    → signing_bytes tx
      ≡ to_le_bytes 1 tx.version
        ++ (to_le_bytes 4 tx.chain_id
            ++ (to_le_bytes 8 tx.fee ++ (to_le_bytes 8 tx.timestamp ++ signed_tail tx)))
unfolding signing_bytes signed_tail
signing_bytes-split tx = simp append_assoc

signed_fields :
    (tx : Transaction)
    → (slice 0 1 (signing_bytes tx) ≡ to_le_bytes 1 tx.version)
      × (slice 1 5 (signing_bytes tx) ≡ to_le_bytes 4 tx.chain_id)
      × (slice 5 13 (signing_bytes tx) ≡ to_le_bytes 8 tx.fee)
      × (slice 13 21 (signing_bytes tx) ≡ to_le_bytes 8 tx.timestamp)
signed_fields tx = rw signing_bytes-split (
    field_slices (to_le_bytes 1 tx.version) (to_le_bytes 4 tx.chain_id) (to_le_bytes 8 tx.fee)
      (to_le_bytes 8 tx.timestamp) (signed_tail tx) (length-to_le_bytes 1 tx.version)
      (length-to_le_bytes 4 tx.chain_id) (length-to_le_bytes 8 tx.fee)
      (length-to_le_bytes 8 tx.timestamp))

-- Two transactions with integers in their ranges that have the same signing bytes have the same
-- version, chain, fee and time.
pub signing_bytes-fields :
    (tx ty : Transaction)
    → InRange tx
    → InRange ty
    → signing_bytes tx ≡ signing_bytes ty
    → (tx.version ≡ ty.version)
      × (tx.chain_id ≡ ty.chain_id)
      × (tx.fee ≡ ty.fee)
      × (tx.timestamp ≡ ty.timestamp)
signing_bytes-fields tx ty w v e =
    let f = signed_fields tx in
    let g = signed_fields ty in
    (
      to_le_bytes_injective 1 tx.version ty.version w.version_u8 v.version_u8
          (cc (f.0, g.0, ap (slice 0 1) e)),
      to_le_bytes_injective 4 tx.chain_id ty.chain_id w.chain_id_u32 v.chain_id_u32
          (cc (f.1, g.1, ap (slice 1 5) e)),
      to_le_bytes_injective 8 tx.fee ty.fee w.fee_u64 v.fee_u64 (cc (f.2, g.2, ap (slice 5 13) e)),
      to_le_bytes_injective 8 tx.timestamp ty.timestamp w.timestamp_u64 v.timestamp_u64
          (cc (f.3, g.3, ap (slice 13 21) e)),
    )

-- The gas limit, the memo, the proof, the anchors, the keys and the ciphertexts are not signed: a
-- transaction altered there has the same signing bytes, whatever else it holds.
pub signing_bytes_malleable :
    (tx : Transaction) (gas : ℕ) (memo : Option EncryptedMemo) (proof : Bytes)
    → signing_bytes (record tx { gas_limit = gas; memo = memo; aggregate_spend_proof = proof })
      ≡ signing_bytes tx
unfolding signing_bytes
signing_bytes_malleable tx gas memo proof = refl
