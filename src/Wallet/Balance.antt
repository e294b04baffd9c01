-- ===== src/Wallet/Balance.antt =====
-- What scanning a block does to the balance of the wallet of crates/noirnet-wallet/src/sync.rs.
use noirnet.Prelude.{
  ℕ, ◌^◌, Bool, true, Option, none, some, ◌+◌, ◌<◌, ◌≡◌, refl, inl, inr, not, ◌&&◌, List, [], ◌∷◌,
  ◌++◌, arith, if◌then◌else◌, Bool-cases, Option-cases, replicate, retain, u64_mod, add_u64, Bytes,
}
use noirnet.Prelude.Maps.{member}
use noirnet.Types.Note.{Hash32, Note}
use noirnet.Types.Block.{CompactBlock, CompactOutput}
use noirnet.Wallet.{
  WalletNote, WalletSync, Decrypt, new_notes, mark_spent, scan_block, sum_values, balance,
}

-- The value of the unspent notes, and of those among them that a block spends.
abbrev pub unspent_value : List WalletNote → ℕ
unspent_value [] = 0
unspent_value (n ∷ ns) = (if n.is_spent then 0 else n.note.value) + unspent_value ns

abbrev pub spent_value : List Hash32 → List WalletNote → ℕ
spent_value nullifiers [] = 0
spent_value nullifiers (n ∷ ns) =
    (if not n.is_spent && member n.nullifier nullifiers then n.note.value else 0)
    + spent_value nullifiers ns

sum_values-unspent :
    (total : ℕ) (ns : List WalletNote)
    → total + unspent_value ns < u64_mod
    → sum_values total (retain (λ n. not n.is_spent) ns) ≡ total + unspent_value ns
sum_values-unspent total [] h = omega arith
sum_values-unspent total (n ∷ ns) h = elim (Bool-cases n.is_spent) [
  | inl gone ↦ ground (arith, gone, sum_values-unspent total ns)
  | inr here ↦
      let sum : add_u64 total n.note.value ≡ total + n.note.value = ground (arith, here, h) in
      ground (arith, here, sum, sum_values-unspent (total + n.note.value) ns)
]

balance-unspent :
    (w : WalletSync) → unspent_value w.notes < u64_mod → balance w ≡ unspent_value w.notes
unfolding balance
balance-unspent w h = omega (arith, sum_values-unspent 0 w.notes (omega arith))

unspent-mark :
    (nullifiers : List Hash32) (ns : List WalletNote)
    → unspent_value (mark_spent nullifiers ns) + spent_value nullifiers ns ≡ unspent_value ns
unfolding mark_spent
unspent-mark nullifiers [] = omega arith
unspent-mark nullifiers (n ∷ ns) = ground (arith, unspent-mark nullifiers ns)

unspent-append :
    (ns ms : List WalletNote) → unspent_value (ns ++ ms) ≡ unspent_value ns + unspent_value ms
unspent-append [] ms = omega arith
unspent-append (n ∷ ns) ms = omega (arith, unspent-append ns ms)

spent-append :
    (nullifiers : List Hash32) (ns ms : List WalletNote)
    → spent_value nullifiers (ns ++ ms) ≡ spent_value nullifiers ns + spent_value nullifiers ms
spent-append nullifiers [] ms = omega arith
spent-append nullifiers (n ∷ ns) ms = omega (arith, spent-append nullifiers ns ms)

abbrev value_of : Option Note → ℕ
value_of none = 0
value_of (some note) = note.value

module _ (blake3 : Bytes → Bytes) (try_decrypt_output : Decrypt) where
  -- The value of those chosen outputs that the view key decrypts from their 52 bytes, filled up with zeros.
  abbrev pub received : (CompactOutput → Bool) → Bytes → List CompactOutput → ℕ
  received chosen ivk [] = 0
  received chosen ivk (output ∷ outputs) =
      (if chosen output
        then value_of (
            try_decrypt_output (output.enc_ciphertext_prefix ++ replicate 528 0)
              output.ephemeral_key output.note_commitment ivk)
        else 0)
      + received chosen ivk outputs

  -- A note found in an output counts as spent if the block holds the hash of its commitment.
  abbrev pub spent_at_once : List Hash32 → CompactOutput → Bool
  spent_at_once nullifiers output = member (blake3 output.note_commitment) nullifiers

  value-new_notes :
      (nullifiers : List Hash32) (ivk : Bytes) (outputs : List CompactOutput)
      → (unspent_value (new_notes blake3 try_decrypt_output ivk outputs)
          ≡ received (λ o. true) ivk outputs)
        × (spent_value nullifiers (new_notes blake3 try_decrypt_output ivk outputs)
            ≡ received (spent_at_once nullifiers) ivk outputs)
  unfolding new_notes
  value-new_notes nullifiers ivk [] = (refl, refl)
  value-new_notes nullifiers ivk (output ∷ outputs) =
      let (one, two) = value-new_notes nullifiers ivk outputs in
      elim (Option-cases (
        try_decrypt_output (output.enc_ciphertext_prefix ++ replicate 528 0) output.ephemeral_key
          output.note_commitment ivk)) [
            | inl other ↦ rw other (omega (arith, one), ground (arith, two))
            | inr (note, mine) ↦ rw mine (ground (arith, one), ground (arith, two))
          ]

  -- As long as the values of the unspent notes and of those in the block fit 64 bits: scanning a block raises the balance by the value of
  -- each output that the view key decrypts, and lowers it by that of the unspent notes whose nullifiers the block contains, those before
  -- and those just found, whose nullifier is taken to be the hash of their commitment.
  pub balance-scan_block :
      (block : CompactBlock) (w : WalletSync)
      → unspent_value w.notes + received (λ o. true) w.ivk block.compact_outputs < 2 ^ 64
      → balance (scan_block blake3 try_decrypt_output block w)
          + (spent_value block.nullifiers w.notes
              + received (spent_at_once block.nullifiers) w.ivk block.compact_outputs)
        ≡ balance w + received (λ o. true) w.ivk block.compact_outputs
  unfolding scan_block
  balance-scan_block block w fits =
      let found = new_notes blake3 try_decrypt_output w.ivk block.compact_outputs in
      let marked = unspent-mark block.nullifiers (w.notes ++ found) in
      let split = unspent-append w.notes found in
      let parts = spent-append block.nullifiers w.notes found in
      let (fresh, gone) = value-new_notes block.nullifiers w.ivk block.compact_outputs in
      omega (
        arith,
        fits,
        marked,
        split,
        parts,
        fresh,
        gone,
        balance-unspent w (omega (arith, fits)),
        balance-unspent (scan_block blake3 try_decrypt_output block w)
            (omega (arith, fits, marked, split, fresh)),
      )
