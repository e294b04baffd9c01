-- ===== src/Wallet.antt =====
-- crates/noirnet-wallet/src/sync.rs. `try_decrypt_output` of crates/noirnet-crypto is a parameter; its
-- ciphertext is the prefix that a compact block carries, filled up with zeros.
pub mod Balance
pub mod Builder
pub mod Keys
use noirnet.Prelude.{
  ℕ, ◌+◌, ◌-◌, ◌/◌, Bool, true, false, not, Option, none, some, List, [], ◌∷◌, ◌++◌, if◌then◌else◌,
  replicate, retain, sum, add_u64, Bytes,
}
use noirnet.Prelude.Maps.{member}
use noirnet.Types.Note.{Hash32, Note}
use noirnet.Types.Block.{CompactBlock, CompactOutput}

pub record WalletNote : Type 0 where
  pub note : Note
  pub commitment : Hash32
  pub leaf_index : ℕ
  pub nullifier : Hash32
  pub is_spent : Bool

-- `ivk` is the incoming view key.
pub record WalletSync : Type 0 where
  pub ivk : Bytes
  pub notes : List WalletNote
  pub last_scanned_height : ℕ

unfoldable pub new : Bytes → WalletSync
new ivk = record { ivk = ivk; notes = []; last_scanned_height = 0 }

-- Ciphertext, ephemeral key, note commitment, view key.
abbrev pub Decrypt : Type 0
Decrypt = Bytes → Bytes → Hash32 → Bytes → Option Note

abbrev pub fake_full_cipher : Bytes → Bytes
fake_full_cipher prefix = prefix ++ replicate 528 0

abbrev pub found_note : (Bytes → Bytes) → CompactOutput → Option Note → List WalletNote
found_note blake3 output none = []
found_note blake3 output (some note) =
    record {
      note = note;
      commitment = output.note_commitment;
      leaf_index = output.leaf_index;
      nullifier = blake3 output.note_commitment;
      is_spent = false;
    }
    ∷ []

unfoldable pub new_notes : (Bytes → Bytes) → Decrypt → Bytes → List CompactOutput → List WalletNote
new_notes blake3 try_decrypt_output ivk [] = []
new_notes blake3 try_decrypt_output ivk (output ∷ outputs) =
    found_note blake3 output (
      try_decrypt_output (fake_full_cipher output.enc_ciphertext_prefix) output.ephemeral_key
        output.note_commitment ivk)
    ++ new_notes blake3 try_decrypt_output ivk outputs

abbrev pub mark : List Hash32 → WalletNote → WalletNote
mark nullifiers n = if member n.nullifier nullifiers then record n { is_spent = true } else n

unfoldable pub mark_spent : List Hash32 → List WalletNote → List WalletNote
mark_spent nullifiers [] = []
mark_spent nullifiers (n ∷ ns) = mark nullifiers n ∷ mark_spent nullifiers ns

unfoldable pub scan_block : (Bytes → Bytes) → Decrypt → CompactBlock → WalletSync → WalletSync
unfolding new_notes mark_spent
scan_block blake3 try_decrypt_output block w = record w {
  notes =
      mark_spent block.nullifiers
        (w.notes ++ new_notes blake3 try_decrypt_output w.ivk block.compact_outputs);
  last_scanned_height = block.height;
}

-- The sum wraps.
abbrev pub sum_values : ℕ → List WalletNote → ℕ
sum_values total [] = total
sum_values total (n ∷ ns) = sum_values (add_u64 total n.note.value) ns

unfoldable pub balance : WalletSync → ℕ
balance w = sum_values 0 (retain (λ n. not n.is_spent) w.notes)
