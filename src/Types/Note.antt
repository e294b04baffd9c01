-- ===== src/Types/Note.antt =====
-- crates/noirnet-types/src/note.rs and the hash type of hash.rs. A hash is its 32 bytes; `blake3`
-- is the hash function of the crate of that name, and a sequence of `update` calls before
-- `finalize` hashes the concatenation.
pub mod Plaintext
use noirnet.Prelude.{
  ℕ, ◌+◌, ◌-◌, ◌/◌, ◌^◌, ◌<◌, ◌≡◌, Option, none, some, ◌++◌, ltb, if◌then◌else◌, length, replicate,
  Bytes, to_le_bytes, from_le_bytes,
}
use noirnet.Prelude.{codes, slice}
use noirnet.Types.Constants.{max_memo_size}

abbrev pub Hash32 : Type 0
Hash32 = Bytes

abbrev pub zero_hash : Hash32
zero_hash = replicate 32 0

pub record Note : Type 0 where
  pub value : ℕ
  pub rcm : Bytes
  pub rho : Bytes
  pub pk_d : Bytes
  pub diversifier : Bytes

unfoldable pub commitment : (Bytes → Bytes) → Note → Hash32
commitment blake3 n = blake3 (
    codes "NoirNet_note_cm_v1"
    ++ to_le_bytes 8 n.value
    ++ n.rcm
    ++ n.rho
    ++ n.pk_d
    ++ n.diversifier)

unfoldable pub to_plaintext : Note → Bytes
to_plaintext n = n.diversifier ++ (to_le_bytes 8 n.value ++ (n.rcm ++ n.rho))

-- The slices have the lengths of the arrays, so their `try_into` never fails.
unfoldable pub from_plaintext : Bytes → Bytes → Option Note
from_plaintext bytes pk_d =
    if ltb (length bytes) 83
    then none
    else some (record {
      value = from_le_bytes (slice 11 19 bytes);
      rcm = slice 19 51 bytes;
      rho = slice 51 83 bytes;
      pk_d = pk_d;
      diversifier = slice 0 11 bytes;
    })

pub record OutputDescription : Type 0 where
  pub note_commitment : Hash32
  pub ephemeral_key : Bytes
  pub enc_ciphertext : Bytes
  pub out_ciphertext : Bytes
  pub cv : Bytes

pub record SpendDescription : Type 0 where
  pub anchor : Hash32
  pub nullifier : Hash32
  pub rk : Bytes
  pub cv : Bytes
  pub spend_auth_sig : Bytes

pub record EncryptedMemo : Type 0 where
  pub content : Bytes

unfoldable pub encrypted_memo : Bytes → Option EncryptedMemo
encrypted_memo bytes =
    if ltb max_memo_size (length bytes) then none else some (record { content = bytes })

-- The lengths that the array types of `Note` fix, and the range of its `u64`.
pub record IsNote (n : Note) : Type 0 where
  pub value_u64 : n.value < 2 ^ 64
  pub rcm_length : length n.rcm ≡ 32
  pub rho_length : length n.rho ≡ 32
  pub diversifier_length : length n.diversifier ≡ 11
