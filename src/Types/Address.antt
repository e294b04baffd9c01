-- ===== src/Types/Address.antt =====
-- crates/noirnet-types/src/address.rs. `Base58` stands for the crate bs58; its strings are given by their bytes.
pub mod Distinctness
use noirnet.Prelude.{
  ℕ, ◌+◌, ◌-◌, ◌/◌, ◌≡◌, Option, some, ◌∷◌, ◌++◌, length, take, replicate, Bytes, to_le_bytes,
}
use noirnet.Prelude.{codes}

pub record PaymentAddress : Type 0 where
  pub diversifier : Bytes
  pub pk_d : Bytes

pub record FullViewingKey : Type 0 where
  pub ak : Bytes
  pub nk : Bytes
  pub ovk : Bytes

pub record IncomingViewKey : Type 0 where
  pub ivk : Bytes

pub record OutgoingViewKey : Type 0 where
  pub ovk : Bytes

pub record SpendingKey : Type 0 where
  pub sk : Bytes

pub record Base58 : Type 0 where
  pub encode : Bytes → Bytes
  pub decode : Bytes → Option Bytes
  pub decode-encode : (bytes : Bytes) → decode (encode bytes) ≡ some bytes

-- The lengths that the array types fix.
pub record IsAddress (a : PaymentAddress) : Type 0 where
  pub diversifier_length : length a.diversifier ≡ 11
  pub pk_d_length : length a.pk_d ≡ 32

module _ (blake3 : Bytes → Bytes) where
  unfoldable pub bs58_encode_check : Base58 → Bytes → Bytes
  bs58_encode_check bs58 bytes = bs58.encode (bytes ++ take 4 (blake3 bytes))

  unfoldable pub to_base58_string : Base58 → PaymentAddress → Bytes
  unfolding bs58_encode_check
  to_base58_string bs58 a = bs58_encode_check bs58 (33 ∷ 137 ∷ (a.diversifier ++ a.pk_d))

  unfoldable pub from_fvk : FullViewingKey → IncomingViewKey
  from_fvk fvk = record { ivk = blake3 (codes "NoirNet_ivk_v1" ++ (fvk.ak ++ fvk.nk)) }

  abbrev pub diversifier_at : ℕ → Bytes
  diversifier_at index = to_le_bytes 8 index ++ replicate 3 0

  unfoldable pub payment_address : ℕ → IncomingViewKey → PaymentAddress
  payment_address index key = record {
    diversifier = diversifier_at index;
    pk_d = blake3 (codes "NoirNet_pkd_v1" ++ (key.ivk ++ diversifier_at index));
  }

  unfoldable pub from_seed : Bytes → SpendingKey
  from_seed seed = record { sk = blake3 (codes "NoirNet_sk_v1" ++ seed) }

  unfoldable pub prf : Bytes → Bytes → Bytes
  prf sk tag = blake3 (codes "NoirNet_prf_v1" ++ (sk ++ tag))

  unfoldable pub to_fvk : SpendingKey → FullViewingKey
  unfolding prf
  to_fvk key = record {
    ak = prf key.sk (codes "ak");
    nk = prf key.sk (codes "nk");
    ovk = prf key.sk (codes "ovk");
  }
