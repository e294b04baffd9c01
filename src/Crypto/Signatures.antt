-- ===== src/Crypto/Signatures.antt =====
-- crates/noirnet-crypto/src/keys.rs and vrf.rs over Ed25519, and bls.rs over blst. A secret that the code draws is an
-- argument.
pub mod Completeness
use noirnet.Prelude.{
  ℕ, ◌+◌, ◌-◌, ◌/◌, ◌≡◌, Bool, true, false, not, Option, none, some, List, [], ◌∷◌, ◌++◌, ◌==◌,
  if◌then◌else◌, is_none, length, Bytes, bytes_eq, to_le_bytes,
}
use noirnet.Prelude.{codes}
use noirnet.Types.Address.{SpendingKey, from_seed}

-- The crate ed25519-dalek: a verifying key reads from the bytes it writes, signatures have 64 bytes, and
-- what a secret key signs verifies under its verifying key.
pub record Ed25519 (VerifyingKey : Type 0) : Type 0 where
  pub verifying_key : Bytes → VerifyingKey
  pub to_bytes : VerifyingKey → Bytes
  pub from_bytes : Bytes → Option VerifyingKey
  pub sign : Bytes → Bytes → Bytes
  pub verify : VerifyingKey → Bytes → Bytes → Bool
  pub from_bytes-to_bytes : (key : VerifyingKey) → from_bytes (to_bytes key) ≡ some key
  pub length-sign : (secret msg : Bytes) → length (sign secret msg) ≡ 64
  pub verify-sign :
      (secret msg : Bytes) → verify (verifying_key secret) msg (sign secret msg) ≡ true

-- `generate_spending_key`, from the entropy it draws.
unfoldable pub generate_spending_key : (Bytes → Bytes) → Bytes → SpendingKey
unfolding from_seed
generate_spending_key blake3 entropy = from_seed blake3 entropy

unfoldable pub concat : List Bytes → Bytes
concat [] = []
concat (b ∷ bs) = b ++ concat bs

unfoldable pub binding_message : (Bytes → Bytes) → List Bytes → List Bytes → Bytes → Bytes
unfolding concat
binding_message blake3 spend_cvs output_cvs tx_bytes =
    blake3 (codes "NoirNet_binding_sig_v1" ++ (concat spend_cvs ++ (concat output_cvs ++ tx_bytes)))

pub record VrfOutput : Type 0 where
  pub output : Bytes
  pub proof : Bytes

unfoldable pub vrf_message : Bytes → Bytes
vrf_message input = codes "NoirNet_VRF_v1" ++ input

unfoldable pub compute_epoch_beacon : (Bytes → Bytes) → Bytes → ℕ → Bytes
compute_epoch_beacon blake3 prev_beacon height =
    blake3 (codes "NoirNet_epoch_beacon_v1" ++ (prev_beacon ++ to_le_bytes 8 height))

module _ {VerifyingKey : Type 0} (blake3 : Bytes → Bytes) (ed25519 : Ed25519 VerifyingKey) where
  pub record Ed25519Keypair : Type 0 where
    pub signing_key : Bytes
    pub verifying_key : VerifyingKey

  unfoldable pub keypair_from_seed : Bytes → Ed25519Keypair
  keypair_from_seed seed = record { signing_key = seed; verifying_key = ed25519.verifying_key seed }

  unfoldable pub keypair_sign : Ed25519Keypair → Bytes → Bytes
  keypair_sign kp msg = ed25519.sign kp.signing_key msg

  unfoldable pub keypair_verify : Ed25519Keypair → Bytes → Bytes → Bool
  keypair_verify kp msg sig = ed25519.verify kp.verifying_key msg sig

  unfoldable pub public_key_bytes : Ed25519Keypair → Bytes
  public_key_bytes kp = ed25519.to_bytes kp.verifying_key

  unfoldable pub create_binding_sig : List Bytes → List Bytes → Bytes → Bytes → Bytes
  unfolding binding_message keypair_from_seed keypair_sign
  create_binding_sig spend_cvs output_cvs signing_key tx_bytes =
      keypair_sign (keypair_from_seed signing_key)
        (binding_message blake3 spend_cvs output_cvs tx_bytes)

  abbrev pub verified_by : Option VerifyingKey → Bytes → Bytes → Bool
  verified_by none msg sig = false
  verified_by (some key) msg sig = ed25519.verify key msg sig

  unfoldable pub verify_binding_sig : List Bytes → List Bytes → Bytes → Bytes → Bytes → Bool
  unfolding binding_message
  verify_binding_sig spend_cvs output_cvs sig verifying_key tx_bytes =
      verified_by (ed25519.from_bytes verifying_key)
        (binding_message blake3 spend_cvs output_cvs tx_bytes) sig

  unfoldable pub vrf_prove : Bytes → Bytes → VrfOutput
  unfolding vrf_message
  vrf_prove signing_key input =
      let sig = ed25519.sign signing_key (vrf_message input) in
      record { output = blake3 sig; proof = sig }

  unfoldable pub vrf_verify : Bytes → Bytes → VrfOutput → Bool
  unfolding vrf_message
  vrf_verify verifying_key input out =
      let key = ed25519.from_bytes verifying_key in
      if is_none key
      then false
      else if not (length out.proof == 64)
      then false
      else if not (verified_by key (vrf_message input) out.proof)
      then false
      else bytes_eq out.output (blake3 out.proof)
