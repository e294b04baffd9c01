-- ===== src/Crypto/Bls.antt =====
-- crates/noirnet-crypto/src/bls.rs over the crate blst. A key or a signature is what the crate reads from
-- its bytes; `none` is an error of the crate.
use noirnet.Prelude.{
  Bool, false, Option, none, some, List, if◌then◌else◌, is_empty, Result, ok, err, Bytes,
}
use noirnet.Prelude.{codes}

pub data BlsError : Type 0 where
  invalid_secret_key invalid_public_key invalid_signature aggregation_failed verification_failed :
      BlsError

pub record Blst (SecretKey PublicKey Signature : Type 0) : Type 0 where
  pub read_secret : Bytes → Option SecretKey
  pub read_public : Bytes → Option PublicKey
  pub read_signature : Bytes → Option Signature
  pub signature_bytes : Signature → Bytes
  pub sk_to_pk : SecretKey → PublicKey
  pub sign : SecretKey → Bytes → Bytes → Signature
  pub verify : Signature → Bytes → Bytes → PublicKey → Bool
  pub aggregate : List Signature → Option Signature
  pub fast_aggregate_verify : Signature → Bytes → Bytes → List PublicKey → Bool

abbrev pub dst : Bytes
dst = codes "BLS_SIG_BLS12381G2_XMD:SHA-256_SSWU_RO_NUL_"

abbrev pub or_error {ℓ} : {A : Type ℓ} → Option A → BlsError → Result A BlsError
or_error none e = err e
or_error (some a) e = ok a

module _ {SecretKey PublicKey Signature : Type 0} (blst : Blst SecretKey PublicKey Signature) where
  unfoldable pub secret_from_bytes : Bytes → Result SecretKey BlsError
  secret_from_bytes bytes = or_error (blst.read_secret bytes) invalid_secret_key

  unfoldable pub public_from_bytes : Bytes → Result PublicKey BlsError
  public_from_bytes bytes = or_error (blst.read_public bytes) invalid_public_key

  unfoldable pub signature_from_bytes : Bytes → Result Signature BlsError
  signature_from_bytes bytes = or_error (blst.read_signature bytes) invalid_signature

  unfoldable pub public_key : SecretKey → PublicKey
  public_key sk = blst.sk_to_pk sk

  unfoldable pub bls_sign : SecretKey → Bytes → Signature
  bls_sign sk msg = blst.sign sk msg dst

  unfoldable pub bls_verify : Signature → Bytes → PublicKey → Bool
  bls_verify sig msg key = blst.verify sig msg dst key

  unfoldable pub aggregate : List Signature → Result Signature BlsError
  aggregate sigs =
      if is_empty sigs
      then err aggregation_failed
      else or_error (blst.aggregate sigs) aggregation_failed

  unfoldable pub verify_batch : Signature → Bytes → List PublicKey → Bool
  verify_batch sig msg keys =
      if is_empty keys then false else blst.fast_aggregate_verify sig msg dst keys
