-- ===== src/Zk.antt =====
-- crates/noirnet-zk/src/proof.rs over the crate nova-snark. A number of 64 bits stands for the scalar that it is turned into.
use noirnet.Prelude.{
  ℕ, Bool, not, ◌||◌, Option, some, List, ◌∷◌, ◌==◌, length, is_empty, Result, ok, err, ◌>>=◌, ◌>>◌,
  reject_if, is_ok, Bytes,
}
use noirnet.Prelude.{codes}

pub data ZkError : Type 0 where
  proving_failed verification_failed setup_failed : Bytes → ZkError

pub record SpendCircuit : Type 0 where
  pub note_value : Option ℕ
  pub secret_key : Option ℕ
  pub public_nullifier : Option ℕ

-- The recursive proofs: a new one for a circuit, one more step, and the check of a number of steps from the start
-- that `z0_primary` gives.
pub record Nova (PublicParams Snark : Type 0) : Type 0 where
  pub start : PublicParams → SpendCircuit → Result Snark Bytes
  pub prove_step : PublicParams → SpendCircuit → Snark → Result Snark Bytes
  pub verify : PublicParams → ℕ → Snark → Result (Unit {0}) Bytes
  pub serialize : Snark → Result Bytes Bytes
  pub deserialize : Bytes → Result Snark Bytes

abbrev pub as_proving_failed {ℓ} : {A : Type ℓ} → Result A Bytes → Result A ZkError
as_proving_failed (ok a) = ok a
as_proving_failed (err e) = err (proving_failed e)

abbrev pub as_verification_failed {ℓ} : {A : Type ℓ} → Result A Bytes → Result A ZkError
as_verification_failed (ok a) = ok a
as_verification_failed (err e) = err (verification_failed e)

abbrev pub circuit : ℕ → ℕ → ℕ → SpendCircuit
circuit value sk nullifier = record {
  note_value = some value;
  secret_key = some sk;
  public_nullifier = some nullifier;
}

module _ {PublicParams Snark : Type 0} (nova : Nova PublicParams Snark) (pp : PublicParams) where
  -- The loop over the spends after the first.
  unfoldable pub fold_spends : List ℕ → List ℕ → List ℕ → Snark → Result Snark ZkError
  fold_spends (v ∷ vs) (sk ∷ sks) (n ∷ ns) snark = do
    next ← as_proving_failed (nova.prove_step pp (circuit v sk n) snark)
    fold_spends vs sks ns next
  fold_spends _ _ _ snark = ok snark

  unfoldable pub prove_all : List ℕ → List ℕ → List ℕ → Result Bytes ZkError
  unfolding fold_spends
  prove_all (v ∷ vs) (sk ∷ sks) (n ∷ ns) = do
    snark ← as_proving_failed (nova.start pp (circuit v sk n))
    first ← as_proving_failed (nova.prove_step pp (circuit v sk n) snark)
    all ← fold_spends vs sks ns first
    as_proving_failed (nova.serialize all)
  prove_all _ _ _ = err (proving_failed (codes "Invalid input lengths"))

  unfoldable pub generate_multi_spend_proof : List ℕ → List ℕ → List ℕ → Result Bytes ZkError
  unfolding prove_all
  generate_multi_spend_proof values sks nullifiers = do
    reject_if
        (is_empty values
          || not (length values == length sks)
          || not (length values == length nullifiers))
        (proving_failed (codes "Invalid input lengths"))
    prove_all values sks nullifiers

  unfoldable pub verify_spend_proof : Bytes → ℕ → Result Bool ZkError
  verify_spend_proof proof_bytes num_steps = do
    snark ← as_verification_failed (nova.deserialize proof_bytes)
    ok (is_ok (nova.verify pp num_steps snark))
