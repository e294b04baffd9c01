-- ===== src/Wallet/Builder.antt =====
-- crates/noirnet-wallet/src/builder.rs. What the code draws at random, the clock and the crates below are arguments; `none` is
-- the panic of `expect` or `unwrap`. The change, which is computed and not used, is left out.
pub mod Transfers
use noirnet.Prelude.{
  ℕ, ◌-◌, ◌/◌, not, Option, none, some, List, [], ◌∷◌, replicate, Result, ok, err, ◌>>=◌, ◌>>◌,
  Bytes,
}
use noirnet.Prelude.{codes}
use noirnet.Types.Note.{Hash32, Note, zero_hash, SpendDescription, OutputDescription, commitment}
use noirnet.Types.Transaction.{Transaction, ContractCall, now_obfuscated, signing_bytes}
use noirnet.Types.Address.{PaymentAddress, SpendingKey, to_fvk}
use noirnet.Crypto.Cipher.{Aead, bind_option}
use noirnet.Crypto.Stealth.{X25519, EncryptedOutput, encrypt_note}
use noirnet.Crypto.Commitments.{value_commitment}
use noirnet.Crypto.Signatures.{Ed25519, create_binding_sig, keypair_from_seed, public_key_bytes}
use noirnet.Zk.{Nova, ZkError, generate_multi_spend_proof}

pub record Draws : Type 0 where
  pub out_rcm : Bytes
  pub out_rho : Bytes
  pub esk : Bytes
  pub out_rcv : Bytes
  pub spend_rcv : Bytes
  pub spend_seed : Bytes

-- `unwrap`
abbrev pub proof_of : Result Bytes ZkError → Option Bytes
proof_of (ok proof) = some proof
proof_of (err e) = none

abbrev pub spend_cvs_of : List SpendDescription → List Bytes
spend_cvs_of [] = []
spend_cvs_of (s ∷ ss) = s.cv ∷ spend_cvs_of ss

abbrev pub output_cvs_of : List OutputDescription → List Bytes
output_cvs_of [] = []
output_cvs_of (o ∷ os) = o.cv ∷ output_cvs_of os

module _ {VerifyingKey PublicParams Snark : Type 0} (blake3 : Bytes → Bytes) (aead : Aead)
    (curve : X25519) (ed25519 : Ed25519 VerifyingKey) (nova : Nova PublicParams Snark)
    (pp : PublicParams) where
  -- The proof that all three builders make.
  unfoldable pub dummy_proof : ℕ → Option Bytes
  unfolding generate_multi_spend_proof
  dummy_proof mock_input_value =
      proof_of (generate_multi_spend_proof nova pp (mock_input_value ∷ []) (1 ∷ []) (2 ∷ []))

  unfoldable pub dummy_spend : Bytes → ℕ → Draws → SpendDescription
  unfolding value_commitment keypair_from_seed public_key_bytes
  dummy_spend label mock_input_value draws = record {
    anchor = zero_hash;
    nullifier = blake3 label;
    rk = public_key_bytes blake3 ed25519 (keypair_from_seed blake3 ed25519 draws.spend_seed);
    cv = value_commitment blake3 mock_input_value draws.spend_rcv;
    spend_auth_sig = replicate 64 0;
  }

  -- The binding signature, over the commitments of the transaction.
  unfoldable pub with_binding_sig : SpendingKey → Transaction → Transaction
  unfolding create_binding_sig signing_bytes
  with_binding_sig sk tx = record tx {
    binding_sig =
        create_binding_sig blake3 ed25519 (spend_cvs_of tx.spends) (output_cvs_of tx.outputs) sk.sk
          (signing_bytes tx);
  }

  abbrev pub out_note : Draws → PaymentAddress → ℕ → Note
  out_note draws recipient amount = record {
    value = amount;
    rcm = draws.out_rcm;
    rho = draws.out_rho;
    pk_d = recipient.pk_d;
    diversifier = recipient.diversifier;
  }

  abbrev pub out_description : Draws → PaymentAddress → ℕ → EncryptedOutput → OutputDescription
  out_description draws recipient amount enc = record {
    note_commitment = commitment blake3 (out_note draws recipient amount);
    ephemeral_key = enc.ephemeral_key;
    enc_ciphertext = enc.enc_ciphertext;
    out_ciphertext = enc.out_ciphertext;
    cv = value_commitment blake3 amount draws.out_rcv;
  }

  abbrev pub assembled :
      ℕ
      → List SpendDescription
      → List OutputDescription
      → ℕ
      → ℕ
      → Option ContractCall
      → Option Bytes
      → Bytes
      → Transaction
  assembled now spends outputs fee gas_limit call deploy proof = record {
    version = 1;
    chain_id = 1;
    spends = spends;
    outputs = outputs;
    fee = fee;
    gas_limit = gas_limit;
    memo = none;
    contract_call = call;
    deploy_contract = deploy;
    binding_sig = replicate 64 0;
    timestamp = now_obfuscated now;
    aggregate_spend_proof = proof;
  }

  unfoldable pub build_transfer :
      Draws → ℕ → SpendingKey → PaymentAddress → ℕ → ℕ → ℕ → Option Transaction
  unfolding to_fvk encrypt_note value_commitment dummy_proof dummy_spend with_binding_sig
  build_transfer draws now sk recipient amount fee mock_input_value =
      bind_option
        (encrypt_note blake3 aead curve draws.esk (out_note draws recipient amount) recipient.pk_d
          (to_fvk blake3 sk).ovk)
        (λ enc. bind_option (dummy_proof mock_input_value) (λ proof. some (
          with_binding_sig sk (
            assembled now (dummy_spend (codes "dummy_nf") mock_input_value draws ∷ [])
              (out_description draws recipient amount enc ∷ []) fee 21_000 none none proof))))

  unfoldable pub build_contract_deploy :
      Draws → ℕ → SpendingKey → Bytes → ℕ → ℕ → ℕ → Option Transaction
  unfolding dummy_proof dummy_spend with_binding_sig
  build_contract_deploy draws now sk bytecode fee gas_limit mock_input_value =
      bind_option (dummy_proof mock_input_value) (λ proof. some (
        with_binding_sig sk (
          assembled now (dummy_spend (codes "deploy_nf") mock_input_value draws ∷ []) [] fee
            gas_limit none (some bytecode) proof)))

  unfoldable pub build_contract_call :
      Draws → ℕ → SpendingKey → Hash32 → Bytes → Bytes → ℕ → ℕ → ℕ → Option Transaction
  unfolding dummy_proof dummy_spend with_binding_sig
  build_contract_call draws now sk contract_id method args fee gas_limit mock_input_value =
      let call : ContractCall = record {
        contract_id = contract_id;
        method = method;
        args = args;
        gas_limit = gas_limit;
        caller_commitment = blake3 sk.sk;
      } in
      bind_option (dummy_proof mock_input_value) (λ proof. some (
        with_binding_sig sk (
          assembled now (dummy_spend (codes "call_nf") mock_input_value draws ∷ []) [] fee gas_limit
            (some call) none proof)))
