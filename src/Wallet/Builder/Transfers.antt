-- ===== src/Wallet/Builder/Transfers.antt =====
-- The transfers that `build_transfer` of crates/noirnet-wallet/src/builder.rs makes.
use noirnet.Prelude.{
  ℕ, ◌*◌, ◌/◌, ◌≤◌, ◌≡◌, sym, ap, ◌∙◌, ◌↔◌, ◌⊎◌, inl, inr, Bool, true, false, Option, none, some,
  [], ◌∷◌, arith, unwrap_or, ok, is_ok, Bytes, bytes_eq_self,
}
use mathlib.Core.Path.{subst}
use noirnet.Prelude.{codes}
use noirnet.Prelude.Maps.{lookup, insert, lookup-insert}
use noirnet.Types.Note.{Hash32}
use noirnet.Types.Transaction.{Transaction, now_obfuscated, signing_bytes, validate_format, tx_id}
use noirnet.Types.Transaction.Format.{IsWellFormed, validate_format_iff}
use noirnet.Types.Address.{PaymentAddress, SpendingKey, to_fvk}
use noirnet.Crypto.Cipher.{Aead, bind_option, bind_option-some}
use noirnet.Crypto.Stealth.{X25519, EncryptedOutput, encrypt_note}
use noirnet.Crypto.Signatures.{Ed25519, verify_binding_sig, keypair_from_seed, public_key_bytes}
use noirnet.Crypto.Signatures.Completeness.{verify_binding_sig-create_binding_sig}
use noirnet.Zk.{Nova}
use noirnet.Mempool.{PrivateMempool, submit, reserve}
use noirnet.Mempool.Admission.{IsFree, submit_lem}
use noirnet.Wallet.Builder.{
  Draws, spend_cvs_of, output_cvs_of, dummy_proof, dummy_spend, with_binding_sig, out_note,
  out_description, assembled, build_transfer,
}

module _ {VerifyingKey PublicParams Snark : Type 0} (blake3 : Bytes → Bytes) (aead : Aead)
    (curve : X25519) (ed25519 : Ed25519 VerifyingKey) (nova : Nova PublicParams Snark)
    (pp : PublicParams) (draws : Draws) (now : ℕ) (sk : SpendingKey) (recipient : PaymentAddress)
    (amount fee mock_input_value : ℕ) where
  -- The transaction, before it is signed.
  unsigned : EncryptedOutput → Bytes → Transaction
  unsigned enc proof =
      assembled blake3 aead curve ed25519 nova pp now
        (dummy_spend blake3 aead curve ed25519 nova pp (codes "dummy_nf") mock_input_value draws
          ∷ [])
        (out_description blake3 aead curve ed25519 nova pp draws recipient amount enc ∷ []) fee
        21_000 none none proof

  built :
      (tx : Transaction)
      → build_transfer blake3 aead curve ed25519 nova pp draws now sk recipient amount fee
          mock_input_value
        ≡ some tx
      → (enc : EncryptedOutput) × (proof : Bytes) × (with_binding_sig blake3 aead curve ed25519 nova
            pp sk
            (unsigned enc proof)
          ≡ tx)
  unfolding build_transfer unsigned
  built tx h =
      let (enc, _, rest) =
        bind_option-some
          (encrypt_note blake3 aead curve draws.esk
            (out_note blake3 aead curve ed25519 nova pp draws recipient amount) recipient.pk_d
            (to_fvk blake3 sk).ovk)
          (λ enc.
            bind_option (dummy_proof blake3 aead curve ed25519 nova pp mock_input_value) (λ proof.
              some (with_binding_sig blake3 aead curve ed25519 nova pp sk (unsigned enc proof))))
          tx h in
      let (proof, _, made) =
        bind_option-some (dummy_proof blake3 aead curve ed25519 nova pp mock_input_value)
          (λ proof.
            some (with_binding_sig blake3 aead curve ed25519 nova pp sk (unsigned enc proof)))
          tx rest in
      (enc, proof, ap (λ o. unwrap_or o tx) made)

  -- A transfer carries a binding signature that verifies under the public key of the spending key, for its own commitments and its own
  -- signing bytes.
  pub build_transfer-verify_binding_sig :
      (tx : Transaction)
      → build_transfer blake3 aead curve ed25519 nova pp draws now sk recipient amount fee
          mock_input_value
        ≡ some tx
      → verify_binding_sig blake3 ed25519
          (spend_cvs_of tx.spends)
          (output_cvs_of tx.outputs)
          tx.binding_sig
          (public_key_bytes blake3 ed25519 (keypair_from_seed blake3 ed25519 sk.sk))
          (signing_bytes tx)
        ≡ true
  unfolding with_binding_sig unsigned signing_bytes dummy_spend
  build_transfer-verify_binding_sig tx h =
      let (enc, proof, made) = built tx h in
      subst
        (λ (tx : Transaction).
          verify_binding_sig blake3 ed25519 (spend_cvs_of tx.spends) (output_cvs_of tx.outputs)
            tx.binding_sig
            (public_key_bytes blake3 ed25519 (keypair_from_seed blake3 ed25519 sk.sk))
            (signing_bytes tx)
          ≡ true)
        made
        (verify_binding_sig-create_binding_sig blake3 ed25519
          (spend_cvs_of (unsigned enc proof).spends) [] (output_cvs_of (unsigned enc proof).outputs)
          sk.sk (signing_bytes (unsigned enc proof)))

  well_formed :
      (serialized_size : Transaction → Option ℕ) (tx : Transaction)
      → build_transfer blake3 aead curve ed25519 nova pp draws now sk recipient amount fee
          mock_input_value
        ≡ some tx
      → (fee ≡ 10_000) ⊎ (fee ≡ 100_000) ⊎ (fee ≡ 1_000_000)
      → (n : ℕ) × (serialized_size tx ≡ some n) × (n ≤ 10_485_760)
      → IsWellFormed serialized_size tx
  unfolding with_binding_sig unsigned now_obfuscated
  well_formed serialized_size tx h tier small =
      let (enc, proof, made) = built tx h in
      let version : tx.version ≡ 1 = ap (λ (tx : Transaction). tx.version) (sym made) in
      let spends = ap (λ (tx : Transaction). tx.spends) (sym made) in
      let outputs = ap (λ (tx : Transaction). tx.outputs) (sym made) in
      let same_fee : tx.fee ≡ fee = ap (λ (tx : Transaction). tx.fee) (sym made) in
      let gas : tx.gas_limit ≡ 21_000 = ap (λ (tx : Transaction). tx.gas_limit) (sym made) in
      let time : tx.timestamp ≡ now / 900 * 900 =
        ap (λ (tx : Transaction). tx.timestamp) (sym made) in
      let deploy : tx.deploy_contract ≡ none =
        ap (λ (tx : Transaction). tx.deploy_contract) (sym made) in
      record {
        version_one = version;
        has_input = inl (λ e. cc (spends, e));
        has_output = inl (λ e. cc (outputs, e));
        spends_bounded = rw spends (omega arith);
        outputs_bounded = rw outputs (omega arith);
        fee_tier = rw same_fee tier;
        gas_bounded = omega (arith, gas);
        rounded = omega (arith, time);
        code_bounded = rw deploy (omega arith);
        size_bounded = small;
      }

  -- A transfer is accepted by the format check exactly when its fee is one of the three tiers and its serialized size can be computed and is
  -- at most ten mebibytes.
  pub build_transfer-validate_format :
      (serialized_size : Transaction → Option ℕ) (tx : Transaction)
      → build_transfer blake3 aead curve ed25519 nova pp draws now sk recipient amount fee
          mock_input_value
        ≡ some tx
      → (validate_format serialized_size tx ≡ ok tt) ↔ (
          ((fee ≡ 10_000) ⊎ (fee ≡ 100_000) ⊎ (fee ≡ 1_000_000))
          × ((n : ℕ) × (serialized_size tx ≡ some n) × (n ≤ 10_485_760)))
  unfolding with_binding_sig unsigned now_obfuscated
  build_transfer-validate_format serialized_size tx h =
      let (enc, proof, made) = built tx h in
      let format = validate_format_iff serialized_size tx in
      let same_fee : tx.fee ≡ fee = ap (λ (tx : Transaction). tx.fee) (sym made) in
      (
        λ k. (rw (← same_fee) ((format.0 k).fee_tier), (format.0 k).size_bounded),
        λ k. format.1 (well_formed serialized_size tx h k.0 k.1),
      )

  pub spends_built :
      (tx : Transaction)
      → build_transfer blake3 aead curve ed25519 nova pp draws now sk recipient amount fee
          mock_input_value
        ≡ some tx
      → tx.spends
        ≡ dummy_spend blake3 aead curve ed25519 nova pp (codes "dummy_nf") mock_input_value draws
          ∷ []
  unfolding with_binding_sig unsigned
  spends_built tx h =
      let (enc, proof, made) = built tx h in ap (λ (tx : Transaction). tx.spends) (sym made)

-- Two transfers, of whatever wallets, amounts and fees, spend the same nullifier: once a pool has admitted one of them, it refuses the
-- other, and stays as it is.
pub build_transfer-conflict :
    {VerifyingKey PublicParams Snark : Type 0} (blake3 : Bytes → Bytes) (aead : Aead)
    (curve : X25519) (ed25519 : Ed25519 VerifyingKey) (nova : Nova PublicParams Snark)
    (pp : PublicParams) (serialize : Transaction → Bytes) (serialized_size : Transaction → Option ℕ)
    (spent : Hash32 → Option Bool) (draws other_draws : Draws) (now later : ℕ)
    (sk other : SpendingKey) (recipient payee : PaymentAddress)
    (amount fee value paid other_fee other_value : ℕ) (tx ty : Transaction) (s : PrivateMempool)
    → build_transfer blake3 aead curve ed25519 nova pp draws now sk recipient amount fee value
      ≡ some tx
    → build_transfer blake3 aead curve ed25519 nova pp other_draws later other payee paid other_fee
        other_value
      ≡ some ty
    → (submit blake3 serialize serialized_size spent tx s).1 ≡ ok tt
    → let pool = (submit blake3 serialize serialized_size spent tx s).0 in
      (is_ok (submit blake3 serialize serialized_size spent ty pool).1 ≡ false)
      × ((submit blake3 serialize serialized_size spent ty pool).0 ≡ pool)
unfolding dummy_spend reserve
build_transfer-conflict blake3 aead curve ed25519 nova pp serialize serialized_size spent draws
      other_draws now later sk other recipient payee amount fee value paid other_fee other_value tx
      ty s h k admitted =
    let first =
      spends_built blake3 aead curve ed25519 nova pp draws now sk recipient amount fee value tx h in
    let second =
      spends_built blake3 aead curve ed25519 nova pp other_draws later other payee paid other_fee
        other_value ty k in
    let pool = (submit blake3 serialize serialized_size spent tx s).0 in
    elim (submit_lem blake3 serialize serialized_size spent tx s) [
      | inr (_, refused, _) ↦ absurd (ground (arith, admitted, refused))
      | inl (_, _, grown) ↦ elim (submit_lem blake3 serialize serialized_size spent ty pool) [
        | inr (_, refused, same) ↦ (refused, same)
        | inl (w, _, _) ↦
            let nf = blake3 (codes "dummy_nf") in
            let txid = tx_id blake3 serialize tx in
            let free : lookup nf pool.pending_nullifiers ≡ none =
              (subst (IsFree spent pool.pending_nullifiers) second w.free).0.1 in
            let pending : pool.pending_nullifiers ≡ insert nf txid s.pending_nullifiers =
              ap (λ (p : PrivateMempool). p.pending_nullifiers) grown
              ∙ ap (λ spends. reserve txid spends s.pending_nullifiers) first in
            let found : lookup nf (insert nf txid s.pending_nullifiers) ≡ some txid =
              ground (arith, lookup-insert nf nf txid s.pending_nullifiers, bytes_eq_self nf) in
            absurd cc (free, ap (lookup nf) pending, found)
      ]
    ]
