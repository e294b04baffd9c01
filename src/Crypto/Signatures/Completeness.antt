-- ===== src/Crypto/Signatures/Completeness.antt =====
-- What the signatures of crates/noirnet-crypto/src/keys.rs and vrf.rs accept.
use noirnet.Prelude.{
  ◌≡◌, refl, ◌↔◌, true, List, [], ◌∷◌, ◌++◌, arith, length, Bytes, bytes_eq_self, bytes_eq_iff,
}
use mathlib.Core.List.{append_assoc}
use noirnet.Crypto.Signatures.{
  Ed25519, VrfOutput, concat, binding_message, vrf_message, keypair_from_seed, keypair_sign,
  public_key_bytes, create_binding_sig, verify_binding_sig, vrf_prove, vrf_verify,
}

concat-append : (bs cs : List Bytes) → concat (bs ++ cs) ≡ concat bs ++ concat cs
unfolding concat
concat-append [] cs = refl
concat-append (b ∷ bs) cs = rw (concat-append bs cs, append_assoc) refl

module _ {VerifyingKey : Type 0} (blake3 : Bytes → Bytes) (ed25519 : Ed25519 VerifyingKey) where
  -- A binding signature verifies under the public key of its signing key, and also when commitments of the spends, from any place
  -- on, are passed as the first ones of the outputs: the signature does not bind on which side a commitment stands.
  pub verify_binding_sig-create_binding_sig :
      (spend_cvs moved output_cvs : List Bytes) (signing_key tx_bytes : Bytes)
      → verify_binding_sig blake3 ed25519 spend_cvs
          (moved ++ output_cvs)
          (create_binding_sig blake3 ed25519 (spend_cvs ++ moved) output_cvs signing_key tx_bytes)
          (public_key_bytes blake3 ed25519 (keypair_from_seed blake3 ed25519 signing_key))
          tx_bytes
        ≡ true
  unfolding verify_binding_sig create_binding_sig public_key_bytes keypair_from_seed keypair_sign
      binding_message
  verify_binding_sig-create_binding_sig spend_cvs moved output_cvs signing_key tx_bytes =
      simp
        (
          ed25519.from_bytes-to_bytes (ed25519.verifying_key signing_key),
          concat-append,
          append_assoc,
        )
        (ed25519.verify-sign signing_key _)

  -- A VRF output that was made with a key is accepted for its input under the public key of that key.
  pub vrf_verify-vrf_prove :
      (signing_key input : Bytes)
      → vrf_verify blake3 ed25519
          (ed25519.to_bytes (ed25519.verifying_key signing_key))
          input
          (vrf_prove blake3 ed25519 signing_key input)
        ≡ true
  unfolding vrf_verify vrf_prove vrf_message
  vrf_verify-vrf_prove signing_key input =
      rw
        (
          ed25519.from_bytes-to_bytes (ed25519.verifying_key signing_key),
          ed25519.length-sign signing_key _,
          ed25519.verify-sign signing_key _,
        )
        (bytes_eq_self _)

  -- A VRF output is accepted exactly when its proof is a signature of 64 bytes on the input that verifies, and its output
  -- is the hash of that proof.
  pub vrf_verify_iff :
      (key : VerifyingKey) (input : Bytes) (out : VrfOutput)
      → (vrf_verify blake3 ed25519 (ed25519.to_bytes key) input out ≡ true) ↔ (
          (length out.proof ≡ 64)
          × (ed25519.verify key (vrf_message input) out.proof ≡ true)
          × (out.output ≡ blake3 out.proof))
  unfolding vrf_verify
  vrf_verify_iff key input out =
      let e = ed25519.from_bytes-to_bytes key in
      let same = bytes_eq_iff out.output (blake3 out.proof) in
      rw e (λ h. ground (arith, same, h), λ h. ground (arith, same, h))
