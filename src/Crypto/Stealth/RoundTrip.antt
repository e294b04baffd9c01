-- ===== src/Crypto/Stealth/RoundTrip.antt =====
-- Encrypting and decrypting the notes of crates/noirnet-crypto/src/stealth.rs.
use noirnet.Prelude.{
  ◌≡◌, refl, sym, ap, ◌∙◌, inl, inr, Option, none, some, [], ◌++◌, arith, Bool-cases, Bytes,
  bytes_eq, bytes_eq_self, bytes_eq_iff,
}
use mathlib.Core.List.{append-nil}
use noirnet.Crypto.Cipher.{Aead, bind_option, bind_option-some}
use noirnet.Types.Note.{Hash32, Note, IsNote, commitment, to_plaintext, from_plaintext}
use noirnet.Types.Note.Plaintext.{from_plaintext-to_plaintext}
use noirnet.Types.Address.{IncomingViewKey}
use noirnet.Crypto.Stealth.{
  X25519, EncryptedOutput, nonce_of, chacha20_encrypt, chacha20_decrypt, derive_pkd_from_ivk,
  kdf_note, kdf_outgoing, encrypt_note, if_committed, try_decrypt_output,
}

from_plaintext-pk_d :
    (text pk_d : Bytes) (note : Note) → from_plaintext text pk_d ≡ some note → note.pk_d ≡ pk_d
unfolding from_plaintext
from_plaintext-pk_d text pk_d note h = ground (arith, h)

module _ (blake3 : Bytes → Bytes) (aead : Aead) (curve : X25519) where
  -- A note whose arrays have their lengths and whose value fits 64 bits, encrypted to the key that belongs to a viewing key, is what that viewing
  -- key decrypts from the output against the commitment of the note.
  pub try_decrypt_output-encrypt_note :
      (esk sender_ovk : Bytes) (note : Note) (key : IncomingViewKey) (out : EncryptedOutput)
      → IsNote note
      → note.pk_d ≡ derive_pkd_from_ivk curve key.ivk
      → encrypt_note blake3 aead curve esk note note.pk_d sender_ovk ≡ some out
      → try_decrypt_output blake3 aead curve out.enc_ciphertext out.ephemeral_key
          (commitment blake3 note)
          key
        ≡ some note
  unfolding encrypt_note try_decrypt_output kdf_note chacha20_encrypt chacha20_decrypt
      derive_pkd_from_ivk
  try_decrypt_output-encrypt_note esk sender_ovk note key out w own h =
      let epk = curve.public_key esk in
      let enc_key = kdf_note blake3 (curve.diffie_hellman esk note.pk_d) epk in
      let (sealed, e, rest) =
        bind_option-some (chacha20_encrypt aead enc_key 1 (to_plaintext note)) _ out h in
      let (sealed_out, _, made) =
        bind_option-some
          (chacha20_encrypt aead (kdf_outgoing blake3 sender_ovk epk) 2 (note.pk_d ++ note.rcm))
          (λ sealed_out.
            some (record {
              ephemeral_key = epk;
              enc_ciphertext = sealed;
              out_ciphertext = sealed_out;
            }))
          out rest in
      let same_epk : epk ≡ out.ephemeral_key =
        ap (λ (o : Option EncryptedOutput). elim o [ none ↦ epk | some x ↦ x.ephemeral_key ])
          made in
      let same_text : sealed ≡ out.enc_ciphertext =
        ap (λ (o : Option EncryptedOutput). elim o [ none ↦ sealed | some x ↦ x.enc_ciphertext ])
          made in
      let shared : curve.diffie_hellman key.ivk epk ≡ curve.diffie_hellman esk note.pk_d =
        curve.diffie_hellman_comm key.ivk esk ∙ ap (curve.diffie_hellman esk) (sym own) in
      let opens : aead.decrypt (kdf_note blake3 (curve.diffie_hellman key.ivk epk) epk) (nonce_of 1)
            sealed
          ≡ some (to_plaintext note) =
        rw shared (aead.decrypt-encrypt enc_key (nonce_of 1) (to_plaintext note) sealed e) in
      let parses : from_plaintext (to_plaintext note) (curve.public_key key.ivk) ≡ some note =
        rw (← own) (rw append-nil at (from_plaintext-to_plaintext note w [])) in
      rw (← same_epk, ← same_text, opens) (rw (parses, bytes_eq_self (commitment blake3 note)) refl)

  -- Whatever a viewing key decrypts has the given commitment and belongs to that key, and the commitment of a note it
  -- decrypts is the one that was given.
  pub try_decrypt_output_lem :
      (enc_ciphertext ephemeral_key : Bytes) (cm : Hash32) (key : IncomingViewKey) (note : Note)
      → try_decrypt_output blake3 aead curve enc_ciphertext ephemeral_key cm key ≡ some note
      → (commitment blake3 note ≡ cm) × (note.pk_d ≡ derive_pkd_from_ivk curve key.ivk)
  unfolding try_decrypt_output from_plaintext
  try_decrypt_output_lem enc_ciphertext ephemeral_key cm key note h =
      let (text, _, parsed) =
        bind_option-some
          (chacha20_decrypt aead
            (kdf_note blake3 (curve.diffie_hellman key.ivk ephemeral_key) ephemeral_key) 1
            enc_ciphertext)
          (λ text.
            bind_option (from_plaintext text (derive_pkd_from_ivk curve key.ivk))
              (if_committed blake3 cm))
          note h in
      let (found, e, checked) =
        bind_option-some (from_plaintext text (derive_pkd_from_ivk curve key.ivk))
          (if_committed blake3 cm) note parsed in
      elim (Bool-cases (bytes_eq (commitment blake3 found) cm)) [
        | inl good ↦
            let same : found ≡ note = ground (arith, good, checked) in
            (
              ground (arith, good, same, bytes_eq_iff (commitment blake3 found) cm),
              ap (λ (n : Note). n.pk_d) (sym same)
                  ∙ from_plaintext-pk_d text (derive_pkd_from_ivk curve key.ivk) found e,
            )
        | inr bad ↦ cc (rw bad at checked)
      ]
