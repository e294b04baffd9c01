-- ===== src/Crypto/Stealth.antt =====
-- crates/noirnet-crypto/src/stealth.rs: the encryption of notes. `X25519` is the curve crate, `Aead` the cipher;
-- the ephemeral secret, which the code draws, is an argument. `none` from `encrypt_note` is the panic of `expect`.
pub mod RoundTrip
use noirnet.Prelude.{
  ℕ, ◌+◌, ◌-◌, ◌/◌, ◌≡◌, Option, none, some, ◌∷◌, ◌++◌, if◌then◌else◌, replicate, Bytes, bytes_eq,
}
use noirnet.Prelude.{codes}
use noirnet.Crypto.Cipher.{Aead, bind_option}
use noirnet.Types.Note.{Hash32, Note, commitment, to_plaintext, from_plaintext}
use noirnet.Types.Address.{IncomingViewKey}

-- The public key of a secret, and the shared secret of a secret with a public key.
pub record X25519 : Type 0 where
  pub public_key : Bytes → Bytes
  pub diffie_hellman : Bytes → Bytes → Bytes
  pub diffie_hellman_comm :
      (a b : Bytes) → diffie_hellman a (public_key b) ≡ diffie_hellman b (public_key a)

pub record EncryptedOutput : Type 0 where
  pub ephemeral_key : Bytes
  pub enc_ciphertext : Bytes
  pub out_ciphertext : Bytes

abbrev pub nonce_of : ℕ → Bytes
nonce_of nonce_byte = nonce_byte ∷ replicate 11 0

unfoldable pub chacha20_encrypt : Aead → Bytes → ℕ → Bytes → Option Bytes
chacha20_encrypt aead key nonce_byte plaintext = aead.encrypt key (nonce_of nonce_byte) plaintext

unfoldable pub chacha20_decrypt : Aead → Bytes → ℕ → Bytes → Option Bytes
chacha20_decrypt aead key nonce_byte ciphertext = aead.decrypt key (nonce_of nonce_byte) ciphertext

unfoldable pub derive_pkd_from_ivk : X25519 → Bytes → Bytes
derive_pkd_from_ivk curve ivk = curve.public_key ivk

module _ (blake3 : Bytes → Bytes) where
  unfoldable pub kdf_note : Bytes → Bytes → Bytes
  kdf_note shared_secret epk = blake3 (codes "NoirNet_KDF_note_v1" ++ (shared_secret ++ epk))

  unfoldable pub kdf_outgoing : Bytes → Bytes → Bytes
  kdf_outgoing ovk epk = blake3 (codes "NoirNet_KDF_out_v1" ++ (ovk ++ epk))

  unfoldable pub encrypt_note :
      Aead → X25519 → Bytes → Note → Bytes → Bytes → Option EncryptedOutput
  unfolding kdf_note kdf_outgoing chacha20_encrypt
  encrypt_note aead curve esk note recipient_pk_d sender_ovk =
      let epk = curve.public_key esk in
      let enc_key = kdf_note (curve.diffie_hellman esk recipient_pk_d) epk in
      let out_key = kdf_outgoing sender_ovk epk in
      bind_option (chacha20_encrypt aead enc_key 1 (to_plaintext note)) (λ enc_ciphertext.
        bind_option (chacha20_encrypt aead out_key 2 (recipient_pk_d ++ note.rcm))
          (λ out_ciphertext. some (record {
            ephemeral_key = epk;
            enc_ciphertext = enc_ciphertext;
            out_ciphertext = out_ciphertext;
          })))

  abbrev pub if_committed : Hash32 → Note → Option Note
  if_committed note_commitment note =
      if bytes_eq (commitment blake3 note) note_commitment then some note else none

  unfoldable pub try_decrypt_output :
      Aead → X25519 → Bytes → Bytes → Hash32 → IncomingViewKey → Option Note
  unfolding kdf_note chacha20_decrypt derive_pkd_from_ivk
  try_decrypt_output aead curve enc_ciphertext ephemeral_key note_commitment key =
      let pk_d = derive_pkd_from_ivk curve key.ivk in
      let enc_key = kdf_note (curve.diffie_hellman key.ivk ephemeral_key) ephemeral_key in
      bind_option (chacha20_decrypt aead enc_key 1 enc_ciphertext) (λ plaintext.
        bind_option (from_plaintext plaintext pk_d) (λ note. if_committed note_commitment note))
