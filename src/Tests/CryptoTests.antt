-- ===== src/Tests/CryptoTests.antt =====
-- The theorems about crates/noirnet-crypto and the keys at concrete inputs.
use noirnet.Prelude.{
  ◌+◌, ◌%◌, ◌^◌, ◌≡◌, refl, sym, ap, ◌↔◌, ◌⊎◌, true, Option, some, [], ◌∷◌, ◌++◌, arith, unwrap_or,
  drop, replicate, sum, Bytes,
}
use noirnet.Prelude.Collisions.{Collision}
use noirnet.Types.Note.{IsNote, commitment}
use noirnet.Types.Address.{PaymentAddress, IncomingViewKey, Base58}
use noirnet.Types.Address.Distinctness.{to_base58_string_injective}
use noirnet.Crypto.Cipher.{Aead}
use noirnet.Crypto.Stealth.{
  X25519, EncryptedOutput, encrypt_note, try_decrypt_output, derive_pkd_from_ivk,
}
use noirnet.Crypto.Stealth.RoundTrip.{try_decrypt_output-encrypt_note}
use noirnet.Crypto.Commitments.{check_value_balance}
use noirnet.Crypto.Commitments.Balance.{check_value_balance_iff}
use noirnet.Crypto.Commitments.Binding.{commitment_binding}
use noirnet.Crypto.Signatures.{
  Ed25519, verify_binding_sig, create_binding_sig, public_key_bytes, keypair_from_seed,
}
use noirnet.Crypto.Signatures.Completeness.{verify_binding_sig-create_binding_sig}
use noirnet.Tests.Data.{toy_hash, note_a}

-- A cipher that only adds a tag.
abbrev pub toy_aead : Aead
toy_aead = record {
  encrypt = λ key nonce text. some (replicate 16 0 ++ text);
  decrypt = λ key nonce sealed. some (drop 16 sealed);
  decrypt-encrypt = λ key nonce text sealed h. ap (λ o. some (drop 16 (unwrap_or o []))) (sym h);
}

abbrev pub toy_curve : X25519
toy_curve = record {
  public_key = λ secret. secret;
  diffie_hellman = λ secret key. [];
  diffie_hellman_comm = λ a b. refl;
}

abbrev pub toy_ed25519 : Ed25519 Bytes
toy_ed25519 = record {
  verifying_key = λ secret. secret;
  to_bytes = λ key. key;
  from_bytes = λ bytes. some bytes;
  sign = λ secret msg. replicate 64 0;
  verify = λ key msg sig. true;
  from_bytes-to_bytes = λ key. refl;
  length-sign = λ secret msg. refl;
  verify-sign = λ secret msg. refl;
}

abbrev toy_base58 : Base58
toy_base58 = record {
  encode = λ bytes. bytes;
  decode = λ bytes. some bytes;
  decode-encode = λ bytes. refl;
}

note_a-IsNote : IsNote note_a
note_a-IsNote = record {
  value_u64 = omega arith;
  rcm_length = refl;
  rho_length = refl;
  diversifier_length = refl;
}

abbrev key_a : IncomingViewKey
key_a = record { ivk = replicate 32 3 }

abbrev sealed_a : Option EncryptedOutput
sealed_a =
    encrypt_note toy_hash toy_aead toy_curve (replicate 32 5) note_a note_a.pk_d (replicate 32 6)

abbrev out_a : EncryptedOutput
out_a = unwrap_or sealed_a (record { ephemeral_key = []; enc_ciphertext = []; out_ciphertext = [] })

try_decrypt_output-encrypt_note_example :
    try_decrypt_output toy_hash toy_aead toy_curve out_a.enc_ciphertext out_a.ephemeral_key
      (commitment toy_hash note_a)
      key_a
    ≡ some note_a
try_decrypt_output-encrypt_note_example =
    try_decrypt_output-encrypt_note toy_hash toy_aead toy_curve (replicate 32 5) (replicate 32 6)
      note_a key_a out_a note_a-IsNote (unfold derive_pkd_from_ivk in refl)
      (unfold encrypt_note in refl)

check_value_balance_iff_example :
    (check_value_balance [] [] 1_000 (10_000 ∷ []) (9_000 ∷ []) ≡ true)
    ↔ (sum (10_000 ∷ []) % 2 ^ 64 ≡ (sum (9_000 ∷ []) + 1_000) % 2 ^ 64)
check_value_balance_iff_example = check_value_balance_iff [] [] 1_000 (10_000 ∷ []) (9_000 ∷ [])

commitment_binding_example : (note_a ≡ note_a) ⊎ Collision toy_hash
commitment_binding_example =
    commitment_binding toy_hash note_a note_a note_a-IsNote note_a-IsNote refl refl refl

verify_binding_sig-create_binding_sig_example :
    verify_binding_sig toy_hash toy_ed25519
      (replicate 32 1 ∷ [])
      (replicate 32 2 ∷ replicate 32 3 ∷ [])
      (create_binding_sig toy_hash toy_ed25519
        (replicate 32 1 ∷ replicate 32 2 ∷ [])
        (replicate 32 3 ∷ [])
        (replicate 32 77)
        (1 ∷ 2 ∷ []))
      (public_key_bytes toy_hash toy_ed25519
        (keypair_from_seed toy_hash toy_ed25519 (replicate 32 77)))
      (1 ∷ 2 ∷ [])
    ≡ true
verify_binding_sig-create_binding_sig_example =
    verify_binding_sig-create_binding_sig toy_hash toy_ed25519 (replicate 32 1 ∷ [])
      (replicate 32 2 ∷ []) (replicate 32 3 ∷ []) (replicate 32 77) (1 ∷ 2 ∷ [])

abbrev pub address_a : PaymentAddress
address_a = record { diversifier = replicate 11 1; pk_d = replicate 32 2 }

to_base58_string_injective_example :
    address_a ≡ record { diversifier = replicate 11 1; pk_d = replicate 32 2 }
to_base58_string_injective_example =
    to_base58_string_injective toy_hash toy_base58 address_a address_a
      (record { diversifier_length = refl; pk_d_length = refl })
      (record { diversifier_length = refl; pk_d_length = refl }) refl
