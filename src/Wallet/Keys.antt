-- ===== src/Wallet/Keys.antt =====
-- crates/noirnet-wallet/src/keys.rs, the store in software. `Argon2` stands for the key derivation of the crate argon2; `Cipher`
-- for ChaCha20-Poly1305, whose ciphertext is 16 bytes longer than the text. The salt, which the code draws, is an argument.
use noirnet.Prelude.{
  ℕ, ◌+◌, ◌≡◌, refl, inl, inr, false, Option, none, some, arith, ltb, ◌==◌, if◌then◌else◌,
  Option-cases, length, take, replicate, Result, ok, err, ◌>>=◌, Bytes,
}
use noirnet.Crypto.Cipher.{Aead, bind_option}

pub data KeyStoreError : Type 0 where
  decryption_failed hsm_error kdf_error mpc_error : KeyStoreError

-- The password, the salt, and the key of 32 bytes.
pub record Argon2 : Type 0 where
  pub hash_password_into : Bytes → Bytes → Option Bytes

-- The tag has 16 bytes.
abbrev pub IsTagged : Aead → Type 0
IsTagged aead =
    (key nonce text sealed : Bytes)
    → aead.encrypt key nonce text ≡ some sealed
    → length sealed ≡ length text + 16

pub record SoftwareKeyStore : Type 0 where
  pub encrypted_seed : Bytes
  pub salt : Bytes
  pub iterations : ℕ

abbrev pub zero_nonce : Bytes
zero_nonce = replicate 12 0

-- `copy_from_slice` into an array of 64 bytes: it panics at another length.
abbrev pub copied : ℕ → Bytes → Option Bytes
copied n bytes = if length bytes == n then some bytes else none

unfoldable pub new : Argon2 → Aead → Bytes → Bytes → Bytes → Option SoftwareKeyStore
new argon2 aead salt seed password = bind_option (argon2.hash_password_into password salt) (λ key.
    bind_option (aead.encrypt key zero_nonce seed) (λ sealed.
      bind_option (copied 64 sealed) (λ encrypted_seed.
        some (record { encrypted_seed = encrypted_seed; salt = salt; iterations = 3 }))))

abbrev pub or_failed : Option Bytes → Result Bytes KeyStoreError
or_failed none = err decryption_failed
or_failed (some bytes) = ok bytes

-- `none` is the panic of a slice of a seed that is too short.
unfoldable pub derive_spend_key :
    Argon2 → Aead → Bytes → SoftwareKeyStore → Option (Result Bytes KeyStoreError)
derive_spend_key argon2 aead password s =
    let seed = or_failed (argon2.hash_password_into password s.salt) >>= λ key.
    or_failed (aead.decrypt key zero_nonce s.encrypted_seed) in
    elim seed [
      | err e ↦ some (err e)
      | ok bytes ↦ if ltb (length bytes) 32 then none else some (ok (take 32 bytes))
    ]

-- No seed of 32 bytes makes a key store: with its tag the encrypted seed has 48 bytes, and copying it into the array of 64
-- panics, whatever the password and the salt are.
pub new-none :
    (argon2 : Argon2) (aead : Aead) (salt seed password : Bytes)
    → IsTagged aead
    → length seed ≡ 32
    → new argon2 aead salt seed password ≡ none
unfolding new
new-none argon2 aead salt seed password tagged wide =
    elim (Option-cases (argon2.hash_password_into password salt)) [
      | inl none_derived ↦ rw none_derived refl
      | inr (key, derived) ↦ elim (Option-cases (aead.encrypt key zero_nonce seed)) [
        | inl none_sealed ↦ rw (derived, none_sealed) refl
        | inr (sealed, encrypted) ↦
            let short : (length sealed == 64) ≡ false =
              ground (arith, tagged key zero_nonce seed sealed encrypted, wide) in
            rw (derived, encrypted, short) refl
      ]
    ]
