-- ===== src/Crypto/Cipher.antt =====
-- The cipher of crates/noirnet-crypto, and the `?` of functions that return an Option.
use noirnet.Prelude.{◌≡◌, refl, Option, none, some, Bytes}

-- A cipher with a key, a nonce and a text; what it encrypts it decrypts with the same key and nonce.
pub record Aead : Type 0 where
  pub encrypt : Bytes → Bytes → Bytes → Option Bytes
  pub decrypt : Bytes → Bytes → Bytes → Option Bytes
  pub decrypt-encrypt :
      (key nonce text sealed : Bytes)
      → encrypt key nonce text ≡ some sealed
      → decrypt key nonce sealed ≡ some text

abbrev pub bind_option {ℓ κ} : {A : Type ℓ} {B : Type κ} → Option A → (A → Option B) → Option B
bind_option none f = none
bind_option (some a) f = f a

pub bind_option-some {ℓ κ} :
    {A : Type ℓ} {B : Type κ} (o : Option A) (f : A → Option B) (b : B)
    → bind_option o f ≡ some b
    → (a : A) × (o ≡ some a) × (f a ≡ some b)
bind_option-some none f b h = cc
bind_option-some (some a) f b h = (a, refl, h)
