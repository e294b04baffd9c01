-- ===== src/Crypto/Memo.antt =====
-- `encrypt_memo` and `decrypt_memo` of crates/noirnet-crypto/src/encryption.rs. The nonce, which the code draws, is an argument.
use noirnet.Prelude.{
  ◌≤◌, ◌≡◌, inl, inr, false, Option, none, some, ◌++◌, arith, ltb, if◌then◌else◌, ltb-false,
  Bool-cases, length, take, drop, length-append, Bytes,
}
use noirnet.Prelude.{take-append_eq, drop-append_eq}
use noirnet.Types.Constants.{max_memo_size}
use noirnet.Crypto.Cipher.{Aead, bind_option, bind_option-some}

unfoldable pub encrypt_memo : Aead → Bytes → Bytes → Bytes → Option Bytes
encrypt_memo aead nonce key memo =
    if ltb max_memo_size (length memo)
    then none
    else bind_option (aead.encrypt key nonce memo) (λ sealed. some (nonce ++ sealed))

unfoldable pub decrypt_memo : Aead → Bytes → Bytes → Option Bytes
decrypt_memo aead key ciphertext =
    if ltb (length ciphertext) 12
    then none
    else aead.decrypt key (take 12 ciphertext) (drop 12 ciphertext)

-- With a nonce of twelve bytes, what is encrypted has at most 512 bytes, and decrypts with the same key to what it was.
pub decrypt_memo-encrypt_memo :
    (aead : Aead) (nonce key memo ciphertext : Bytes)
    → length nonce ≡ 12
    → encrypt_memo aead nonce key memo ≡ some ciphertext
    → (length memo ≤ max_memo_size) × (decrypt_memo aead key ciphertext ≡ some memo)
unfolding encrypt_memo decrypt_memo
decrypt_memo-encrypt_memo aead nonce key memo ciphertext twelve h =
    elim (Bool-cases (ltb max_memo_size (length memo))) [
      | inl long ↦ cc (rw long at h)
      | inr short ↦
          let (sealed, e, made) =
            bind_option-some (aead.encrypt key nonce memo) (λ sealed. some (nonce ++ sealed))
              ciphertext (rw short at h) in
          let whole : nonce ++ sealed ≡ ciphertext = ground (arith, made) in
          let enough : ltb (length (nonce ++ sealed)) 12 ≡ false =
            ground (arith, length-append nonce sealed, twelve) in
          (
            ltb-false max_memo_size (length memo) short,
            rw
                (
                  ← whole,
                  enough,
                  take-append_eq 12 nonce sealed twelve,
                  drop-append_eq 12 nonce sealed twelve,
                )
                (aead.decrypt-encrypt key nonce memo sealed e),
          )
    ]
