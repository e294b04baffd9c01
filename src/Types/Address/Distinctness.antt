-- ===== src/Types/Address/Distinctness.antt =====
-- Which keys and indices of crates/noirnet-types/src/address.rs have the same address.
use noirnet.Prelude.{
  ℕ, ◌^◌, ◌<◌, ◌≡◌, ap, ◌⊎◌, inl, inr, [], ◌∷◌, ◌++◌, arith, length, take, drop, replicate,
  length-append, Bytes, to_le_bytes, length-to_le_bytes,
}
use noirnet.Prelude.{codes, append_cancel, to_le_bytes_injective}
use noirnet.Types.Address.{
  PaymentAddress, IncomingViewKey, SpendingKey, Base58, IsAddress, bs58_encode_check,
  to_base58_string, diversifier_at, payment_address, prf, to_fvk,
}
use noirnet.Prelude.Collisions.{Collision, hash-cases}

payload : PaymentAddress → Bytes
payload a = 33 ∷ 137 ∷ (a.diversifier ++ a.pk_d)

length-payload : (a : PaymentAddress) → IsAddress a → length (payload a) ≡ 45
unfolding payload
length-payload a w =
    omega (arith, length-append a.diversifier a.pk_d, w.diversifier_length, w.pk_d_length)

payload_injective :
    (a b : PaymentAddress) → IsAddress a → IsAddress b → payload a ≡ payload b → a ≡ b
unfolding payload
payload_injective a b w v e =
    let (d, p) =
      append_cancel 13 (33 ∷ 137 ∷ a.diversifier) (33 ∷ 137 ∷ b.diversifier) a.pk_d b.pk_d
        (omega (arith, w.diversifier_length)) (omega (arith, v.diversifier_length)) e in
    let same : a.diversifier ≡ b.diversifier = ap (drop 2) d in cc

-- Two addresses, of arrays with their lengths, that are written as the same text are the same address.
pub to_base58_string_injective :
    (blake3 : Bytes → Bytes) (bs58 : Base58) (a b : PaymentAddress)
    → IsAddress a
    → IsAddress b
    → to_base58_string blake3 bs58 a ≡ to_base58_string blake3 bs58 b
    → a ≡ b
unfolding to_base58_string bs58_encode_check payload
to_base58_string_injective blake3 bs58 a b w v e =
    payload_injective a b w v
      (append_cancel 45 (payload a) (payload b) (take 4 (blake3 (payload a)))
        (take 4 (blake3 (payload b))) (length-payload a w) (length-payload b v)
        (cc (
          bs58.decode-encode (payload a ++ take 4 (blake3 (payload a))),
          bs58.decode-encode (payload b ++ take 4 (blake3 (payload b))),
          ap bs58.decode e,
        ))).0

length-diversifier_at : (blake3 : Bytes → Bytes) (i : ℕ) → length (diversifier_at blake3 i) ≡ 11
length-diversifier_at blake3 i =
    omega (arith, length-append (to_le_bytes 8 i) (0 ∷ 0 ∷ 0 ∷ []), length-to_le_bytes 8 i)

-- Addresses for two indices below 2 ^ 64, of two keys of 32 bytes, that are the same address have the same index, and
-- belong to the same key, unless they show a collision of the hash function.
pub payment_address_injective :
    (blake3 : Bytes → Bytes) (i j : ℕ) (k l : IncomingViewKey)
    → i < 2 ^ 64
    → j < 2 ^ 64
    → length k.ivk ≡ 32
    → length l.ivk ≡ 32
    → payment_address blake3 i k ≡ payment_address blake3 j l
    → (i ≡ j) × ((k.ivk ≡ l.ivk) ⊎ Collision blake3)
unfolding payment_address
payment_address_injective blake3 i j k l hi hj hk hl e =
    let d =
      append_cancel 8 (to_le_bytes 8 i) (to_le_bytes 8 j) (replicate 3 0) (replicate 3 0)
        (length-to_le_bytes 8 i) (length-to_le_bytes 8 j)
        (ap (λ (a : PaymentAddress). a.diversifier) e) in
    (
      to_le_bytes_injective 8 i j hi hj d.0,
      elim (hash-cases blake3 (codes "NoirNet_pkd_v1" ++ (k.ivk ++ diversifier_at blake3 i))
          (codes "NoirNet_pkd_v1" ++ (l.ivk ++ diversifier_at blake3 j))
          (ap (λ (a : PaymentAddress). a.pk_d) e)) [
            | inl same ↦
                inl
                  (append_cancel 32 k.ivk l.ivk (diversifier_at blake3 i) (diversifier_at blake3 j)
                    hk hl (ap (drop 14) same)).0
            | inr c ↦ inr c
          ],
    )

prf_injective :
    (blake3 : Bytes → Bytes) (sk sl tag : Bytes)
    → length sk ≡ 32
    → length sl ≡ 32
    → prf blake3 sk tag ≡ prf blake3 sl tag
    → (sk ≡ sl) ⊎ Collision blake3
unfolding prf
prf_injective blake3 sk sl tag hk hl e =
    elim (hash-cases blake3 (codes "NoirNet_prf_v1" ++ (sk ++ tag))
      (codes "NoirNet_prf_v1" ++ (sl ++ tag)) e) [
        | inl same ↦ inl (append_cancel 32 sk sl tag tag hk hl (ap (drop 14) same)).0
        | inr c ↦ inr c
      ]

-- Two spending keys of 32 bytes whose nullifier keys agree, or whose authorization keys or outgoing keys agree, are the
-- same, unless they show a collision of the hash function.
pub to_fvk_injective :
    (blake3 : Bytes → Bytes) (k l : SpendingKey)
    → length k.sk ≡ 32
    → length l.sk ≡ 32
    → ((to_fvk blake3 k).nk ≡ (to_fvk blake3 l).nk)
      ⊎ (((to_fvk blake3 k).ak ≡ (to_fvk blake3 l).ak)
          ⊎ ((to_fvk blake3 k).ovk ≡ (to_fvk blake3 l).ovk))
    → (k.sk ≡ l.sk) ⊎ Collision blake3
unfolding to_fvk
to_fvk_injective blake3 k l hk hl e = elim e [
  | inl nk ↦ prf_injective blake3 k.sk l.sk (codes "nk") hk hl nk
  | inr (inl ak) ↦ prf_injective blake3 k.sk l.sk (codes "ak") hk hl ak
  | inr (inr ovk) ↦ prf_injective blake3 k.sk l.sk (codes "ovk") hk hl ovk
]
