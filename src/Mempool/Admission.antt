-- ===== src/Mempool/Admission.antt =====
-- Which transactions the pool of crates/noirnet-mempool/src/pool.rs admits.
use noirnet.Prelude.{
  ℕ, ◌≤◌, ◌<◌, ◌≡◌, refl, ◌⊎◌, inl, inr, Bool, true, false, Option, none, some, List, [], ◌∷◌,
  arith, unwrap_or, length, All, ok, is_ok, Bytes,
}
use noirnet.Prelude.{Result-cases}
use noirnet.Prelude.Maps.{lookup, insert}
use noirnet.Types.Note.{Hash32, SpendDescription}
use noirnet.Types.Transaction.{Transaction, validate_format, tx_id}
use noirnet.Mempool.{PrivateMempool, check_spends, submit, admit, reserve}

abbrev pub nullifiers : List SpendDescription → List Hash32
nullifiers [] = []
nullifiers (s ∷ ss) = s.nullifier ∷ nullifiers ss

-- The nullifiers of the transaction are neither spent nor reserved.
abbrev pub IsFree : (Hash32 → Option Bool) → List (Hash32 × Hash32) → List SpendDescription → Type 0
IsFree spent pending = All (λ (s : SpendDescription).
    (spent s.nullifier ≡ some false) × (lookup s.nullifier pending ≡ none))

module _ (blake3 : Bytes → Bytes) (serialize : Transaction → Bytes)
    (serialized_size : Transaction → Option ℕ) (spent : Hash32 → Option Bool) where
  spent_no : (n : Hash32) → unwrap_or (spent n) true ≡ false → spent n ≡ some false
  spent_no n h = ground arith

  pub check_spends-IsFree :
      (pending : List (Hash32 × Hash32)) (spends : List SpendDescription)
      → check_spends spent pending spends ≡ ok tt
      → IsFree spent pending spends
  unfolding check_spends
  check_spends-IsFree pending [] h = tt
  check_spends-IsFree pending (s ∷ ss) h = ground (arith, check_spends-IsFree pending ss)

  pub IsFree-check_spends :
      (pending : List (Hash32 × Hash32)) (spends : List SpendDescription)
      → IsFree spent pending spends
      → check_spends spent pending spends ≡ ok tt
  unfolding check_spends
  IsFree-check_spends pending [] h = refl
  IsFree-check_spends pending (s ∷ ss) h = ground (arith, IsFree-check_spends pending ss h.1)

  -- What a transaction needs to be admitted.
  pub record IsAdmissible (tx : Transaction) (s : PrivateMempool) : Type 0 where
    pub room : length s.txs < 10_000
    pub unknown : lookup (tx_id blake3 serialize tx) s.txs ≡ none
    pub well_formed : validate_format serialized_size tx ≡ ok tt
    pub fee_paid : 10_000 ≤ tx.fee
    pub free : IsFree spent s.pending_nullifiers tx.spends

  pub admit-IsAdmissible :
      (tx : Transaction) (s : PrivateMempool)
      → admit blake3 serialize serialized_size spent tx s ≡ ok tt
      → IsAdmissible tx s
  unfolding admit
  admit-IsAdmissible tx s h = record {
    room = ground arith;
    unknown = ground arith;
    well_formed = ground arith;
    fee_paid = ground arith;
    free = ground (arith, check_spends-IsFree s.pending_nullifiers tx.spends);
  }

  IsAdmissible-admit :
      (tx : Transaction) (s : PrivateMempool)
      → IsAdmissible tx s
      → admit blake3 serialize serialized_size spent tx s ≡ ok tt
  unfolding admit
  IsAdmissible-admit tx s w =
      ground (arith, w.well_formed, IsFree-check_spends s.pending_nullifiers tx.spends w.free)

  -- A transaction is admitted exactly when there is room for it, its id is new, it is well formed, it
  -- pays the least fee, and none of its nullifiers is spent, reserved, or not to be looked up. Then it
  -- enters the pool under its id and its nullifiers are reserved for it; otherwise nothing changes.
  pub submit_lem :
      (tx : Transaction) (s : PrivateMempool)
      → let txid = tx_id blake3 serialize tx in
        let (t, result) = submit blake3 serialize serialized_size spent tx s in
        (IsAdmissible tx s
          × (result ≡ ok tt)
          × (t ≡ record {
            txs = insert txid tx s.txs;
            pending_nullifiers = reserve txid tx.spends s.pending_nullifiers;
          }))
        ⊎ ((¬ IsAdmissible tx s) × (is_ok result ≡ false) × (t ≡ s))
  unfolding submit
  submit_lem tx s = elim (Result-cases (admit blake3 serialize serialized_size spent tx s)) [
    | inl good ↦ inl (admit-IsAdmissible tx s good, ground (arith, good), ground (arith, good))
    | inr (e, bad) ↦
        inr (λ w. cc (bad, IsAdmissible-admit tx s w), ground (arith, bad), ground (arith, bad))
  ]
