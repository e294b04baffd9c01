-- ===== src/Mempool.antt =====
-- crates/noirnet-mempool: pool.rs, and `split_fee` of fee_market.rs; `adjust_base_fee` computes with
-- floats. A DashMap is an association list on byte strings. `spent` is the look into the nullifier
-- store, `none` its error; `shuffle` is the order in which the map is iterated, shuffled once more.
pub mod Admission
pub mod Reservations
pub mod Overlaps
pub mod Blocks
pub mod Fees
use noirnet.Prelude.{
  ℕ, ◌+◌, ◌-◌, ◌/◌, max, Bool, true, Option, none, List, [], ◌∷◌, map, ltb, leb, if◌then◌else◌,
  is_some, unwrap_or, length, retain, Result, ok, err, ◌>>=◌, ◌>>◌, reject_if, is_ok, add_u64,
  mul_u64, Bytes,
}
use noirnet.Prelude.Maps.{lookup, insert, remove}
use noirnet.Prelude.Sorting.{sort_by}
use noirnet.Types.Constants.{max_mempool_size, min_fee, base_tx_gas}
use noirnet.Types.Note.{Hash32, SpendDescription}
use noirnet.Types.Transaction.{Transaction, TxFormatError, validate_format, tx_id}

-- `InvalidFormat` carries the text of the error; here, the error.
pub data MempoolError : Type 0 where
  full already_exists double_spend already_spent : MempoolError
  fee_too_low : ℕ → MempoolError
  invalid_format : TxFormatError → MempoolError

pub record PrivateMempool : Type 0 where
  pub txs : List (Hash32 × Transaction)
  pub pending_nullifiers : List (Hash32 × Hash32)

unfoldable pub new : PrivateMempool
new = record { txs = []; pending_nullifiers = [] }

abbrev pub contains_key {ℓ} : {V : Type ℓ} → Bytes → List (Bytes × V) → Bool
contains_key k m = is_some (lookup k m)

abbrev pub map_err : Result (Unit {0}) TxFormatError → Result (Unit {0}) MempoolError
map_err (ok u) = ok u
map_err (err e) = err (invalid_format e)

unfoldable pub reserve :
    Hash32 → List SpendDescription → List (Hash32 × Hash32) → List (Hash32 × Hash32)
reserve txid [] m = m
reserve txid (spend ∷ spends) m = reserve txid spends (insert spend.nullifier txid m)

unfoldable pub release : List SpendDescription → List (Hash32 × Hash32) → List (Hash32 × Hash32)
release [] m = m
release (spend ∷ spends) m = release spends (remove spend.nullifier m)

unfoldable pub check_spends :
    (Hash32 → Option Bool)
    → List (Hash32 × Hash32)
    → List SpendDescription
    → Result (Unit {0}) MempoolError
check_spends spent pending [] = ok tt
check_spends spent pending (spend ∷ spends) = do
  reject_if (unwrap_or (spent spend.nullifier) true) already_spent
  reject_if (contains_key spend.nullifier pending) double_spend
  check_spends spent pending spends

unfoldable pub get_all_transactions : PrivateMempool → List Transaction
get_all_transactions s = map (λ kv. kv.1) s.txs

-- The loop that fills the block, after `count` transactions with `total_gas`.
unfoldable pub fill : ℕ → ℕ → ℕ → ℕ → List Transaction → List Transaction
fill max_txs max_gas count total_gas [] = []
fill max_txs max_gas count total_gas (tx ∷ txs) =
    let gas = add_u64 total_gas tx.gas_limit in
    let skip = ltb max_gas gas in
    let rest =
      fill max_txs max_gas (if skip then count else count + 1) (if skip then total_gas else gas)
        txs in
    if leb max_txs count then [] else if skip then rest else tx ∷ rest

-- `b.fee.cmp(&a.fee)` is `Less`.
abbrev pub more_fee : Transaction → Transaction → Bool
more_fee a b = ltb b.fee a.fee

module _ (blake3 : Bytes → Bytes) (serialize : Transaction → Bytes)
    (serialized_size : Transaction → Option ℕ) where
  -- The early returns of `insert`.
  unfoldable pub admit :
      (Hash32 → Option Bool) → Transaction → PrivateMempool → Result (Unit {0}) MempoolError
  unfolding check_spends
  admit spent tx s = do
    reject_if (leb max_mempool_size (length s.txs)) full
    reject_if (contains_key (tx_id blake3 serialize tx) s.txs) already_exists
    map_err (validate_format serialized_size tx)
    reject_if (ltb tx.fee min_fee) (fee_too_low min_fee)
    check_spends spent s.pending_nullifiers tx.spends

  -- What `insert` does after its checks.
  unfoldable pub enter : Transaction → PrivateMempool → PrivateMempool
  unfolding reserve
  enter tx s = record {
    txs = insert (tx_id blake3 serialize tx) tx s.txs;
    pending_nullifiers = reserve (tx_id blake3 serialize tx) tx.spends s.pending_nullifiers;
  }

  -- `insert` with no other call between its checks and what follows them.
  unfoldable pub submit :
      (Hash32 → Option Bool)
      → Transaction
      → PrivateMempool
      → PrivateMempool × Result (Unit {0}) MempoolError
  unfolding admit enter
  submit spent tx s = elim (admit spent tx s) [ err e ↦ (s, err e) | ok u ↦ (enter tx s, ok tt) ]

  abbrev pub enter_if :
      Result (Unit {0}) MempoolError → Transaction → PrivateMempool → PrivateMempool
  enter_if (ok u) tx s = enter tx s
  enter_if (err e) tx s = s

  -- Two calls of `insert` from two tasks, where both make their checks before either of them enters its transaction.
  unfoldable pub submit_both :
      (Hash32 → Option Bool)
      → Transaction
      → Transaction
      → PrivateMempool
      → PrivateMempool × (Result (Unit {0}) MempoolError × Result (Unit {0}) MempoolError)
  unfolding admit enter
  submit_both spent tx ty s =
      let first = admit spent tx s in
      let second = admit spent ty s in (enter_if second ty (enter_if first tx s), (first, second))

  unfoldable pub remove_mined : List Transaction → PrivateMempool → PrivateMempool
  unfolding release
  remove_mined [] s = s
  remove_mined (tx ∷ txs) s = remove_mined txs (record {
    txs = remove (tx_id blake3 serialize tx) s.txs;
    pending_nullifiers = release tx.spends s.pending_nullifiers;
  })

  unfoldable pub select_for_block :
      (List Transaction → List Transaction) → ℕ → ℕ → PrivateMempool → List Transaction
  unfolding fill get_all_transactions
  select_for_block shuffle max_txs max_gas s = fill max_txs max_gas 0 0 (
      sort_by more_fee (
        shuffle
          (retain (λ tx. is_ok (validate_format serialized_size tx)) (get_all_transactions s))))

pub record FeeMarket : Type 0 where
  pub base_fee : ℕ
  pub target_block_gas : ℕ

unfoldable pub new_market : ℕ → FeeMarket
new_market target_gas = record {
  base_fee = max 1 (min_fee / base_tx_gas);
  target_block_gas = target_gas;
}

-- What is burnt, and what the proposer gets.
unfoldable pub split_fee : FeeMarket → ℕ → ℕ → ℕ × ℕ
split_fee market total_fee gas_used =
    let base_cost = mul_u64 market.base_fee gas_used in
    if ltb total_fee base_cost then (total_fee, 0) else (base_cost, total_fee - base_cost)
