-- ===== src/Tests/MempoolTests.antt =====
-- The theorems about crates/noirnet-mempool at concrete inputs.
use noirnet.Prelude.{
  ◌^◌, ◌+◌, ℕ, ◌≤◌, ◌≡◌, refl, ◌⊎◌, Bool, true, false, Option, none, some, List, [], ◌∷◌,
  if◌then◌else◌, length, replicate, retain, All, ok, is_ok, Bytes, bytes_eq,
}
use mathlib.Core.List.{Perm}
use mathlib.Core.List.Perm
use noirnet.Prelude.Maps.{lookup, insert, member}
use noirnet.Types.Transaction.{Transaction, tx_id, validate_format}
use noirnet.Tests.Data.{toy_hash, tx_a, tx_b}
use noirnet.Mempool.{
  PrivateMempool, new, admit, enter, submit, reserve, remove_mined, select_for_block,
  get_all_transactions,
}
use noirnet.Mempool.Admission.{IsAdmissible, submit_lem}
use noirnet.Mempool.Reservations.{spends_note, remove_mined_lem, ids_of, all_nullifiers}
use noirnet.Mempool.Overlaps.{Reaches, start, checked, entered, here, reached-no_conflict}
use noirnet.Mempool.Blocks.{gas, valid, IsWithin, HasFallingFees, select_for_block_lem}

-- A serialization that tells the transactions of the tests apart.
abbrev toy_serialize : Transaction → Bytes
toy_serialize tx = tx.gas_limit ∷ tx.fee ∷ []

abbrev toy_size : Transaction → Option ℕ
toy_size tx = some 300

abbrev unspent : Bytes → Option Bool
unspent n = some false

abbrev pool_a : PrivateMempool
pool_a = (submit toy_hash toy_serialize toy_size unspent tx_a new).0

submit_lem_example :
    let txid = tx_id toy_hash toy_serialize tx_b in
    let (t, result) = submit toy_hash toy_serialize toy_size unspent tx_b pool_a in
    (IsAdmissible toy_hash toy_serialize toy_size unspent tx_b pool_a
      × (result ≡ ok tt)
      × (t ≡ record {
        txs = insert txid tx_b pool_a.txs;
        pending_nullifiers = reserve txid tx_b.spends pool_a.pending_nullifiers;
      }))
    ⊎ ((¬ IsAdmissible toy_hash toy_serialize toy_size unspent tx_b pool_a)
        × (is_ok result ≡ false)
        × (t ≡ pool_a))
submit_lem_example = submit_lem toy_hash toy_serialize toy_size unspent tx_b pool_a

abbrev id_a : Bytes
id_a = tx_id toy_hash toy_serialize tx_a

admitted_a : admit toy_hash toy_serialize toy_size unspent tx_a new ≡ ok tt
unfolding admit new validate_format lookup bytes_eq tx_id member
admitted_a = refl

reached_a : Reaches toy_hash toy_serialize toy_size [] pool_a
unfolding submit enter admit new validate_format lookup bytes_eq tx_id member
reached_a = entered (checked start unspent tx_a admitted_a tt) tx_a here

found_a : lookup id_a pool_a.txs ≡ some tx_a
unfolding lookup submit new validate_format insert bytes_eq tx_id
found_a = refl

spends_a : spends_note (replicate 32 6) tx_a ≡ true
unfolding member bytes_eq
spends_a = refl

reached-no_conflict_example : id_a ≡ id_a
reached-no_conflict_example =
    reached-no_conflict toy_hash toy_serialize toy_size [] pool_a id_a id_a (replicate 32 6) tx_a
      tx_a reached_a found_a found_a spends_a spends_a

remove_mined_lem_example :
    let t = remove_mined toy_hash toy_serialize toy_size (tx_b ∷ []) pool_a in
    (lookup id_a t.txs ≡ (
      if member id_a (ids_of toy_hash toy_serialize toy_size (tx_b ∷ []))
      then none
      else lookup id_a pool_a.txs))
    × (lookup (replicate 32 6) t.pending_nullifiers ≡ (
        if member (replicate 32 6) (all_nullifiers toy_hash toy_serialize toy_size (tx_b ∷ []))
        then none
        else lookup (replicate 32 6) pool_a.pending_nullifiers))
remove_mined_lem_example =
    remove_mined_lem toy_hash toy_serialize toy_size (tx_b ∷ []) pool_a id_a (replicate 32 6)

select_for_block_lem_example :
    let selected = select_for_block toy_hash toy_serialize toy_size (λ txs. txs) 5 1_000 pool_a in
    (length selected ≤ 5)
    × ((gas selected ≤ 1_000) ⊎ (2 ^ 64 ≤ 1_000 + 10_000_000))
    × All (λ tx. validate_format toy_size tx ≡ ok tt) selected
    × ((candidates : List Transaction) × Perm candidates
          (retain (valid toy_hash toy_serialize toy_size) (get_all_transactions pool_a))
        × HasFallingFees candidates
        × IsWithin selected candidates)
select_for_block_lem_example =
    select_for_block_lem toy_hash toy_serialize toy_size (λ txs. txs) 5 1_000 pool_a
      (λ txs. Perm.refl txs)
