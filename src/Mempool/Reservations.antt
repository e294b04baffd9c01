-- ===== src/Mempool/Reservations.antt =====
-- The reservations of the pool of crates/noirnet-mempool/src/pool.rs.
use noirnet.Prelude.{
  ℕ, ◌≡◌, refl, Bool, true, false, ◌||◌, Option, none, some, List, [], ◌∷◌, ◌++◌, arith,
  if◌then◌else◌, Bytes, bytes_eq_iff,
}
use noirnet.Prelude.Maps.{lookup, insert, remove, member, lookup-insert, lookup-remove}
use noirnet.Types.Note.{Hash32, SpendDescription}
use noirnet.Types.Transaction.{Transaction, tx_id}
use noirnet.Mempool.{PrivateMempool, remove_mined, reserve, release}
use noirnet.Mempool.Admission.{nullifiers, IsFree}

abbrev pub spends_note : Hash32 → Transaction → Bool
spends_note n tx = member n (nullifiers tx.spends)

abbrev pub note_of : Hash32 → Option Transaction → Bool
note_of n none = false
note_of n (some tx) = spends_note n tx

pub lookup-reserve :
    (txid n : Hash32) (ss : List SpendDescription) (m : List (Hash32 × Hash32))
    → lookup n (reserve txid ss m) ≡ (if member n (nullifiers ss) then some txid else lookup n m)
unfolding reserve member
lookup-reserve txid n [] m = ground arith
lookup-reserve txid n (s ∷ ss) m = ground (
  arith,
  lookup-reserve txid n ss (insert s.nullifier txid m),
  lookup-insert s.nullifier n txid m,
)

pub lookup-release :
    (n : Hash32) (ss : List SpendDescription) (m : List (Hash32 × Hash32))
    → lookup n (release ss m) ≡ (if member n (nullifiers ss) then none else lookup n m)
unfolding release member
lookup-release n [] m = ground arith
lookup-release n (s ∷ ss) m =
    ground (arith, lookup-release n ss (remove s.nullifier m), lookup-remove s.nullifier n m)

pub IsFree-member :
    (spent : Hash32 → Option Bool) (pending : List (Hash32 × Hash32)) (n : Hash32)
    (ss : List SpendDescription)
    → IsFree spent pending ss
    → member n (nullifiers ss) ≡ true
    → lookup n pending ≡ none
unfolding member
IsFree-member spent pending n [] f h = cc
IsFree-member spent pending n (s ∷ ss) f h =
    ground (arith, IsFree-member spent pending n ss f.1, bytes_eq_iff s.nullifier n)

-- Each note that a transaction of the pool spends is reserved for it.
abbrev pub IsReserved : PrivateMempool → Type 0
IsReserved s =
    (id n : Hash32) (tx : Transaction)
    → lookup id s.txs ≡ some tx
    → spends_note n tx ≡ true
    → lookup n s.pending_nullifiers ≡ some id

module _ (blake3 : Bytes → Bytes) (serialize : Transaction → Bytes)
    (serialized_size : Transaction → Option ℕ) where
  -- A mined transaction is, among those of the pool, the only one to spend its notes.
  abbrev pub IsOwnSpender : Transaction → PrivateMempool → Type 0
  IsOwnSpender tx s =
      (n id : Hash32)
      → spends_note n tx ≡ true
      → lookup n s.pending_nullifiers ≡ some id
      → id ≡ tx_id blake3 serialize tx

  -- The ids, and the nullifiers, of some transactions.
  abbrev pub ids_of : List Transaction → List Hash32
  ids_of [] = []
  ids_of (tx ∷ txs) = tx_id blake3 serialize tx ∷ ids_of txs

  abbrev pub all_nullifiers : List Transaction → List Hash32
  all_nullifiers [] = []
  all_nullifiers (tx ∷ txs) = nullifiers tx.spends ++ all_nullifiers txs

  member-append :
      (n : Hash32) (xs ys : List Hash32) → member n (xs ++ ys) ≡ (member n xs || member n ys)
  unfolding member
  member-append n [] ys = refl
  member-append n (x ∷ xs) ys = ground (arith, member-append n xs ys)

  -- `remove_mined` removes exactly the entries with the ids of the mined transactions, and frees
  -- exactly the nullifiers that the mined transactions spend, whoever has reserved them.
  pub remove_mined_lem :
      (mined_txs : List Transaction) (s : PrivateMempool) (id n : Hash32)
      → let t = remove_mined blake3 serialize serialized_size mined_txs s in
        (lookup id t.txs ≡ (if member id (ids_of mined_txs) then none else lookup id s.txs))
        × (lookup n t.pending_nullifiers
            ≡ (if member n (all_nullifiers mined_txs) then none else lookup n s.pending_nullifiers))
  unfolding remove_mined member
  remove_mined_lem [] s id n = (ground arith, ground arith)
  remove_mined_lem (tx ∷ txs) s id n =
      let txid = tx_id blake3 serialize tx in
      let r : PrivateMempool = record {
        txs = remove txid s.txs;
        pending_nullifiers = release tx.spends s.pending_nullifiers;
      } in
      let (one, two) = remove_mined_lem txs r id n in
      (
        ground (arith, one, lookup-remove txid id s.txs),
        ground (
          arith,
          two,
          lookup-release n tx.spends s.pending_nullifiers,
          member-append n (nullifiers tx.spends) (all_nullifiers txs),
        ),
      )

  pub remove_mined-IsReserved :
      (tx : Transaction) (s : PrivateMempool)
      → IsOwnSpender tx s
      → IsReserved s
      → IsReserved (remove_mined blake3 serialize serialized_size (tx ∷ []) s)
  unfolding remove_mined
  remove_mined-IsReserved tx s own w id n ty h q = ground (
    arith,
    lookup-remove (tx_id blake3 serialize tx) id s.txs,
    lookup-release n tx.spends s.pending_nullifiers,
    w id n ty,
    own n id,
    bytes_eq_iff (tx_id blake3 serialize tx) id,
  )
