-- ===== src/Mempool/Overlaps.antt =====
-- Overlapping calls of `insert` on the pool of crates/noirnet-mempool/src/pool.rs, each its checks and then its entry.
use noirnet.Prelude.{
  ℕ, ◌≡◌, ◌≢◌, ok, ap, inl, inr, Bool, true, false, ◌&&◌, Option, none, some, List, [], ◌∷◌, arith,
  Bytes, bytes_eq_iff, All,
}
use noirnet.Prelude.{Result, err, Result-cases}
use noirnet.Prelude.Maps.{lookup, insert, lookup-insert}
use noirnet.Types.Note.{Hash32}
use noirnet.Types.Transaction.{Transaction, tx_id}
use noirnet.Mempool.{
  MempoolError, PrivateMempool, new, submit, submit_both, enter, admit, remove_mined,
}
use noirnet.Mempool.Admission.{admit-IsAdmissible}
use noirnet.Mempool.Reservations.{
  spends_note, note_of, lookup-reserve, lookup-release, IsFree-member, IsReserved, IsOwnSpender,
  remove_mined-IsReserved,
}

-- No note is spent by both.
abbrev pub SharesNoNote : Transaction → Transaction → Type 0
SharesNoNote tx ty = (n : Hash32) → (spends_note n tx && spends_note n ty) ≡ false

-- One transaction of a list, and the others.
pub data Picks (tx : Transaction) : List Transaction → List Transaction → Type 0 where
  here : {ts : List Transaction} → Picks tx (tx ∷ ts) ts
  there :
      {ts rest : List Transaction}
      → (ty : Transaction) → Picks tx ts rest
      → Picks tx (ty ∷ ts) (ty ∷ rest)

-- Nothing that a transaction spends is reserved.
abbrev IsUnreserved : PrivateMempool → Transaction → Type 0
IsUnreserved s tx = (n : Hash32) → spends_note n tx ≡ true → lookup n s.pending_nullifiers ≡ none

-- No two transactions share a note.
abbrev AreApart : List Transaction → Type 0
AreApart [] = Unit {0}
AreApart (tx ∷ ts) = All (SharesNoNote tx) ts × AreApart ts

All-Picks :
    (P : Transaction → Type 0) {tx : Transaction} {ts rest : List Transaction}
    → Picks tx ts rest
    → All P ts
    → P tx × All P rest
All-Picks P here w = w
All-Picks P (there ty p) (v, w) = let (one, others) = All-Picks P p w in (one, (v, others))

SharesNoNote-sym : (tx ty : Transaction) → SharesNoNote tx ty → SharesNoNote ty tx
SharesNoNote-sym tx ty h n = ground (arith, h n)

AreApart-Picks :
    {tx : Transaction} {ts rest : List Transaction}
    → Picks tx ts rest
    → AreApart ts
    → All (SharesNoNote tx) rest × AreApart rest
AreApart-Picks here w = w
AreApart-Picks {tx} (there ty p) (v, w) =
    let (one, others) = AreApart-Picks p w in
    let (apart, more) = All-Picks _ p v in ((SharesNoNote-sym ty tx apart, one), (more, others))

module _ (blake3 : Bytes → Bytes) (serialize : Transaction → Bytes)
    (serialized_size : Transaction → Option ℕ) where
  -- The pool, and the transactions whose checks `insert` has made without having entered them yet. Calls overlap in any way, each with
  -- what the chain holds at the time of its checks, but no call makes its checks while one for a transaction that spends a note of its
  -- own is under way. A refused call changes nothing.
  pub data Reaches : List Transaction → PrivateMempool → Type 0 where
    start : Reaches [] new
    checked :
        {ts : List Transaction} {s : PrivateMempool}
        → Reaches ts s
        → (spent : Hash32 → Option Bool) (tx : Transaction)
        → admit blake3 serialize serialized_size spent tx s ≡ ok tt
        → All (SharesNoNote tx) ts
        → Reaches (tx ∷ ts) s
    entered :
        {ts rest : List Transaction} {s : PrivateMempool}
        → Reaches ts s
        → (tx : Transaction) → Picks tx ts rest
        → Reaches rest (enter blake3 serialize serialized_size tx s)
    mined :
        {ts : List Transaction} {s : PrivateMempool}
        → Reaches ts s
        → (tx : Transaction) → IsOwnSpender blake3 serialize serialized_size tx s
        → Reaches ts (remove_mined blake3 serialize serialized_size (tx ∷ []) s)

  enter-IsReserved :
      (tx : Transaction) (s : PrivateMempool)
      → IsUnreserved s tx
      → IsReserved s
      → IsReserved (enter blake3 serialize serialized_size tx s)
  unfolding enter
  enter-IsReserved tx s free w id n ty h q =
      let txid = tx_id blake3 serialize tx in
      ground (
        arith,
        lookup-insert txid id tx s.txs,
        lookup-reserve txid n tx.spends s.pending_nullifiers,
        free n,
        w id n ty,
        bytes_eq_iff txid id,
        ap (note_of n) h,
      )

  enter-IsUnreserved :
      (tx ty : Transaction) (s : PrivateMempool)
      → SharesNoNote tx ty
      → IsUnreserved s ty
      → IsUnreserved (enter blake3 serialize serialized_size tx s) ty
  unfolding enter
  enter-IsUnreserved tx ty s apart free n q = ground (
    arith,
    lookup-reserve (tx_id blake3 serialize tx) n tx.spends s.pending_nullifiers,
    free n,
    apart n,
  )

  enter-AllUnreserved :
      (tx : Transaction) (ts : List Transaction) (s : PrivateMempool)
      → All (SharesNoNote tx) ts
      → All (IsUnreserved s) ts
      → All (IsUnreserved (enter blake3 serialize serialized_size tx s)) ts
  enter-AllUnreserved tx [] s v w = tt
  enter-AllUnreserved tx (ty ∷ ts) s v w =
      (enter-IsUnreserved tx ty s v.0 w.0, enter-AllUnreserved tx ts s v.1 w.1)

  remove_mined-AllUnreserved :
      (tx : Transaction) (ts : List Transaction) (s : PrivateMempool)
      → All (IsUnreserved s) ts
      → All (IsUnreserved (remove_mined blake3 serialize serialized_size (tx ∷ []) s)) ts
  unfolding remove_mined
  remove_mined-AllUnreserved tx [] s w = tt
  remove_mined-AllUnreserved tx (ty ∷ ts) s w = (
    λ n q. ground (arith, lookup-release n tx.spends s.pending_nullifiers, w.0 n q),
    remove_mined-AllUnreserved tx ts s w.1,
  )

  -- What holds at every point: the reservations are made, and the calls under way find nothing reserved and share no note.
  abbrev IsOrderly : List Transaction → PrivateMempool → Type 0
  IsOrderly ts s = IsReserved s × All (IsUnreserved s) ts × AreApart ts

  admit-IsUnreserved :
      (spent : Hash32 → Option Bool) (tx : Transaction) (s : PrivateMempool)
      → admit blake3 serialize serialized_size spent tx s ≡ ok tt
      → IsUnreserved s tx
  admit-IsUnreserved spent tx s h n q =
      IsFree-member spent s.pending_nullifiers n tx.spends
        (admit-IsAdmissible blake3 serialize serialized_size spent tx s h).free q

  Reaches-IsOrderly : {ts : List Transaction} {s : PrivateMempool} → Reaches ts s → IsOrderly ts s
  Reaches-IsOrderly start = (unfold new in unfold lookup in λ id n tx h q. cc, tt, tt)
  Reaches-IsOrderly (checked {ts} {s} r spent tx good apart) =
      let (w, free, others) = Reaches-IsOrderly r in
      (w, (admit-IsUnreserved spent tx s good, free), (apart, others))
  Reaches-IsOrderly (entered {ts} {rest} {s} r tx picks) =
      let (w, free, others) = Reaches-IsOrderly r in
      let (own, left) = All-Picks _ picks free in
      let (apart, more) = AreApart-Picks picks others in
      (enter-IsReserved tx s own w, enter-AllUnreserved tx rest s apart left, more)
  Reaches-IsOrderly (mined {ts} {s} r tx own) =
      let (w, free, others) = Reaches-IsOrderly r in
      (
        remove_mined-IsReserved blake3 serialize serialized_size tx s own w,
        remove_mined-AllUnreserved tx ts s free,
        others,
      )

  -- Admissions may overlap in any way, from their checks to their entry, as long as no two of them that are under way at once are of
  -- transactions that spend one note, and mined transactions may be removed with which no transaction of the pool but themselves shares
  -- a note: at every point, two transactions in the pool that spend one note are the same entry of it.
  pub reached-no_conflict :
      (ts : List Transaction) (s : PrivateMempool) (id other n : Hash32) (tx ty : Transaction)
      → Reaches ts s
      → lookup id s.txs ≡ some tx
      → lookup other s.txs ≡ some ty
      → spends_note n tx ≡ true
      → spends_note n ty ≡ true
      → id ≡ other
  reached-no_conflict ts s id other n tx ty r h k p q =
      let w = (Reaches-IsOrderly r).0 in cc (w id n tx h p, w other n ty k q)

  submit-admit :
      (spent : Hash32 → Option Bool) (tx : Transaction) (s : PrivateMempool)
      → (submit blake3 serialize serialized_size spent tx s).1 ≡ ok tt
      → admit blake3 serialize serialized_size spent tx s ≡ ok tt
  unfolding submit
  submit-admit spent tx s h =
      elim (Result-cases (admit blake3 serialize serialized_size spent tx s)) [
        | inl good ↦ good
        | inr (e, bad) ↦
            let refused : (submit blake3 serialize serialized_size spent tx s).1 ≡ err e =
              ap
                (λ (c : Result (Unit {0}) MempoolError).
                  (elim c as (λ _. PrivateMempool × Result (Unit {0}) MempoolError) [
                    | err x ↦ (s, err x)
                    | ok u ↦ (enter blake3 serialize serialized_size tx s, ok tt)
                  ]).1)
                bad in
            cc (h, refused)
      ]

  -- Where two calls overlap, so that both make their checks before either enters its transaction, two transactions that the pool would
  -- each take alone are both taken, whatever notes they share: both stand in the pool afterwards.
  pub submit_both-conflict :
      (spent : Hash32 → Option Bool) (tx ty : Transaction) (s : PrivateMempool)
      → (submit blake3 serialize serialized_size spent tx s).1 ≡ ok tt
      → (submit blake3 serialize serialized_size spent ty s).1 ≡ ok tt
      → tx_id blake3 serialize tx ≢ tx_id blake3 serialize ty
      → let t = (submit_both blake3 serialize serialized_size spent tx ty s).0 in
        (lookup (tx_id blake3 serialize tx) t.txs ≡ some tx)
        × (lookup (tx_id blake3 serialize ty) t.txs ≡ some ty)
  unfolding submit_both enter
  submit_both-conflict spent tx ty s h k apart =
      let a = tx_id blake3 serialize tx in
      let b = tx_id blake3 serialize ty in
      let m = insert a tx s.txs in
      rw (submit-admit spent tx s h, submit-admit spent ty s k)
        (
          ground (
            arith,
            lookup-insert b a ty m,
            lookup-insert a a tx s.txs,
            bytes_eq_iff b a,
            bytes_eq_iff a a,
            apart,
          ),
          ground (arith, lookup-insert b b ty m, bytes_eq_iff b b),
        )
