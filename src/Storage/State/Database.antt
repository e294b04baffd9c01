-- ===== src/Storage/State/Database.antt =====
-- The database below crates/noirnet-storage/src/state.rs, and operations on the store that may fail.
use noirnet.Prelude.{
  ◌≡◌, Bool, true, false, ◌&&◌, Option, none, some, List, [], if◌then◌else◌, Result, ok, err, Bytes,
  bytes_eq,
}
use noirnet.Types.Transaction.{Transaction}
use noirnet.Types.Block.{Block, BlockHeader}
use noirnet.Types.Validator.{ValidatorState}
use noirnet.Storage.Merkle.{Frontier, NoteCommitmentTree}

pub data StorageError : Type 0 where
  sled_error serialization not_found invalid_transition : Bytes → StorageError
  double_spend : StorageError

-- The database crate: trees by name, and in each values by key. Each call may fail, with a text; one that
-- succeeds reads and writes the contents.
pub record Sled (Db : Type 0) : Type 0 where
  pub open_tree : Bytes → Db → Result (Unit {0}) Bytes
  pub get : Bytes → Bytes → Db → Result (Option Bytes) Bytes
  pub insert : Bytes → Bytes → Bytes → Db → Db × Result (Unit {0}) Bytes
  pub remove : Bytes → Bytes → Db → Db × Result (Option Bytes) Bytes
  pub scan_prefix : Bytes → Bytes → Db → List (Result (Bytes × Bytes) Bytes)
  pub content : Bytes → Bytes → Db → Option Bytes
  pub get-content :
      (name key : Bytes) (db : Db) (value : Option Bytes)
      → get name key db ≡ ok value
      → value ≡ content name key db
  pub insert-content :
      (name key value other k : Bytes) (db : Db)
      → (insert name key value db).1 ≡ ok tt
      → content other k (insert name key value db).0
        ≡ (if bytes_eq name other && bytes_eq key k then some value else content other k db)

-- Hashing and serialization; `none` is an error of `bincode`.
pub record Codec : Type 0 where
  pub blake3 : Bytes → Bytes
  pub serialize_tx : Transaction → Bytes
  pub serialize_header : BlockHeader → Bytes
  pub encode_block : Block → Option Bytes
  pub encode_tx : Transaction → Option Bytes
  pub encode_frontier : Frontier → Option Bytes
  pub decode_block : Bytes → Option Block
  pub decode_tx : Bytes → Option Transaction
  pub decode_validator : Bytes → Option ValidatorState
  pub decode_frontier : Bytes → Option Frontier

pub record StateStore (Db : Type 0) : Type 0 where
  pub db : Db
  pub tree : NoteCommitmentTree

abbrev pub Op {ℓ} : Type 0 → Type ℓ → Type ℓ
Op Db A = StateStore Db → StateStore Db × Result A StorageError

abbrev pub after {ℓ κ} :
    {Db : Type 0} {A : Type ℓ} {B : Type κ}
    → StateStore Db × Result A StorageError
    → (A → Op Db B)
    → StateStore Db × Result B StorageError
after (s, ok a) f = f a s
after (s, err e) f = (s, err e)

infixl 5 ◌>>=◌ ◌>>◌
abbrev pub ◌>>=◌ {ℓ κ} : {Db : Type 0} {A : Type ℓ} {B : Type κ} → Op Db A → (A → Op Db B) → Op Db B
m >>= f = λ s. after (m s) f

abbrev pub ◌>>◌ {κ} : {Db : Type 0} {B : Type κ} → Op Db (Unit {0}) → Op Db B → Op Db B
m >> k = m >>= λ _. k

abbrev pub done {ℓ} : {Db : Type 0} {A : Type ℓ} → A → Op Db A
done a = λ s. (s, ok a)

abbrev pub fail {ℓ} : {Db : Type 0} {A : Type ℓ} → StorageError → Op Db A
fail e = λ s. (s, err e)

abbrev pub reject_when : {Db : Type 0} → Bool → StorageError → Op Db (Unit {0})
reject_when true e = fail e
reject_when false e = done tt

-- `deserialize(&bytes)?`
abbrev pub decoded {ℓ} : {Db : Type 0} {A : Type ℓ} → Option A → Op Db A
decoded none = fail (serialization [])
decoded (some a) = done a

-- `serialize(v)?`
abbrev pub encoded : {Db : Type 0} → Option Bytes → Op Db Bytes
encoded none = fail (serialization [])
encoded (some bytes) = done bytes

abbrev pub sled_result {ℓ} : {A : Type ℓ} → Result A Bytes → Result A StorageError
sled_result (ok a) = ok a
sled_result (err e) = err (sled_error e)

module _ {Db : Type 0} (sled : Sled Db) where
  unfoldable pub open_tree : Bytes → Op Db (Unit {0})
  open_tree name s = (s, sled_result (sled.open_tree name s.db))

  unfoldable pub tree_get : Bytes → Bytes → Op Db (Option Bytes)
  tree_get name key s = (s, sled_result (sled.get name key s.db))

  unfoldable pub tree_insert : Bytes → Bytes → Bytes → Op Db (Unit {0})
  tree_insert name key value s =
      let (db, result) = sled.insert name key value s.db in
      (record s { db = db }, sled_result result)

  unfoldable pub tree_remove : Bytes → Bytes → Op Db (Option Bytes)
  tree_remove name key s =
      let (db, result) = sled.remove name key s.db in (record s { db = db }, sled_result result)

  unfoldable pub cf_get : Bytes → Bytes → Op Db (Option Bytes)
  cf_get name key = do open_tree name; tree_get name key

  unfoldable pub cf_put : Bytes → Bytes → Bytes → Op Db (Unit {0})
  cf_put name key value = do open_tree name; tree_insert name key value
