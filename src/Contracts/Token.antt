-- ===== src/Contracts/Token.antt =====
-- contracts/token/src/lib.rs over the host functions that it declares. A host is what the contract sees
-- of crates/noirnet-vm: values under keys, and events. A buffer that the host fills starts as eight
-- zeros; a longer value would be written past it, and here is cut.
pub mod Supply
use noirnet.Prelude.{
  ℕ, ◌+◌, ◌-◌, ◌/◌, ◌≡◌, refl, Option, none, some, [], ◌∷◌, ◌++◌, ltb, if◌then◌else◌, take,
  replicate, add_u64, Bytes, bytes_eq, to_le_bytes, from_le_bytes,
}
use noirnet.Prelude.{codes}
use noirnet.Vm.{ExecutionContext, stored}
use noirnet.Prelude.Maps.{insert}
use noirnet.Vm.StorageView.{stored-insert}

-- The host as the contract uses it, with what the contract relies on.
pub record Host (S : Type 0) : Type 0 where
  pub storage_set : Bytes → Bytes → S → S
  pub storage_get : Bytes → S → Option Bytes
  pub emit_event : Bytes → S → S
  pub get-set :
      (key value other : Bytes) (s : S)
      → storage_get other (storage_set key value s)
        ≡ (if bytes_eq key other then some value else storage_get other s)
  pub get-emit :
      (event key : Bytes) (s : S) → storage_get key (emit_event event s) ≡ storage_get key s

-- The virtual machine is such a host, where a call neither runs out of gas nor leaves its memory.
unfoldable pub vm_set : Bytes → Bytes → ExecutionContext → ExecutionContext
vm_set key value ctx = record ctx {
  gas_remaining = ctx.gas_remaining;
  state_diff = insert key value ctx.state_diff;
}

unfoldable pub vm_emit : Bytes → ExecutionContext → ExecutionContext
vm_emit event ctx = record ctx {
  events = ctx.events ++ record { contract = ctx.contract_id; data_bytes = event } ∷ [];
}

pub vm_emit-stored :
    (event key : Bytes) (ctx : ExecutionContext) → stored key (vm_emit event ctx) ≡ stored key ctx
unfolding vm_emit stored
vm_emit-stored event key ctx = refl

pub vm_set-stored :
    (key value other : Bytes) (ctx : ExecutionContext)
    → stored other (vm_set key value ctx)
      ≡ (if bytes_eq key other then some value else stored other ctx)
unfolding vm_set
vm_set-stored key value other ctx = stored-insert key value other ctx.gas_remaining ctx

abbrev pub vm_host : Host ExecutionContext
vm_host = record {
  storage_set = vm_set;
  storage_get = stored;
  emit_event = vm_emit;
  get-set = vm_set-stored;
  get-emit = vm_emit-stored;
}

unfoldable pub treasury : Bytes
treasury = replicate 32 0

unfoldable pub recipient : Bytes
recipient = replicate 32 1

abbrev pub amount : ℕ
amount = 1_000

abbrev pub total_supply : ℕ
total_supply = 1_000_000_000

unfoldable pub balance_key : Bytes → Bytes
balance_key account = codes "bal:" ++ account

module _ {S : Type 0} (host : Host S) where
  abbrev pub decoded : Option Bytes → ℕ
  decoded none = 0
  decoded (some v) = from_le_bytes (take 8 (v ++ replicate 8 0))

  unfoldable pub get_balance : Bytes → S → ℕ
  get_balance account s = decoded (host.storage_get (balance_key account) s)

  unfoldable pub set_balance : Bytes → ℕ → S → S
  set_balance account amount s = host.storage_set (balance_key account) (to_le_bytes 8 amount) s

  unfoldable pub init : S → S
  unfolding set_balance
  init s =
      let funded = set_balance treasury total_supply s in
      let supplied = host.storage_set (codes "TOTAL_SUPPLY") (to_le_bytes 8 total_supply) funded in
      let decimals = host.storage_set (codes "DECIMALS") (8 ∷ []) supplied in
      let symbol = host.storage_set (codes "SYMBOL") (codes "NOIR") decimals in
      let named = host.storage_set (codes "NAME") (codes "NoirNet Token") symbol in
      host.emit_event (codes "TokenInitialized:1000000000") named

  unfoldable pub transfer : S → S
  unfolding get_balance set_balance
  transfer s =
      let from_balance = get_balance treasury s in
      let to_balance = get_balance recipient s in
      if ltb from_balance amount
      then host.emit_event (codes "TransferFailed:InsufficientBalance") s
      else host.emit_event (codes "Transfer:1000") (
          set_balance recipient (add_u64 to_balance amount)
            (set_balance treasury (from_balance - amount) s))
