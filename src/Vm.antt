-- ===== src/Vm.antt =====
-- crates/noirnet-vm: the gas and the memory of runtime.rs and the host functions of host.rs. The
-- engine and the contract code belong to wasmtime; the memory of the instance stands in the context
-- as its bytes, and its absence makes the code panic. A trap carries the error that the code turns into text.
pub mod Gas
pub mod StorageView
pub mod Runtime
use noirnet.Prelude.{
  ℕ, ◌+◌, ◌-◌, ◌*◌, ◌/◌, ◌%◌, not, Option, none, some, List, [], ◌∷◌, ◌++◌, ltb, if◌then◌else◌,
  length, take, drop, Result, ok, err, ◌>>=◌, ◌>>◌, u32_mod, Bytes,
}
use noirnet.Prelude.Maps.{lookup, insert}
use noirnet.Types.Note.{Hash32}

pub data VmError : Type 0 where
  wasmtime_error : Bytes → VmError
  out_of_gas memory_violation invalid_module : VmError

-- How a host function fails: by a trap, or by a panic of the node.
pub data Failure : Type 0 where
  trap : VmError → Failure
  panic : Failure

pub record ContractEvent : Type 0 where
  pub contract : Hash32
  pub data_bytes : Bytes

pub record ExecutionContext : Type 0 where
  pub contract_id : Hash32
  pub caller_commitment : Bytes
  pub gas_remaining : ℕ
  pub state_diff : List (Bytes × Bytes)
  pub existing_state : List (Bytes × Bytes)
  pub events : List ContractEvent
  pub memory : Option Bytes

pub record ExecutionResult : Type 0 where
  pub return_data : Bytes
  pub gas_used : ℕ
  pub state_changes : List (Bytes × Bytes)
  pub events : List ContractEvent

unfoldable pub charge_gas : ℕ → ExecutionContext → Result ExecutionContext Failure
charge_gas amount ctx =
    if ltb ctx.gas_remaining amount
    then err (trap out_of_gas)
    else ok (record ctx { gas_remaining = ctx.gas_remaining - amount })

-- `ptr` and `len` have 32 bits, so `ptr + len` does not wrap on 64.
unfoldable pub read_memory : ℕ → ℕ → ExecutionContext → Result Bytes Failure
read_memory ptr len ctx = elim ctx.memory [
  | none ↦ err panic
  | some mem ↦
      if ltb (length mem) (ptr + len)
      then err (trap memory_violation)
      else ok (take len (drop ptr mem))
]

unfoldable pub write_memory : ℕ → Bytes → ExecutionContext → Result ExecutionContext Failure
write_memory ptr bytes ctx = elim ctx.memory [
  | none ↦ err panic
  | some mem ↦
      if ltb (length mem) (ptr + length bytes)
      then err (trap memory_violation)
      else ok
          (record ctx { memory = some (take ptr mem ++ (bytes ++ drop (ptr + length bytes) mem)) })
]

unfoldable pub storage_set : ℕ → ℕ → ℕ → ℕ → ExecutionContext → Result ExecutionContext Failure
unfolding read_memory charge_gas
storage_set k_ptr k_len v_ptr v_len ctx = do
  key ← read_memory k_ptr k_len ctx
  val ← read_memory v_ptr v_len ctx
  charged ← charge_gas (500 + length val * 10) ctx
  ok (record charged { state_diff = insert key val charged.state_diff })

unfoldable pub emit_event : ℕ → ℕ → ExecutionContext → Result ExecutionContext Failure
unfolding read_memory charge_gas
emit_event d_ptr d_len ctx = do
  bytes ← read_memory d_ptr d_len ctx
  charged ← charge_gas (100 + length bytes * 5) ctx
  ok (record charged {
    events = charged.events ++ record { contract = charged.contract_id; data_bytes = bytes } ∷ [];
  })

-- The host function of this name hashes with BLAKE3.
unfoldable pub sha3_256 :
    (Bytes → Bytes) → ℕ → ℕ → ℕ → ExecutionContext → Result ExecutionContext Failure
unfolding read_memory charge_gas write_memory
sha3_256 blake3 in_ptr in_len out_ptr ctx = do
  bytes ← read_memory in_ptr in_len ctx
  charged ← charge_gas (50 + length bytes * 5) ctx
  write_memory out_ptr (blake3 bytes) charged

-- First what this run has written, then what was there before.
unfoldable pub stored : Bytes → ExecutionContext → Option Bytes
stored key ctx = elim (lookup key ctx.state_diff) [
  | some v ↦ some v
  | none ↦ lookup key ctx.existing_state
]

-- The 32-bit pattern of the signed integer that is returned: that of -1, or the length, wrapped around.
abbrev pub answer : Option Bytes → ℕ
answer none = u32_mod - 1
answer (some v) = length v % u32_mod

abbrev pub hand_over : ℕ → Option Bytes → ExecutionContext → Result ExecutionContext Failure
hand_over out_ptr none ctx = ok ctx
hand_over out_ptr (some v) ctx = write_memory out_ptr v ctx

unfoldable pub storage_get : ℕ → ℕ → ℕ → ExecutionContext → Result (ExecutionContext × ℕ) Failure
unfolding read_memory charge_gas stored
storage_get k_ptr k_len out_ptr ctx = do
  key ← read_memory k_ptr k_len ctx
  charged ← charge_gas (200 + length key * 5) ctx
  written ← hand_over out_ptr (stored key charged) charged
  ok (written, answer (stored key charged))

-- What a contract does: it calls the host, or changes its memory.
pub data Action : Type 0 where
  set_storage : ℕ → ℕ → ℕ → ℕ → Action
  emit : ℕ → ℕ → Action
  hash : ℕ → ℕ → ℕ → Action
  get_storage : ℕ → ℕ → ℕ → Action
  compute : Bytes → Action

abbrev pub drop_answer : Result (ExecutionContext × ℕ) Failure → Result ExecutionContext Failure
drop_answer (ok r) = ok r.0
drop_answer (err e) = err e

unfoldable pub act : (Bytes → Bytes) → Action → ExecutionContext → Result ExecutionContext Failure
unfolding storage_set emit_event sha3_256 storage_get
act blake3 (set_storage k_ptr k_len v_ptr v_len) ctx = storage_set k_ptr k_len v_ptr v_len ctx
act blake3 (emit d_ptr d_len) ctx = emit_event d_ptr d_len ctx
act blake3 (hash in_ptr in_len out_ptr) ctx = sha3_256 blake3 in_ptr in_len out_ptr ctx
act blake3 (get_storage k_ptr k_len out_ptr) ctx = drop_answer (storage_get k_ptr k_len out_ptr ctx)
act blake3 (compute bytes) ctx = ok (record ctx { memory = some bytes })

unfoldable pub act_all :
    (Bytes → Bytes) → List Action → ExecutionContext → Result ExecutionContext Failure
unfolding act
act_all blake3 [] ctx = ok ctx
act_all blake3 (a ∷ rest) ctx = act blake3 a ctx >>= act_all blake3 rest
