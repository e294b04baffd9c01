-- ===== src/Vm/Runtime.antt =====
-- `WasmRuntime::execute` of crates/noirnet-vm/src/runtime.rs over the crate wasmtime.
use noirnet.Prelude.{
  ℕ, ◌-◌, Bool, true, false, ◌&&◌, ◌||◌, Option, none, some, [], ◌∷◌, ◌==◌, if◌then◌else◌,
  unwrap_or, Result, ok, err, ◌>>=◌, Bytes,
}
use noirnet.Prelude.{codes}
use noirnet.Vm.{
  VmError, wasmtime_error, out_of_gas, memory_violation, ExecutionContext, ExecutionResult,
}

-- A module that was compiled and linked with the host functions, in a store with a context and fuel; its memory and the
-- methods that it exports. A call yields the context and the fuel afterwards, and an error as its text.
pub record Wasmtime (Instance Method : Type 0) : Type 0 where
  pub instantiate : Bytes → ExecutionContext → ℕ → Result (Instance × ExecutionContext) Bytes
  pub get_memory : Instance → Option Bytes
  pub get_typed_func : Instance → Bytes → Option Method
  pub call : Method → ExecutionContext → ExecutionContext × Option ℕ × Result (Unit {0}) Bytes

abbrev pub as_wasmtime {ℓ} : {A : Type ℓ} → Result A Bytes → Result A VmError
as_wasmtime (ok a) = ok a
as_wasmtime (err e) = err (wasmtime_error e)

abbrev pub or_violation {ℓ} : {A : Type ℓ} → Option A → Result A VmError
or_violation none = err memory_violation
or_violation (some a) = ok a

unfoldable pub starts_with : Bytes → Bytes → Bool
starts_with text [] = true
starts_with [] (x ∷ xs) = false
starts_with (y ∷ text) (x ∷ xs) = x == y && starts_with text xs

-- `str::contains`
unfoldable pub contains_text : Bytes → Bytes → Bool
unfolding starts_with
contains_text [] wanted = starts_with [] wanted
contains_text (y ∷ text) wanted = starts_with (y ∷ text) wanted || contains_text text wanted

unfoldable pub outcome :
    ℕ → ExecutionContext → Result (Unit {0}) Bytes → Result ExecutionResult VmError
unfolding contains_text
outcome gas_used ctx (ok u) = ok (record {
  return_data = [];
  gas_used = gas_used;
  state_changes = ctx.state_diff;
  events = ctx.events;
})
outcome gas_used ctx (err e) =
    if contains_text e (codes "out of fuel") then err out_of_gas else err (wasmtime_error e)

module _ {Instance Method : Type 0} (wasmtime : Wasmtime Instance Method) where
  unfoldable pub execute : Bytes → Bytes → Bytes → ExecutionContext → Result ExecutionResult VmError
  unfolding outcome
  execute code method args ctx =
      let gas_limit = ctx.gas_remaining in
      as_wasmtime (wasmtime.instantiate code ctx gas_limit) >>= λ loaded.
      or_violation (wasmtime.get_memory loaded.0) >>= λ memory.
      or_violation (wasmtime.get_typed_func loaded.0 method) >>= λ func.
      let (after, fuel, result) = wasmtime.call func (record loaded.1 { memory = some memory }) in
      outcome (gas_limit - unwrap_or fuel 0) after result
