-- ===== src/Tests/VmTests.antt =====
-- The theorems about crates/noirnet-vm and contracts/token at concrete inputs.
use noirnet.Prelude.{
  ◌+◌, ◌-◌, ◌*◌, ◌≤◌, min, ◌≡◌, refl, some, [], ◌∷◌, arith, length, replicate, ok, Bytes, bytes_eq,
}
use noirnet.Prelude.Maps.{lookup, insert}
use noirnet.Tests.Data.{toy_hash}
use noirnet.Vm.{
  ExecutionContext, read_memory, charge_gas, storage_set, storage_get, stored, write_memory,
  set_storage, act, act_all,
}
use noirnet.Vm.Gas.{act_all_budget}
use noirnet.Vm.StorageView.{IsHandedOver, storage_get-storage_set}
use noirnet.Contracts.Token.{vm_host, treasury, recipient, total_supply, get_balance, init}
use noirnet.Contracts.Token.Supply.{transfers, transfers-conserved}

abbrev context_a : ExecutionContext
context_a = record {
  contract_id = replicate 32 9;
  caller_commitment = replicate 32 8;
  gas_remaining = 5_000;
  state_diff = [];
  existing_state = [];
  events = [];
  memory = some (1 ∷ 2 ∷ 3 ∷ 4 ∷ 5 ∷ 6 ∷ []);
}

-- After the key of two bytes at 0 got the value of three bytes at 3.
abbrev context_b : ExecutionContext
context_b = record context_a {
  gas_remaining = 4_470;
  state_diff = (1 ∷ 2 ∷ [], 4 ∷ 5 ∷ 6 ∷ []) ∷ [];
}

abbrev context_c : ExecutionContext
context_c = record context_b { gas_remaining = 4_260; memory = some (4 ∷ 5 ∷ 6 ∷ 4 ∷ 5 ∷ 6 ∷ []) }

set_a : storage_set 0 2 3 3 context_a ≡ ok context_b
unfolding storage_set read_memory charge_gas insert
set_a = refl

get_a : storage_get 0 2 0 context_b ≡ ok (context_c, 3)
unfolding storage_get read_memory charge_gas stored lookup bytes_eq write_memory
get_a = refl

read_a : read_memory 3 3 context_a ≡ ok (4 ∷ 5 ∷ 6 ∷ [])
unfolding read_memory
read_a = refl

storage_get-storage_set_example : IsHandedOver 0 (4 ∷ 5 ∷ 6 ∷ []) context_c 3
storage_get-storage_set_example =
    storage_get-storage_set 0 2 3 3 0 context_a context_b context_c 3 (4 ∷ 5 ∷ 6 ∷ []) set_a read_a
      get_a

acted_a : act_all toy_hash (set_storage 0 2 3 3 ∷ []) context_a ≡ ok context_b
unfolding act_all act storage_set read_memory charge_gas insert
acted_a = refl

act_all_budget_example :
    (context_b.gas_remaining + (500 * length context_b.state_diff + 100 * length context_b.events)
      ≤ context_a.gas_remaining
        + (500 * length context_a.state_diff + 100 * length context_a.events))
    × (context_b.existing_state ≡ context_a.existing_state)
    × (context_b.contract_id ≡ context_a.contract_id)
act_all_budget_example =
    act_all_budget toy_hash (set_storage 0 2 3 3 ∷ []) context_a context_b acted_a

empty_balance : (account : Bytes) → get_balance vm_host account context_a ≡ 0
unfolding get_balance stored lookup
empty_balance account = refl

transfers-conserved_example :
    let t = transfers vm_host 3 (init vm_host context_a) in
    (get_balance vm_host treasury t + get_balance vm_host recipient t
      ≡ total_supply + get_balance vm_host recipient context_a)
    × (get_balance vm_host treasury t ≡ total_supply - 1_000 * min 3 1_000_000)
transfers-conserved_example =
    transfers-conserved vm_host 3 context_a (omega (arith, empty_balance recipient))
