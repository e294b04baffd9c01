-- ===== src/Vm/Gas.antt =====
-- Gas and what a contract leaves behind, in the host functions of crates/noirnet-vm/src/host.rs.
use noirnet.Prelude.{
  ℕ, ◌+◌, ◌*◌, ◌≤◌, ◌≡◌, refl, ◌∙◌, inl, inr, Option, none, some, List, [], ◌∷◌, arith, length,
  length-append, Result, ok, err, Bytes,
}
use noirnet.Prelude.{Result-split}
use noirnet.Prelude.Maps.{length-insert}
use noirnet.Vm.{
  ExecutionContext, Failure, charge_gas, read_memory, write_memory, storage_set, emit_event,
  sha3_256, storage_get, hand_over, stored, Action, set_storage, emit, hash, get_storage, compute,
  act, act_all, drop_answer,
}

-- The gas left, with 500 for each storage entry and 100 for each event.
abbrev pub budget : ExecutionContext → ℕ
budget ctx = ctx.gas_remaining + (500 * length ctx.state_diff + 100 * length ctx.events)

-- The context after a call stays within the budget of the one before, and belongs to the same contract.
abbrev pub Stays : ExecutionContext → Result ExecutionContext Failure → Type 0
Stays ctx (err e) = Unit {0}
Stays ctx (ok next) =
    (budget next ≤ budget ctx)
    × (next.existing_state ≡ ctx.existing_state)
    × (next.contract_id ≡ ctx.contract_id)

write_memory-Stays :
    (ptr : ℕ) (bytes : Bytes) (ctx base : ExecutionContext)
    → Stays base (ok ctx)
    → Stays base (write_memory ptr bytes ctx)
unfolding write_memory
write_memory-Stays ptr bytes ctx base h = ground arith

storage_set-Stays :
    (k_ptr k_len v_ptr v_len : ℕ) (ctx : ExecutionContext)
    → Stays ctx (storage_set k_ptr k_len v_ptr v_len ctx)
unfolding storage_set
storage_set-Stays k_ptr k_len v_ptr v_len ctx = elim (Result-split (read_memory k_ptr k_len ctx)) [
  | inr (e, bad) ↦ rw bad tt
  | inl (key, k) ↦ elim (Result-split (read_memory v_ptr v_len ctx)) [
    | inr (e, bad) ↦ rw (k, bad) tt
    | inl (val, v) ↦ rw (k, v) (ground (arith, length-insert key val ctx.state_diff))
  ]
]

emit_event-Stays :
    (d_ptr d_len : ℕ) (ctx : ExecutionContext) → Stays ctx (emit_event d_ptr d_len ctx)
unfolding emit_event
emit_event-Stays d_ptr d_len ctx = elim (Result-split (read_memory d_ptr d_len ctx)) [
  | inr (e, bad) ↦ rw bad tt
  | inl (bytes, b) ↦ rw b (
      ground (
        arith,
        length-append ctx.events (record { contract = ctx.contract_id; data_bytes = bytes } ∷ []),
      ))
]

-- A charge, and what is written to memory after it.
charge_gas-Stays : (amount : ℕ) (ctx : ExecutionContext) → Stays ctx (charge_gas amount ctx)
unfolding charge_gas
charge_gas-Stays amount ctx = ground arith

sha3_256-Stays :
    (blake3 : Bytes → Bytes) (in_ptr in_len out_ptr : ℕ) (ctx : ExecutionContext)
    → Stays ctx (sha3_256 blake3 in_ptr in_len out_ptr ctx)
unfolding sha3_256
sha3_256-Stays blake3 in_ptr in_len out_ptr ctx =
    elim (Result-split (read_memory in_ptr in_len ctx)) [
      | inr (e, bad) ↦ rw bad tt
      | inl (bytes, b) ↦ elim (Result-split (charge_gas (50 + length bytes * 5) ctx)) [
        | inr (e, bad) ↦ rw (b, bad) tt
        | inl (charged, c) ↦
            rw (b, c)
              (write_memory-Stays out_ptr (blake3 bytes) charged ctx
                (rw c at (charge_gas-Stays (50 + length bytes * 5) ctx)))
      ]
    ]

hand_over-Stays :
    (out_ptr : ℕ) (v : Option Bytes) (ctx base : ExecutionContext)
    → Stays base (ok ctx)
    → Stays base (hand_over out_ptr v ctx)
hand_over-Stays out_ptr none ctx base h = h
hand_over-Stays out_ptr (some v) ctx base h = write_memory-Stays out_ptr v ctx base h

storage_get-Stays :
    (k_ptr k_len out_ptr : ℕ) (ctx : ExecutionContext)
    → Stays ctx (drop_answer (storage_get k_ptr k_len out_ptr ctx))
unfolding storage_get
storage_get-Stays k_ptr k_len out_ptr ctx = elim (Result-split (read_memory k_ptr k_len ctx)) [
  | inr (e, bad) ↦ rw bad tt
  | inl (key, k) ↦ elim (Result-split (charge_gas (200 + length key * 5) ctx)) [
    | inr (e, bad) ↦ rw (k, bad) tt
    | inl (charged, c) ↦
        let kept =
          hand_over-Stays out_ptr (stored key charged) charged ctx
            (rw c at (charge_gas-Stays (200 + length key * 5) ctx)) in
        elim (Result-split (hand_over out_ptr (stored key charged) charged)) [
          | inr (e, bad) ↦ rw (k, c, bad) tt
          | inl (written, w) ↦ rw (k, c, w) (rw w at kept)
        ]
  ]
]

act-Stays :
    (blake3 : Bytes → Bytes) (a : Action) (ctx : ExecutionContext) → Stays ctx (act blake3 a ctx)
unfolding act
act-Stays blake3 (set_storage k_ptr k_len v_ptr v_len) ctx =
    storage_set-Stays k_ptr k_len v_ptr v_len ctx
act-Stays blake3 (emit d_ptr d_len) ctx = emit_event-Stays d_ptr d_len ctx
act-Stays blake3 (hash in_ptr in_len out_ptr) ctx = sha3_256-Stays blake3 in_ptr in_len out_ptr ctx
act-Stays blake3 (get_storage k_ptr k_len out_ptr) ctx = storage_get-Stays k_ptr k_len out_ptr ctx
act-Stays blake3 (compute bytes) ctx = (omega arith, refl, refl)

Stays-trans :
    (base ctx : ExecutionContext) (r : Result ExecutionContext Failure)
    → Stays base (ok ctx)
    → Stays ctx r
    → Stays base r
Stays-trans base ctx (err e) h k = tt
Stays-trans base ctx (ok next) h k = (omega (arith, h.0, k.0), k.1 ∙ h.1, k.2 ∙ h.2)

act_all-Stays :
    (blake3 : Bytes → Bytes) (actions : List Action) (ctx : ExecutionContext)
    → Stays ctx (act_all blake3 actions ctx)
unfolding act_all
act_all-Stays blake3 [] ctx = (omega arith, refl, refl)
act_all-Stays blake3 (a ∷ rest) ctx = elim (Result-split (act blake3 a ctx)) [
  | inr (e, bad) ↦ rw bad tt
  | inl (next, n) ↦ rw n (
      Stays-trans ctx next (act_all blake3 rest next) (rw n at (act-Stays blake3 a ctx))
        (act_all-Stays blake3 rest next))
]

-- Whatever host functions a contract calls, in whatever order and with any changes of its memory in
-- between: if none of them traps, then the gas left, 500 for each storage entry and 100 for each
-- event add up to at most what they added up to before; so the gas of a call bounds what it can
-- store and emit. The state loaded before the call and the contract's id stay.
pub act_all_budget :
    (blake3 : Bytes → Bytes) (actions : List Action) (ctx next : ExecutionContext)
    → act_all blake3 actions ctx ≡ ok next
    → (next.gas_remaining + (500 * length next.state_diff + 100 * length next.events)
        ≤ ctx.gas_remaining + (500 * length ctx.state_diff + 100 * length ctx.events))
      × (next.existing_state ≡ ctx.existing_state)
      × (next.contract_id ≡ ctx.contract_id)
act_all_budget blake3 actions ctx next h = rw h at (act_all-Stays blake3 actions ctx)
