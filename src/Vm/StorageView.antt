-- ===== src/Vm/StorageView.antt =====
-- What a contract reads back through the host functions of crates/noirnet-vm/src/host.rs.
use noirnet.Prelude.{
  ℕ, ◌+◌, ◌-◌, ◌*◌, ◌%◌, ◌≤◌, ◌≡◌, refl, ap, ◌∙◌, inl, inr, some, ◌++◌, arith, ltb, if◌then◌else◌,
  ltb-false, Bool-cases, Option-cases, length, set, take, drop, length-take, ok, ◌>>=◌, u32_mod,
  Bytes, bytes_eq, bytes_eq_self,
}
use noirnet.Prelude.{Result-split, slice, slice-append}
use noirnet.Prelude.Maps.{insert, lookup-insert}
use noirnet.Vm.{
  ExecutionContext, charge_gas, read_memory, write_memory, storage_set, storage_get, hand_over,
  stored, answer,
}

-- What a successful `storage_set` did.
pub record IsStored (k_ptr k_len v_ptr v_len : ℕ) (ctx next : ExecutionContext) : Type 0 where
  pub key : Bytes
  pub val : Bytes
  pub key_read : read_memory k_ptr k_len ctx ≡ ok key
  pub val_read : read_memory v_ptr v_len ctx ≡ ok val
  pub same_memory : next.memory ≡ ctx.memory
  pub gas_paid : next.gas_remaining + (500 + length val * 10) ≡ ctx.gas_remaining
  pub view :
      (other : Bytes)
      → stored other next ≡ (if bytes_eq key other then some val else stored other ctx)

pub stored-insert :
    (key val other : Bytes) (g : ℕ) (ctx : ExecutionContext)
    → stored other (record ctx { gas_remaining = g; state_diff = insert key val ctx.state_diff })
      ≡ (if bytes_eq key other then some val else stored other ctx)
unfolding stored
stored-insert key val other g ctx = ground (arith, lookup-insert key other val ctx.state_diff)

storage_set_from :
    (k_ptr k_len v_ptr v_len : ℕ) (ctx next : ExecutionContext) (key val : Bytes)
    → read_memory k_ptr k_len ctx ≡ ok key
    → read_memory v_ptr v_len ctx ≡ ok val
    → storage_set k_ptr k_len v_ptr v_len ctx ≡ ok next
    → (500 + length val * 10 ≤ ctx.gas_remaining)
      × (next ≡ record ctx {
        gas_remaining = ctx.gas_remaining - (500 + length val * 10);
        state_diff = insert key val ctx.state_diff;
      })
unfolding storage_set charge_gas
storage_set_from k_ptr k_len v_ptr v_len ctx next key val k v h =
    let g = rw (k, v) at h in (ground (arith, g), ground (arith, g))

-- A successful `storage_set` makes the value that it reads from memory the one stored under the key
-- that it reads, leaves what is stored under any other key and the memory, and costs 500 and ten for
-- each byte.
pub storage_set-IsStored :
    (k_ptr k_len v_ptr v_len : ℕ) (ctx next : ExecutionContext)
    → storage_set k_ptr k_len v_ptr v_len ctx ≡ ok next
    → IsStored k_ptr k_len v_ptr v_len ctx next
unfolding storage_set
storage_set-IsStored k_ptr k_len v_ptr v_len ctx next h =
    elim (Result-split (read_memory k_ptr k_len ctx)) [
      | inr (e, bad) ↦ cc (rw bad at h)
      | inl (key, k) ↦ elim (Result-split (read_memory v_ptr v_len ctx)) [
        | inr (e, bad) ↦ cc (rw (k, bad) at h)
        | inl (val, v) ↦
            let (paid, e) = storage_set_from k_ptr k_len v_ptr v_len ctx next key val k v h in
            record {
              key = key;
              val = val;
              key_read = k;
              val_read = v;
              same_memory = ap (λ (c : ExecutionContext). c.memory) e;
              gas_paid = omega (arith, paid, ap (λ (c : ExecutionContext). c.gas_remaining) e);
              view = λ other. ap (stored other) e ∙ stored-insert key val other _ ctx;
            }
      ]
    ]

read_memory-same :
    (ptr len : ℕ) (ctx next : ExecutionContext)
    → next.memory ≡ ctx.memory
    → read_memory ptr len next ≡ read_memory ptr len ctx
unfolding read_memory
read_memory-same ptr len ctx next e = rw e refl

-- The value stands in the memory at the place asked for, and `n` is its length.
abbrev pub IsHandedOver : ℕ → Bytes → ExecutionContext → ℕ → Type 0
IsHandedOver out_ptr val final n =
    (n ≡ length val % u32_mod)
    × ((mem : Bytes) × (final.memory ≡ some mem) × (slice out_ptr (out_ptr + length val) mem ≡ val))

written :
    (out_ptr : ℕ) (val mem : Bytes)
    → out_ptr + length val ≤ length mem
    → slice out_ptr
        (out_ptr + length val)
        (take out_ptr mem ++ (val ++ drop (out_ptr + length val) mem))
      ≡ val
written out_ptr val mem h =
    slice-append out_ptr (out_ptr + length val) (take out_ptr mem) val
      (drop (out_ptr + length val) mem) (omega (arith, length-take out_ptr mem)) (omega arith)

write_memory-written :
    (out_ptr : ℕ) (val : Bytes) (ctx final : ExecutionContext)
    → write_memory out_ptr val ctx ≡ ok final
    → (mem : Bytes) × (final.memory ≡ some mem) × (slice out_ptr (out_ptr + length val) mem ≡ val)
unfolding write_memory
write_memory-written out_ptr val ctx final h = elim (Option-cases ctx.memory) [
  | inl bad ↦ cc (rw bad at h)
  | inr (mem, m) ↦ elim (Bool-cases (ltb (length mem) (out_ptr + length val))) [
    | inl bad ↦ cc (rw (m, bad) at h)
    | inr fits ↦ (
      take out_ptr mem ++ (val ++ drop (out_ptr + length val) mem),
      ground (arith, rw (m, fits) at h),
      written out_ptr val mem (ltb-false _ _ fits),
    )
  ]
]

stored-charge_gas :
    (amount : ℕ) (key : Bytes) (ctx charged : ExecutionContext)
    → charge_gas amount ctx ≡ ok charged
    → stored key charged ≡ stored key ctx
unfolding charge_gas stored
stored-charge_gas amount key ctx charged h = elim (Bool-cases (ltb ctx.gas_remaining amount)) [
  | inl bad ↦ cc (rw bad at h)
  | inr paid ↦ ground (arith, rw paid at h)
]

-- After the charge, the value goes to memory and its length comes back.
get_charged :
    (key val : Bytes) (out_ptr : ℕ) (charged final : ExecutionContext) (n : ℕ)
    → stored key charged ≡ some val
    → ◌>>=◌ {B = ExecutionContext × ℕ}
        (hand_over out_ptr (stored key charged) charged)
        (λ out. ok (out, answer (stored key charged)))
      ≡ ok (final, n)
    → IsHandedOver out_ptr val final n
get_charged key val out_ptr charged final n found h =
    elim (Result-split (write_memory out_ptr val charged)) [
      | inr (e, bad) ↦ cc (rw (found, bad) at h)
      | inl (out, done) ↦
          let e = rw (found, done) at h in
          (
            ground (arith, e),
            write_memory-written out_ptr val charged final (ground (arith, done, e)),
          )
    ]

get_stored :
    (k_ptr k_len out_ptr : ℕ) (ctx final : ExecutionContext) (n : ℕ) (key val : Bytes)
    → read_memory k_ptr k_len ctx ≡ ok key
    → stored key ctx ≡ some val
    → storage_get k_ptr k_len out_ptr ctx ≡ ok (final, n)
    → IsHandedOver out_ptr val final n
unfolding storage_get
get_stored k_ptr k_len out_ptr ctx final n key val k found h =
    elim (Result-split (charge_gas (200 + length key * 5) ctx)) [
      | inr (e, bad) ↦ cc (rw (k, bad) at h)
      | inl (charged, c) ↦
          get_charged key val out_ptr charged final n
            (stored-charge_gas (200 + length key * 5) key ctx charged c ∙ found) (rw (k, c) at h)
    ]

-- What a contract has stored it reads back: a `storage_get` of the same key right after a successful
-- `storage_set` answers, if it does not trap, with the length of the value, as a 32-bit integer that wraps, and writes the value to
-- the memory at the place asked for.
pub storage_get-storage_set :
    (k_ptr k_len v_ptr v_len out_ptr : ℕ) (ctx next final : ExecutionContext) (n : ℕ) (val : Bytes)
    → storage_set k_ptr k_len v_ptr v_len ctx ≡ ok next
    → read_memory v_ptr v_len ctx ≡ ok val
    → storage_get k_ptr k_len out_ptr next ≡ ok (final, n)
    → IsHandedOver out_ptr val final n
storage_get-storage_set k_ptr k_len v_ptr v_len out_ptr ctx next final n val set read get =
    let w = storage_set-IsStored k_ptr k_len v_ptr v_len ctx next set in
    let key_again : read_memory k_ptr k_len next ≡ ok w.key =
      read_memory-same k_ptr k_len ctx next w.same_memory ∙ w.key_read in
    let same : w.val ≡ val = ground (arith, w.val_read, read) in
    let found : stored w.key next ≡ some val =
      ground (arith, w.view w.key, bytes_eq_self w.key, same) in
    get_stored k_ptr k_len out_ptr next final n w.key val key_again found get
