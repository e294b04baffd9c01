-- ===== src/Contracts/Token/Supply.antt =====
-- What the token of contracts/token/src/lib.rs does with its supply.
use noirnet.Prelude.{
  ℕ, zero, suc, ◌+◌, ◌-◌, ◌*◌, ◌≤◌, ◌<◌, min, ◌≡◌, refl, ap, ◌∙◌, ◌⊎◌, inl, inr, false, some, [],
  ◌∷◌, arith, ltb, ◌==◌, if◌then◌else◌, ltb→lt, ltb-false, Bool-cases, replicate, sum, u64_mod,
  add_u64, Bytes, bytes_eq, bytes_eq_self, to_le_bytes, from_le_bytes-to_le_bytes,
  length-to_le_bytes,
}
use noirnet.Prelude.{codes, take-append_eq}
use noirnet.Contracts.Token.{
  Host, treasury, recipient, total_supply, balance_key, decoded, get_balance, set_balance, init,
  transfer,
}

module _ {S : Type 0} (host : Host S) where
  decoded_round : (n : ℕ) → n < u64_mod → decoded host (some (to_le_bytes 8 n)) ≡ n
  decoded_round n h =
      rw (take-append_eq 8 (to_le_bytes 8 n) (replicate 8 0) (length-to_le_bytes 8 n))
        (from_le_bytes-to_le_bytes 8 n (omega arith))

  get_balance-set_balance :
      (account other : Bytes) (n : ℕ) (s : S)
      → n < u64_mod
      → get_balance host other (set_balance host account n s) ≡ (
          if bytes_eq (balance_key account) (balance_key other)
          then n
          else get_balance host other s)
  unfolding get_balance set_balance
  get_balance-set_balance account other n s h = ground (
    arith,
    host.get-set (balance_key account) (to_le_bytes 8 n) (balance_key other) s,
    decoded_round n h,
  )

  get_balance-emit :
      (event account : Bytes) (s : S)
      → get_balance host account (host.emit_event event s) ≡ get_balance host account s
  unfolding get_balance
  get_balance-emit event account s = ap (decoded host) (host.get-emit event (balance_key account) s)

  two_accounts : bytes_eq (balance_key treasury) (balance_key recipient) ≡ false
  unfolding bytes_eq balance_key treasury recipient
  two_accounts = refl

  two_accounts_back : bytes_eq (balance_key recipient) (balance_key treasury) ≡ false
  unfolding bytes_eq balance_key treasury recipient
  two_accounts_back = refl

  -- A transfer moves 1000 from the treasury to the recipient if the treasury has that much, as long as
  -- both balances together fit 64 bits; otherwise both stay.
  pub transfer_lem :
      (s : S)
      → get_balance host treasury s + get_balance host recipient s < u64_mod
      → let t = transfer host s in
        ((1_000 ≤ get_balance host treasury s)
          × (get_balance host treasury t + 1_000 ≡ get_balance host treasury s)
          × (get_balance host recipient t ≡ get_balance host recipient s + 1_000))
        ⊎ ((get_balance host treasury s < 1_000)
            × (get_balance host treasury t ≡ get_balance host treasury s)
            × (get_balance host recipient t ≡ get_balance host recipient s))
  unfolding transfer
  transfer_lem s fits =
      let a = get_balance host treasury s in
      let b = get_balance host recipient s in
      let less = set_balance host treasury (a - 1_000) s in
      elim (Bool-cases (ltb a 1_000)) [
        | inl poor ↦ inr (
          ltb→lt _ _ poor,
          rw poor (get_balance-emit (codes "TransferFailed:InsufficientBalance") treasury s),
          rw poor (get_balance-emit (codes "TransferFailed:InsufficientBalance") recipient s),
        )
        | inr rich ↦
            let more = set_balance host recipient (b + 1_000) less in
            let enough : 1_000 ≤ a = ltb-false _ _ rich in
            let sum : add_u64 b 1_000 ≡ b + 1_000 = omega (arith, fits, enough) in
            let room : b + 1_000 < u64_mod = omega (arith, fits, enough) in
            inl (
              enough,
              rw (rich, sum)
                  (ground (
                    arith,
                    get_balance-emit (codes "Transfer:1000") treasury more,
                    get_balance-set_balance recipient treasury (b + 1_000) less room,
                    two_accounts_back,
                    get_balance-set_balance treasury treasury (a - 1_000) s (omega (arith, fits)),
                    bytes_eq_self (balance_key treasury),
                  )),
              rw (rich, sum)
                  (ground (
                    arith,
                    get_balance-emit (codes "Transfer:1000") recipient more,
                    get_balance-set_balance recipient recipient (b + 1_000) less room,
                    bytes_eq_self (balance_key recipient),
                  )),
            )
      ]

  -- What a number of transfers after `init` leaves.
  abbrev pub transfers : ℕ → S → S
  transfers zero s = s
  transfers (suc n) s = transfer host (transfers n s)

  get_balance-set_state :
      (k : ℕ) (ks value account : Bytes) (s : S)
      → (k == 98) ≡ false
      → get_balance host account (host.storage_set (k ∷ ks) value s) ≡ get_balance host account s
  unfolding get_balance balance_key bytes_eq
  get_balance-set_state k ks value account s apart =
      ap (decoded host)
        (host.get-set (k ∷ ks) value (balance_key account) s ∙ ground (arith, apart))

  init_kept :
      (account : Bytes) (s : S)
      → get_balance host account (init host s)
        ≡ get_balance host account (set_balance host treasury total_supply s)
  unfolding init
  init_kept account s =
      get_balance-emit (codes "TokenInitialized:1000000000") account _
      ∙ get_balance-set_state 78 (codes "AME") (codes "NoirNet Token") account _ refl
      ∙ get_balance-set_state 83 (codes "YMBOL") (codes "NOIR") account _ refl
      ∙ get_balance-set_state 68 (codes "ECIMALS") (8 ∷ []) account _ refl
      ∙ get_balance-set_state 84 (codes "OTAL_SUPPLY") (to_le_bytes 8 total_supply) account _ refl

  init_balances :
      (s : S)
      → (get_balance host treasury (init host s) ≡ total_supply)
        × (get_balance host recipient (init host s) ≡ get_balance host recipient s)
  init_balances s = (
    init_kept treasury s
        ∙ ground (
          arith,
          get_balance-set_balance treasury treasury total_supply s (omega arith),
          bytes_eq_self (balance_key treasury),
        ),
    init_kept recipient s
        ∙ ground (
          arith,
          get_balance-set_balance treasury recipient total_supply s (omega arith),
          two_accounts,
        ),
  )

  -- After `init` and any number of transfers the two balances add up to the total supply and what the
  -- recipient had before, and the treasury has 1000 less for each transfer, as long as it lasts. The
  -- balance of the recipient is to leave room for the supply.
  pub transfers-conserved :
      (n : ℕ) (s : S)
      → get_balance host recipient s + total_supply < u64_mod
      → let t = transfers n (init host s) in
        (get_balance host treasury t + get_balance host recipient t
          ≡ total_supply + get_balance host recipient s)
        × (get_balance host treasury t ≡ total_supply - 1_000 * min n 1_000_000)
  transfers-conserved zero s room =
      let (a, b) = init_balances s in (omega (arith, a, b), omega (arith, a))
  transfers-conserved (suc n) s room =
      let t = transfers n (init host s) in
      let (sum, left) = transfers-conserved n s room in
      elim (transfer_lem t (omega (arith, sum, room))) [
        | inl (enough, a, b) ↦ (omega (arith, sum, a, b), omega (arith, left, a, enough))
        | inr (poor, a, b) ↦ (omega (arith, sum, a, b), omega (arith, left, a, poor))
      ]
