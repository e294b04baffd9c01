-- ===== src/Prelude/Results.antt =====
-- Rust's `Result`, its `?` and its early `return Err(..)`.
use mathlib.Core.Path.{◌≡◌, refl}
use mathlib.Core.Logic.{◌⊎◌, ◌↔◌, inl, inr}
use mathlib.Core.Bool.{Bool, true, false}

pub data Result {ℓ κ} (A : Type ℓ) (E : Type κ) : Type (ℓ ⊔ κ) where
  ok : A → Result A E
  err : E → Result A E

infixl 5 ◌>>=◌ ◌>>◌
abbrev pub ◌>>=◌ {ℓ κ μ} :
    {A : Type ℓ} {B : Type κ} {E : Type μ} → Result A E → (A → Result B E) → Result B E
ok a >>= f = f a
err e >>= f = err e

abbrev pub ◌>>◌ {ℓ μ} : {B : Type ℓ} {E : Type μ} → Result (Unit {0}) E → Result B E → Result B E
m >> k = m >>= λ _. k

-- `if bad { return Err(e) }`
abbrev pub reject_if {μ} : {E : Type μ} → Bool → E → Result (Unit {0}) E
reject_if true e = err e
reject_if false e = ok tt

abbrev pub is_ok {ℓ μ} : {A : Type ℓ} {E : Type μ} → Result A E → Bool
is_ok (ok a) = true
is_ok (err e) = false

-- `Result::unwrap_or`
abbrev pub ok_or {ℓ μ} : {A : Type ℓ} {E : Type μ} → Result A E → A → A
ok_or (ok a) d = a
ok_or (err e) d = d

pub Result-cases {μ} :
    {E : Type μ} (r : Result (Unit {0}) E) → (r ≡ ok tt) ⊎ ((e : E) × (r ≡ err e))
Result-cases (ok tt) = inl refl
Result-cases (err e) = inr (e, refl)

pub Result-split {ℓ μ} :
    {A : Type ℓ} {E : Type μ} (r : Result A E) → ((a : A) × (r ≡ ok a)) ⊎ ((e : E) × (r ≡ err e))
Result-split (ok a) = inl (a, refl)
Result-split (err e) = inr (e, refl)

-- One result after the other succeeds when both do.
pub then_iff {ℓ μ} :
    {B : Type ℓ} {E : Type μ} (m : Result (Unit {0}) E) (k : Result B E) (b : B)
    → (m >> k ≡ ok b) ↔ ((m ≡ ok tt) × (k ≡ ok b))
then_iff (ok tt) k b = (λ h. (refl, h), λ h. h.1)
then_iff (err e) k b = (λ h. cc, λ h. cc)

pub reject_if_iff {μ} :
    {E : Type μ} (bad : Bool) (e : E) → (reject_if bad e ≡ ok tt) ↔ (bad ≡ false)
reject_if_iff true e = (λ h. cc, λ h. cc)
reject_if_iff false e = (λ h. refl, λ h. refl)
