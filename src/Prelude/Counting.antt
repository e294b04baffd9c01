-- ===== src/Prelude/Counting.antt =====
-- Counting members of distinct lists: a distinct list inside another is no longer than it.
use mathlib.Core.Path.{◌≡◌, refl}
use mathlib.Core.Bool.{true, false, ◌||◌, not}
use mathlib.Core.List.{List, [], ◌∷◌, ◌++◌}
use mathlib.Core.Logic.{inl, inr}
use Prim.Native.Nat.{suc, ◌+◌, ◌≤◌}
use native.Mathlib.Omega.{arith}
use noirnet.Prelude.Tests.{if◌then◌else◌, Bool-cases}
use noirnet.Prelude.Lists.{length, All, retain, length-append}
use noirnet.Prelude.ByteStrings.{Bytes, bytes_eq, bytes_eq_iff, bytes_eq_self}
use noirnet.Prelude.Maps.{member, Distinct}

-- Every member of the first is one of the second.
abbrev pub Within : List Bytes → List Bytes → Type 0
Within xs ys = All (λ x. member x ys ≡ true) xs

pub common : List Bytes → List Bytes → List Bytes
common xs ys = retain (λ x. member x ys) xs

pub others : List Bytes → List Bytes → List Bytes
others xs ys = retain (λ x. not (member x ys)) xs

erase : Bytes → List Bytes → List Bytes
erase a [] = []
erase a (x ∷ xs) = let rest = erase a xs in if bytes_eq x a then xs else x ∷ rest

length-erase :
    (a : Bytes) (xs : List Bytes) → member a xs ≡ true → suc (length (erase a xs)) ≡ length xs
unfolding member erase
length-erase a [] h = cc
length-erase a (x ∷ xs) h = ground (arith, length-erase a xs)

member-erase :
    (a b : Bytes) (xs : List Bytes)
    → member b xs ≡ true
    → bytes_eq a b ≡ false
    → member b (erase a xs) ≡ true
unfolding member erase
member-erase a b [] h n = cc
member-erase a b (x ∷ xs) h n =
    ground (arith, member-erase a b xs, bytes_eq_iff x a, bytes_eq_iff x b, bytes_eq_iff a b)

Within-erase :
    (a : Bytes) (xs ys : List Bytes) → member a xs ≡ false → Within xs ys → Within xs (erase a ys)
unfolding member
Within-erase a [] ys n h = tt
Within-erase a (x ∷ xs) ys n h = (
  member-erase a x ys h.0 (ground (arith, bytes_eq_iff a x, bytes_eq_iff x a)),
  Within-erase a xs ys (ground arith) h.1,
)

pub length-Within : (xs ys : List Bytes) → Distinct xs → Within xs ys → length xs ≤ length ys
length-Within [] ys d h = omega arith
length-Within (x ∷ xs) ys d h =
    omega (
      arith,
      length-erase x ys h.0,
      length-Within xs (erase x ys) d.1 (Within-erase x xs ys d.0 h.1),
    )

length-split : (xs ys : List Bytes) → length (common xs ys) + length (others xs ys) ≡ length xs
unfolding common others
length-split [] ys = omega arith
length-split (x ∷ xs) ys = ground (arith, length-split xs ys)

member-append :
    (a : Bytes) (xs ys : List Bytes) → member a (xs ++ ys) ≡ (member a xs || member a ys)
unfolding member
member-append a [] ys = refl
member-append a (x ∷ xs) ys = ground (arith, member-append a xs ys)

member-others :
    (a : Bytes) (xs ys : List Bytes) → member a xs ≡ false → member a (others xs ys) ≡ false
unfolding member others
member-others a [] ys h = refl
member-others a (x ∷ xs) ys h = ground (arith, member-others a xs ys)

others-Distinct : (xs ys : List Bytes) → Distinct xs → Distinct ys → Distinct (others xs ys ++ ys)
unfolding others
others-Distinct [] ys d e = e
others-Distinct (x ∷ xs) ys d e =
    ground
      (arith, others-Distinct xs ys d.1 e, member-append x (others xs ys) ys, member-others x xs ys)

others-Within :
    (xs ys zs : List Bytes) → Within xs zs → Within ys zs → Within (others xs ys ++ ys) zs
unfolding others
others-Within [] ys zs h k = k
others-Within (x ∷ xs) ys zs h k = ground (arith, others-Within xs ys zs h.1 k)

-- Two distinct lists inside a third overlap in what they have too many.
pub length-common :
    (xs ys zs : List Bytes)
    → Distinct xs
    → Distinct ys
    → Within xs zs
    → Within ys zs
    → length xs + length ys ≤ length zs + length (common xs ys)
length-common xs ys zs d e h k = omega (
  arith,
  length-split xs ys,
  length-append (others xs ys) ys,
  length-Within (others xs ys ++ ys) zs (others-Distinct xs ys d e) (others-Within xs ys zs h k),
)

member-common :
    (a : Bytes) (xs ys : List Bytes) → member a xs ≡ false → member a (common xs ys) ≡ false
unfolding member common
member-common a [] ys h = refl
member-common a (x ∷ xs) ys h = ground (arith, member-common a xs ys)

pub common-Distinct : (xs ys : List Bytes) → Distinct xs → Distinct (common xs ys)
unfolding common
common-Distinct [] ys d = tt
common-Distinct (x ∷ xs) ys d = ground (arith, common-Distinct xs ys d.1, member-common x xs ys)

-- What holds of all that are in both lists holds of the common part.
pub All-common {κ} :
    (P : Bytes → Type κ) (xs ys : List Bytes)
    → ((a : Bytes) → member a xs ≡ true → member a ys ≡ true → P a)
    → All P (common xs ys)
unfolding common
All-common P [] ys h = tt
All-common P (x ∷ xs) ys h =
    let rest = All-common P xs ys (λ a m n. h a (unfold member in ground (arith, m)) n) in
    elim (Bool-cases (member x ys)) [
      | inl both ↦ rw both (h x (unfold member in ground (arith, bytes_eq_self x)) both, rest)
      | inr apart ↦ rw apart rest
    ]
