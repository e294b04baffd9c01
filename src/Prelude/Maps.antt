-- ===== src/Prelude/Maps.antt =====
-- `HashMap` and `HashSet` with byte-string keys, as association lists and lists.
use mathlib.Core.Path.{◌≡◌}
use mathlib.Core.Bool.{Bool, false, ◌||◌}
use mathlib.Core.Option.{Option, none, some}
use mathlib.Core.List.{List, [], ◌∷◌}
use Prim.Native.Nat.{◌≤◌, ◌+◌}
use native.Mathlib.Omega.{arith}
use noirnet.Prelude.Tests.{if◌then◌else◌}
use noirnet.Prelude.Lists.{length, All}
use noirnet.Prelude.ByteStrings.{Bytes, bytes_eq, bytes_eq_iff}

module _ {ℓ} {V : Type ℓ} where
  unfoldable pub lookup : Bytes → List (Bytes × V) → Option V
  lookup k [] = none
  lookup k ((j, v) ∷ m) = let rest = lookup k m in if bytes_eq j k then some v else rest

  unfoldable pub remove : Bytes → List (Bytes × V) → List (Bytes × V)
  remove k [] = []
  remove k ((j, v) ∷ m) = let rest = remove k m in if bytes_eq j k then rest else (j, v) ∷ rest

  unfoldable pub insert : Bytes → V → List (Bytes × V) → List (Bytes × V)
  unfolding remove
  insert k v m = (k, v) ∷ remove k m

  pub lookup-remove :
      (k j : Bytes) (m : List (Bytes × V))
      → lookup j (remove k m) ≡ (if bytes_eq k j then none else lookup j m)
  unfolding lookup remove
  lookup-remove k j [] = ground arith
  lookup-remove k j ((i, v) ∷ m) =
      ground (arith, lookup-remove k j m, bytes_eq_iff i k, bytes_eq_iff i j, bytes_eq_iff k j)

  pub lookup-insert :
      (k j : Bytes) (v : V) (m : List (Bytes × V))
      → lookup j (insert k v m) ≡ (if bytes_eq k j then some v else lookup j m)
  unfolding lookup insert
  lookup-insert k j v m = ground (arith, lookup-remove k j m)

  -- Every value of the map has the property.
  pub All-remove {κ} :
      (P : Bytes × V → Type κ) (k : Bytes) (m : List (Bytes × V)) → All P m → All P (remove k m)
  unfolding remove
  All-remove P k [] h = tt
  All-remove P k ((j, v) ∷ m) h = ground (arith, All-remove P k m h.1)

  pub length-remove : (k : Bytes) (m : List (Bytes × V)) → length (remove k m) ≤ length m
  unfolding remove
  length-remove k [] = omega arith
  length-remove k ((j, v) ∷ m) = ground (arith, length-remove k m)

  pub length-insert :
      (k : Bytes) (v : V) (m : List (Bytes × V)) → length (insert k v m) ≤ length m + 1
  unfolding insert
  length-insert k v m = omega (arith, length-remove k m)

-- `HashSet::contains`
unfoldable pub member : Bytes → List Bytes → Bool
member a [] = false
member a (x ∷ xs) = bytes_eq x a || member a xs

-- `HashSet::insert`; the Boolean that it returns is `not (member a xs)`.
unfoldable pub add_member : Bytes → List Bytes → List Bytes
add_member a xs = if member a xs then xs else a ∷ xs

abbrev pub Distinct : List Bytes → Type 0
Distinct [] = Unit {0}
Distinct (x ∷ xs) = (member x xs ≡ false) × Distinct xs

pub add_member-Distinct : (a : Bytes) (xs : List Bytes) → Distinct xs → Distinct (add_member a xs)
unfolding add_member
add_member-Distinct a xs h = ground arith

pub member-add_member :
    (a b : Bytes) (xs : List Bytes) → member b (add_member a xs) ≡ (bytes_eq a b || member b xs)
unfolding add_member member
member-add_member a b xs = ground (arith, bytes_eq_iff a b)

pub length-add_member : (a : Bytes) (xs : List Bytes) → length xs ≤ length (add_member a xs)
unfolding add_member
length-add_member a xs = ground arith
