-- ===== src/Storage/State/Effects.antt =====
-- What an operation on the store of crates/noirnet-storage/src/state.rs does to the commitment tree and to
-- the spent nullifiers, if it succeeds.
use noirnet.Prelude.{
  ◌≡◌, refl, ap, ◌∙◌, Bool, true, false, ◌||◌, List, [], ◌∷◌, ◌++◌, arith, is_some, All, All-append,
  Result, ok, err, Bytes, bytes_eq_self, bytes_eq_iff,
}
use noirnet.Prelude.{codes}
use noirnet.Prelude.Maps.{member, Distinct}
use noirnet.Types.Note.{Hash32}
use noirnet.Storage.Merkle.{NoteCommitmentTree, append_leaf, append_all}
use noirnet.Storage.State.Database.{StorageError, Sled, Codec, StateStore, Op, after, ◌>>=◌}

pub after-ok {ℓ κ} :
    {Db : Type 0} {A : Type ℓ} {B : Type κ} (r : StateStore Db × Result A StorageError)
    (f : A → Op Db B) (t : StateStore Db) (b : B)
    → after r f ≡ (t, ok b)
    → (u : StateStore Db) × (a : A) × (r ≡ (u, ok a)) × (f a u ≡ (t, ok b))
after-ok (s, ok a) f t b h = (s, a, refl, h)
after-ok (s, err e) f t b h = cc

pub member-append :
    (n : Hash32) (xs ys : List Hash32) → member n (xs ++ ys) ≡ (member n xs || member n ys)
unfolding member
member-append n [] ys = refl
member-append n (x ∷ xs) ys = ground (arith, member-append n xs ys)

not_member :
    (x : Hash32) (xs ys : List Hash32)
    → member x xs ≡ true
    → All (λ y. member y xs ≡ false) ys
    → member x ys ≡ false
unfolding member
not_member x xs [] m h = refl
not_member x xs (y ∷ ys) m h = ground (arith, not_member x xs ys m h.1, bytes_eq_iff y x)

All-rest :
    (x : Hash32) (xs ys : List Hash32)
    → All (λ y. member y (x ∷ xs) ≡ false) ys
    → All (λ y. member y xs ≡ false) ys
unfolding member
All-rest x xs [] h = tt
All-rest x xs (y ∷ ys) h = (ground (arith, h.0), All-rest x xs ys h.1)

own_member : (x : Hash32) (xs : List Hash32) → member x (x ∷ xs) ≡ true
unfolding member
own_member x xs = ground (arith, bytes_eq_self x)

Distinct-append :
    (xs ys : List Hash32)
    → Distinct xs
    → Distinct ys
    → All (λ y. member y xs ≡ false) ys
    → Distinct (xs ++ ys)
Distinct-append [] ys d e h = e
Distinct-append (x ∷ xs) ys d e h = (
  ground (arith, member-append x xs ys, d.0, not_member x (x ∷ xs) ys (own_member x xs) h),
  Distinct-append xs ys d.1 e (All-rest x xs ys h),
)

pub append_all-append :
    (blake3 : Bytes → Bytes) (cs ds : List Hash32) (t : NoteCommitmentTree)
    → append_all blake3 ds (append_all blake3 cs t) ≡ append_all blake3 (cs ++ ds) t
unfolding append_all
append_all-append blake3 [] ds t = refl
append_all-append blake3 (c ∷ cs) ds t = append_all-append blake3 cs ds (append_leaf blake3 c t)

module _ {Db : Type 0} (sled : Sled Db) (codec : Codec) where
  -- `NullifierStore` holds the nullifier.
  abbrev pub is_spent : Hash32 → StateStore Db → Bool
  is_spent n s = is_some (sled.content (codes "nullifiers") n s.db)

  -- The nullifiers `ns`, new and distinct, are spent now and no others, and the commitments `cs` are appended.
  pub record Effect (ns cs : List Hash32) (s t : StateStore Db) : Type 0 where
    pub grown : t.tree ≡ append_all codec.blake3 cs s.tree
    pub fresh : All (λ n. is_spent n s ≡ false) ns
    pub distinct : Distinct ns
    pub spent : (j : Hash32) → is_spent j t ≡ (member j ns || is_spent j s)

  unspent_before :
      (ns ys : List Hash32) (s u : StateStore Db)
      → ((j : Hash32) → is_spent j u ≡ (member j ns || is_spent j s))
      → All (λ n. is_spent n u ≡ false) ys
      → All (λ n. is_spent n s ≡ false) ys × All (λ y. member y ns ≡ false) ys
  unspent_before ns [] s u e h = (tt, tt)
  unspent_before ns (y ∷ ys) s u e h =
      let (a, b) = unspent_before ns ys s u e h.1 in
      ((ground (arith, e y, h.0), a), (ground (arith, e y, h.0), b))

  pub Effect-trans :
      {xs cs ys ds : List Hash32} (s u t : StateStore Db)
      → Effect xs cs s u
      → Effect ys ds u t
      → Effect (xs ++ ys) (cs ++ ds) s t
  Effect-trans {xs} {cs} {ys} {ds} s u t e f =
      let (before, apart) = unspent_before xs ys s u e.spent f.fresh in
      record {
        grown =
            f.grown
            ∙ ap (append_all codec.blake3 ds) e.grown
            ∙ append_all-append codec.blake3 cs ds s.tree;
        fresh = All-append (λ n. is_spent n s ≡ false) xs ys e.fresh before;
        distinct = Distinct-append xs ys e.distinct f.distinct apart;
        spent = λ j. ground (arith, e.spent j, f.spent j, member-append j xs ys);
      }

  -- An operation has this effect whenever it succeeds.
  abbrev pub Has {ℓ} : {A : Type ℓ} → List Hash32 → List Hash32 → Op Db A → Type ℓ
  Has {A = A} ns cs m = (s t : StateStore Db) (a : A) → m s ≡ (t, ok a) → Effect ns cs s t

  pub Has-bind {ℓ κ} :
      {A : Type ℓ} {B : Type κ} (xs cs ys ds : List Hash32) (m : Op Db A) (f : A → Op Db B)
      → Has xs cs m
      → ((a : A) → Has ys ds (f a))
      → Has (xs ++ ys) (cs ++ ds) (m >>= f)
  Has-bind xs cs ys ds m f hm hf s t b h =
      let (u, a, e, g) = after-ok (m s) f t b h in Effect-trans s u t (hm s u a e) (hf a u t b g)

  pub Effect-none :
      (s t : StateStore Db)
      → t.tree ≡ s.tree
      → ((j : Hash32) → is_spent j t ≡ is_spent j s)
      → Effect [] [] s t
  unfolding append_all member
  Effect-none s t e f = record { grown = e; fresh = tt; distinct = tt; spent = λ j. f j }
