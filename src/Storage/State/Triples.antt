-- ===== src/Storage/State/Triples.antt =====
-- What holds of the database of crates/noirnet-storage/src/state.rs after an operation that succeeds, if something
-- holds before.
use noirnet.Prelude.{
  ◌≡◌, refl, sym, ap, ◌∙◌, false, ◌&&◌, Option, none, some, arith, Result, ok, Bytes, bytes_eq,
  bytes_eq_self,
}
use mathlib.Core.Path.{subst}
use noirnet.Storage.State.Database.{
  StorageError, Sled, Codec, StateStore, Op, ◌>>=◌, done, encoded, open_tree, tree_insert, cf_put,
}
use noirnet.Storage.State.Effects.{after-ok}
use noirnet.Storage.State.Quiet.{tree_insert-ok}

module _ {Db : Type 0} where
  -- If the operation succeeds from a store with `P`, the store afterwards has `Q`.
  pub record Triple {ℓ} {A : Type ℓ} (P : StateStore Db → Type 0) (m : Op Db A)
      (Q : StateStore Db → Type 0) : Type ℓ where
    pub runs : (s t : StateStore Db) (a : A) → P s → m s ≡ (t, ok a) → Q t

  abbrev pub Anything : StateStore Db → Type 0
  Anything s = Unit {0}

  pub Triple-bind {ℓ κ} :
      {A : Type ℓ} {B : Type κ} {P R Q : StateStore Db → Type 0} {m : Op Db A} {f : A → Op Db B}
      → Triple P m R
      → ((a : A) → Triple R (f a) Q)
      → Triple P (m >>= f) Q
  Triple-bind {m = m} {f} hm hf = record {
    runs = λ s t b p h.
        let (u, a, e, g) = after-ok (m s) f t b h in (hf a).runs u t b (hm.runs s u a p e) g;
  }

  -- Whatever the first operation does.
  pub Triple-skip {ℓ κ} :
      {A : Type ℓ} {B : Type κ} {Q : StateStore Db → Type 0} (m : Op Db A) {f : A → Op Db B}
      → ((a : A) → Triple Anything (f a) Q)
      → Triple Anything (m >>= f) Q
  Triple-skip m hf = Triple-bind {m = m} (record { runs = λ s t a p h. tt }) hf

  -- An operation that leaves the store as it is.
  pub Triple-still {ℓ} :
      {A : Type ℓ} {P : StateStore Db → Type 0} (m : Op Db A)
      → ((s : StateStore Db) → (m s).0 ≡ s)
      → Triple P m P
  Triple-still {A = A} {P} m same = record {
    runs = λ s t a p h.
        subst P (sym (same s) ∙ ap (λ (x : StateStore Db × Result A StorageError). x.0) h) p;
  }

  pub Triple-and {ℓ} :
      {A : Type ℓ} {P Q R S : StateStore Db → Type 0} {m : Op Db A}
      → Triple P m Q
      → Triple R m S
      → Triple (λ s. P s × R s) m (λ s. Q s × S s)
  Triple-and hm hn = record { runs = λ s t a p h. (hm.runs s t a p.0 h, hn.runs s t a p.1 h) }

  -- What holds afterwards whatever held before.
  pub Triple-with {ℓ} :
      {A : Type ℓ} {P Q R : StateStore Db → Type 0} {m : Op Db A}
      → Triple P m Q
      → Triple Anything m R
      → Triple P m (λ s. Q s × R s)
  Triple-with hm hn = record { runs = λ s t a p h. (hm.runs s t a p h, hn.runs s t a tt h) }

  pub Triple-some {ℓ} :
      {A : Type ℓ} {C : Bytes → Type 0} {P Q : Bytes → StateStore Db → Type 0} {m : Op Db A}
      → ((b : Bytes) → Triple (P b) m (Q b))
      → Triple (λ s. (b : Bytes) × C b × P b s) m (λ s. (b : Bytes) × C b × Q b s)
  Triple-some hm = record { runs = λ s t a p h. (p.0, p.1, (hm p.0).runs s t a p.2 h) }

  -- After an encoding that may fail.
  pub Triple-encoding {ℓ} :
      {A : Type ℓ} {P Q : StateStore Db → Type 0} (o : Option Bytes) {f : Bytes → Op Db A}
      → ((bytes : Bytes) → o ≡ some bytes → Triple P (f bytes) Q)
      → Triple P (encoded o >>= f) Q
  Triple-encoding none hf = record { runs = λ s t a p h. cc }
  Triple-encoding (some bytes) hf = hf bytes refl

  pub Triple-done {ℓ} : {A : Type ℓ} {P : StateStore Db → Type 0} (a : A) → Triple P (done a) P
  Triple-done a = Triple-still (done a) (λ s. refl)

module _ {Db : Type 0} (sled : Sled Db) (codec : Codec) where
  abbrev pub Stored : Bytes → Bytes → Bytes → StateStore Db → Type 0
  Stored name key value s = sled.content name key s.db ≡ some value

  pub Triple-stores :
      (name key value : Bytes)
      → Triple Anything (tree_insert sled name key value) (Stored name key value)
  Triple-stores name key value = record {
    runs = λ s t a p h. ground (
      arith,
      (tree_insert-ok sled codec name key value s t a h).1 name key,
      bytes_eq_self name,
      bytes_eq_self key,
    );
  }

  pub Triple-keeps :
      {other k v : Bytes} (name key value : Bytes)
      → (bytes_eq name other && bytes_eq key k) ≡ false
      → Triple (Stored other k v) (tree_insert sled name key value) (Stored other k v)
  Triple-keeps {other} {k} name key value apart = record {
    runs = λ s t a p h.
        ground (arith, (tree_insert-ok sled codec name key value s t a h).1 other k, apart, p);
  }

  pub Triple-open : {P : StateStore Db → Type 0} (name : Bytes) → Triple P (open_tree sled name) P
  Triple-open name = Triple-still (open_tree sled name) (λ s. unfold open_tree in refl)

  pub Triple-encoded : {P : StateStore Db → Type 0} (o : Option Bytes) → Triple P (encoded o) P
  Triple-encoded none = Triple-still (encoded none) (λ s. refl)
  Triple-encoded (some bytes) = Triple-still (encoded (some bytes)) (λ s. refl)

  pub Triple-put :
      (name key value : Bytes)
      → Triple Anything (cf_put sled name key value) (Stored name key value)
  unfolding cf_put
  Triple-put name key value = Triple-bind (Triple-open name) (λ _. Triple-stores name key value)

  pub Triple-put_keeps :
      {other k v : Bytes} (name key value : Bytes)
      → (bytes_eq name other && bytes_eq key k) ≡ false
      → Triple (Stored other k v) (cf_put sled name key value) (Stored other k v)
  unfolding cf_put
  Triple-put_keeps name key value apart =
      Triple-bind (Triple-open name) (λ _. Triple-keeps name key value apart)
