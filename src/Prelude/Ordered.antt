-- ===== src/Prelude/Ordered.antt =====
-- A column family of RocksDB: a map whose entries are in the order of their keys.
use Prim.Native.Nat.{ℕ, ◌≤◌, ◌<◌}
use chain_registry_core.Prelude.Tests.{Key, ◌==◌, if◌then◌else◌, leb, nat_eq, Bool-cases}
use chain_registry_core.Prelude.Lists.{All, All-map}
use chain_registry_core.Prelude.Map.{
  Map, lookup, remove, IsMap, lookup-remove, remove-IsMap, remove-All,
}
use mathlib.Core.Path.{◌≡◌, refl}
use mathlib.Core.Logic.{◌≢◌, inl, inr}
use mathlib.Core.Bool.{Bool}
use mathlib.Core.Option.{none, some}
use mathlib.Core.List.{[], ◌∷◌}
use native.Mathlib.Omega.{arith}

module _ {ℓ κ} {K : Type ℓ} {V : Type κ} ⦃e : Key K⦄ (le : K → K → Bool) where
  -- Before the first key that is not smaller.
  abbrev pub place : K → V → Map K V → Map K V
  place k v [] = (k, v) ∷ []
  place k v ((j, w) ∷ m) = if le k j then (k, v) ∷ (j, w) ∷ m else (j, w) ∷ place k v m

  abbrev pub put : K → V → Map K V → Map K V
  put k v m = place k v (remove k m)

  lookup-place :
      (k j : K) (v : V) (m : Map K V)
      → lookup k m ≡ none
      → lookup j (place k v m) ≡ (if j == k then some v else lookup j m)
  lookup-place k j v [] h = refl
  lookup-place k j v ((i, w) ∷ m) h =
      ground (arith, e.test_iff k i, e.test_iff j i, e.test_iff j k, lookup-place k j v m)

  remove-none : (k : K) (m : Map K V) → lookup k (remove k m) ≡ none
  remove-none k m = ground (arith, lookup-remove k k m, e.test_iff k k)

  pub lookup-put :
      (k j : K) (v : V) (m : Map K V)
      → lookup j (put k v m) ≡ (if j == k then some v else lookup j m)
  lookup-put k j v m =
      ground (arith, lookup-place k j v (remove k m) (remove-none k m), lookup-remove k j m)

  place-IsMap : (k : K) (v : V) (m : Map K V) → lookup k m ≡ none → IsMap m → IsMap (place k v m)
  place-IsMap k v [] h one = (refl, tt)
  place-IsMap k v ((j, w) ∷ m) h one =
      ground
        (arith, e.test_iff k j, e.test_iff j k, place-IsMap k v m, lookup-place k j v m, h, one)

  pub put-IsMap : (k : K) (v : V) (m : Map K V) → IsMap m → IsMap (put k v m)
  put-IsMap k v m h = place-IsMap k v (remove k m) (remove-none k m) (remove-IsMap k m h)

  -- A write batch, in its order.
  abbrev pub put_all : Map K V → Map K V → Map K V
  put_all [] m = m
  put_all ((k, v) ∷ batch) m = put_all batch (put k v m)

  pub put_all-IsMap : (batch m : Map K V) → IsMap m → IsMap (put_all batch m)
  put_all-IsMap [] m h = h
  put_all-IsMap ((k, v) ∷ batch) m h = put_all-IsMap batch (put k v m) (put-IsMap k v m h)

module _ {κ} {V : Type κ} where
  -- The keys go up.
  abbrev pub Ascending : Map ℕ V → Type 0
  Ascending [] = Unit {0}
  Ascending ((k, v) ∷ m) = All (λ (t : ℕ × V). k < t.0) m × Ascending m

  -- `seek_to_last`, or 0 where there is no entry.
  abbrev pub last_key : Map ℕ V → ℕ
  last_key [] = 0
  last_key ((k, v) ∷ []) = k
  last_key ((k, v) ∷ (j, w) ∷ m) = last_key ((j, w) ∷ m)

  pub remove-Ascending : (k : ℕ) (m : Map ℕ V) → Ascending m → Ascending (remove k m)
  remove-Ascending k [] h = tt
  remove-Ascending k ((j, w) ∷ m) h = elim (Bool-cases (k == j)) [
    | inl hit ↦ rw hit (remove-Ascending k m h.1)
    | inr miss ↦ rw miss (remove-All (λ (t : ℕ × V). j < t.0) k m h.0, remove-Ascending k m h.1)
  ]

  place-All :
      (P : ℕ × V → Type 0) (k : ℕ) (v : V) (m : Map ℕ V)
      → P (k, v)
      → All P m
      → All P (place leb k v m)
  place-All P k v [] p h = (p, tt)
  place-All P k v ((j, w) ∷ m) p h = elim (Bool-cases (leb k j)) [
    | inl low ↦ rw low (p, h)
    | inr high ↦ rw high (h.0, place-All P k v m p h.1)
  ]

  pub put-All :
      (P : ℕ × V → Type 0) (k : ℕ) (v : V) (m : Map ℕ V)
      → P (k, v)
      → All P m
      → All P (put leb k v m)
  put-All P k v m p h = place-All P k v (remove k m) p (remove-All P k m h)

  place-Ascending :
      (k : ℕ) (v : V) (m : Map ℕ V) → lookup k m ≡ none → Ascending m → Ascending (place leb k v m)
  place-Ascending k v [] none_k h = (tt, tt)
  place-Ascending k v ((j, w) ∷ m) none_k h = elim (Bool-cases (leb k j)) [
    | inl low ↦
        let lt : k < j = ground (arith, none_k) in
        rw low ((lt, All-map _ _ (λ t up. omega (arith, lt, up)) m h.0), h)
    | inr high ↦
        let lt : j < k = ground (arith, high) in
        let later : lookup k m ≡ none = ground (arith, none_k) in
        rw high (place-All (λ (t : ℕ × V). j < t.0) k v m lt h.0, place-Ascending k v m later h.1)
  ]

  pub put-Ascending : (k : ℕ) (v : V) (m : Map ℕ V) → Ascending m → Ascending (put leb k v m)
  put-Ascending k v m h =
      place-Ascending k v (remove k m) (remove-none leb k m) (remove-Ascending k m h)

  le-last_key : (k : ℕ) (v : V) (m : Map ℕ V) → Ascending ((k, v) ∷ m) → k ≤ last_key ((k, v) ∷ m)
  le-last_key k v [] h = omega arith
  le-last_key k v ((j, w) ∷ m) h = omega (arith, h.0.0, le-last_key j w m h.1)

  -- No key is above the last, which is a key itself.
  pub lookup-above : (k : ℕ) (m : Map ℕ V) → Ascending m → last_key m < k → lookup k m ≡ none
  lookup-above k [] h l = refl
  lookup-above k ((j, w) ∷ []) h l = ground arith
  lookup-above k ((j, w) ∷ (i, u) ∷ m) h l =
      ground (arith, lookup-above k ((i, u) ∷ m) h.1 l, le-last_key j w ((i, u) ∷ m) h)

  pub lookup-last_key :
      (k : ℕ) (v : V) (m : Map ℕ V)
      → Ascending ((k, v) ∷ m)
      → lookup (last_key ((k, v) ∷ m)) ((k, v) ∷ m) ≢ none
  lookup-last_key k v [] h = ground arith
  lookup-last_key k v ((j, w) ∷ m) h = ground (arith, lookup-last_key j w m h.1)
