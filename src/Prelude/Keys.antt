-- ===== src/Prelude/Keys.antt =====
-- The keys of a map, as a list and as a set.
use chain_registry_core.Prelude.Tests.{Key, ◌==◌, if◌then◌else◌, Bool-cases}
use chain_registry_core.Prelude.Lists.{length, All, filterb}
use chain_registry_core.Prelude.Map.{
  Map, lookup, contains_key, contains_key-lookup, keys, remove, lookup-remove, IsMap,
}
use chain_registry_core.Prelude.Count.{count, count-and, count-zero}
use Prim.Native.Nat.{◌≤◌}
use mathlib.Core.Path.{◌≡◌, refl}
use mathlib.Core.Logic.{inl, inr}
use mathlib.Core.Bool.{Bool, true, false, ◌&&◌}
use mathlib.Core.Option.{none, some}
use mathlib.Core.List.{List, [], ◌∷◌}
use native.Mathlib.Omega.{arith}

module _ {ℓ} {K : Type ℓ} ⦃e : Key K⦄ where
  abbrev pub holds : K → List K → Bool
  holds k [] = false
  holds k (j ∷ js) = if k == j then true else holds k js

  abbrev pub Distinct : List K → Type 0
  Distinct [] = Unit {0}
  Distinct (k ∷ ks) = (holds k ks ≡ false) × Distinct ks

  abbrev pub remove_each {κ} : {V : Type κ} → List K → Map K V → Map K V
  remove_each [] m = m
  remove_each (k ∷ ks) m = remove_each ks (remove k m)

  pub lookup-remove_each {κ} :
      {V : Type κ} (k : K) (ks : List K) (m : Map K V)
      → lookup k (remove_each ks m) ≡ (if holds k ks then none else lookup k m)
  lookup-remove_each k [] m = refl
  lookup-remove_each k (j ∷ ks) m =
      ground (arith, lookup-remove_each k ks (remove j m), lookup-remove j k m, e.test_iff k j)

  -- The keys of the entries that pass a test of their values.
  pub holds-keys-filterb {κ} :
      {V : Type κ} (p : V → Bool) (k : K) (m : Map K V)
      → IsMap m
      → holds k (keys (filterb (λ (t : K × V). p t.1) m))
        ≡ elim (lookup k m) [ none ↦ false | some v ↦ p v ]
  holds-keys-filterb p k [] one = refl
  holds-keys-filterb p k ((j, w) ∷ m) one = elim (Bool-cases (k == j)) [
    | inl hit ↦
        let same : k ≡ j = (e.test_iff k j).0 hit in
        ground (arith, holds-keys-filterb p k m one.1, same)
    | inr miss ↦ ground (arith, holds-keys-filterb p k m one.1)
  ]

  pub keys-filterb-Distinct {κ} :
      {V : Type κ} (p : V → Bool) (m : Map K V)
      → IsMap m
      → Distinct (keys (filterb (λ (t : K × V). p t.1) m))
  keys-filterb-Distinct p [] one = tt
  keys-filterb-Distinct p ((j, w) ∷ m) one =
      ground (arith, keys-filterb-Distinct p m one.1, holds-keys-filterb p j m one.1)

  one-le-count : (k : K) (ks : List K) → holds k ks ≡ true → 1 ≤ count (λ j. j == k) ks
  one-le-count k [] h = ground arith
  one-le-count k (j ∷ ks) h = ground (arith, one-le-count k ks, e.test_iff k j, e.test_iff j k)

  pub count-le-length : (p : K → Bool) (ks : List K) → count p ks ≤ length ks
  count-le-length p [] = ground arith
  count-le-length p (k ∷ ks) = ground (arith, count-le-length p ks)

  keys_apart {κ} :
      {V : Type κ} (k : K) (m : Map K V) (j : K)
      → lookup k m ≡ none
      → (j == k) && contains_key j m ≡ false
  keys_apart k m j h = elim (Bool-cases (j == k)) [
    | inl hit ↦
        let same : j ≡ k = (e.test_iff j k).0 hit in
        rw (same, contains_key-lookup k m, h) (ground arith)
    | inr miss ↦ rw miss (ground arith)
  ]

  keys-le-count {κ} :
      {V : Type κ} (m : Map K V) (ks : List K)
      → IsMap m
      → All (λ t. holds t.0 ks ≡ true) m
      → length m ≤ count (λ j. contains_key j m) ks
  keys-le-count [] ks one h = ground arith
  keys-le-count ((k, v) ∷ m) ks one h = omega (
    arith,
    one-le-count k ks h.0,
    keys-le-count m ks one.1 h.1,
    count-and (λ j. j == k) (λ j. contains_key j m) (λ j. contains_key j ((k, v) ∷ m))
        (λ j p. ground arith) (λ j p. ground arith) ks,
    count-zero (λ j. (j == k) && contains_key j m) (λ j. keys_apart k m j one.0) ks,
  )

  -- A map whose keys lie in a list has at most as many entries.
  pub length-le_of_keys {κ} :
      {V : Type κ} (m : Map K V) (ks : List K)
      → IsMap m
      → All (λ t. holds t.0 ks ≡ true) m
      → length m ≤ length ks
  length-le_of_keys m ks one h =
      omega (arith, keys-le-count m ks one h, count-le-length (λ j. contains_key j m) ks)

  apart : (k : K) (ks : List K) (j : K) → holds k ks ≡ false → (j == k) && holds j ks ≡ false
  apart k ks j h = elim (Bool-cases (j == k)) [
    | inl hit ↦ let same : j ≡ k = (e.test_iff j k).0 hit in rw (same, h) (ground arith)
    | inr miss ↦ rw miss (ground arith)
  ]

  -- Distinct keys that lie in a list are found there at least once each.
  pub length-le-count :
      (ks js : List K)
      → Distinct ks
      → All (λ k. holds k js ≡ true) ks
      → length ks ≤ count (λ j. holds j ks) js
  length-le-count [] js one h = ground arith
  length-le-count (k ∷ ks) js one h = omega (
    arith,
    one-le-count k js h.0,
    length-le-count ks js one.1 h.1,
    count-and (λ j. j == k) (λ j. holds j ks) (λ j. holds j (k ∷ ks)) (λ j p. ground arith)
        (λ j p. ground arith) js,
    count-zero (λ j. (j == k) && holds j ks) (λ j. apart k ks j one.0) js,
  )
