-- ===== src/Prelude/Map.antt =====
-- `HashMap` as an association list with one entry for a key. The order of a real map's entries is
-- unspecified; here it is the order of first insertion.
use chain_registry_core.Prelude.Tests.{Key, ◌==◌, if◌then◌else◌, Bool-cases}
use chain_registry_core.Prelude.Lists.{length, All}
use Prim.Native.Nat.{suc}
use mathlib.Core.Path.{◌≡◌, refl, sym, subst₂}
use mathlib.Core.Logic.{inl, inr}
use mathlib.Core.Bool.{Bool, true, false}
use mathlib.Core.Option.{Option, none, some, some-injective}
use mathlib.Core.List.{List, [], ◌∷◌}
use native.Mathlib.Omega.{arith}

abbrev pub Map {ℓ κ} : Type ℓ → Type κ → Type (ℓ ⊔ κ)
Map K V = List (K × V)

abbrev pub values {ℓ κ} : {K : Type ℓ} {V : Type κ} → Map K V → List V
values [] = []
values ((k, v) ∷ m) = v ∷ values m

abbrev pub keys {ℓ κ} : {K : Type ℓ} {V : Type κ} → Map K V → List K
keys [] = []
keys ((k, v) ∷ m) = k ∷ keys m

abbrev pub map_values {ℓ κ} : {K : Type ℓ} {V : Type κ} → (V → V) → Map K V → Map K V
map_values f [] = []
map_values f ((k, v) ∷ m) = (k, f v) ∷ map_values f m

module _ {ℓ κ} {K : Type ℓ} {V : Type κ} ⦃e : Key K⦄ where
  abbrev pub lookup : K → Map K V → Option V
  lookup k [] = none
  lookup k ((j, v) ∷ m) = if k == j then some v else lookup k m

  abbrev pub contains_key : K → Map K V → Bool
  contains_key k [] = false
  contains_key k ((j, v) ∷ m) = if k == j then true else contains_key k m

  abbrev pub insert : K → V → Map K V → Map K V
  insert k v [] = (k, v) ∷ []
  insert k v ((j, w) ∷ m) = if k == j then (k, v) ∷ m else (j, w) ∷ insert k v m

  abbrev pub remove : K → Map K V → Map K V
  remove k [] = []
  remove k ((j, w) ∷ m) = if k == j then remove k m else (j, w) ∷ remove k m

  -- A write through `get_mut`; nothing where the key is missing.
  abbrev pub update : K → (V → V) → Map K V → Map K V
  update k f [] = []
  update k f ((j, w) ∷ m) = if k == j then (j, f w) ∷ m else (j, w) ∷ update k f m

  -- Each key stands once.
  abbrev pub IsMap : Map K V → Type κ
  IsMap [] = Unit
  IsMap ((k, v) ∷ m) = (lookup k m ≡ none) × IsMap m

  pub lookup-insert :
      (k j : K) (v : V) (m : Map K V)
      → lookup j (insert k v m) ≡ (if j == k then some v else lookup j m)
  lookup-insert k j v [] = refl
  lookup-insert k j v ((i, w) ∷ m) =
      ground (arith, e.test_iff k i, e.test_iff j i, e.test_iff j k, lookup-insert k j v m)

  pub lookup-insert_self : (k : K) (v : V) (m : Map K V) → lookup k (insert k v m) ≡ some v
  lookup-insert_self k v m = ground (arith, lookup-insert k k v m, e.test_iff k k)

  pub lookup-remove :
      (k j : K) (m : Map K V) → lookup j (remove k m) ≡ (if j == k then none else lookup j m)
  lookup-remove k j [] = ground arith
  lookup-remove k j ((i, w) ∷ m) =
      ground (arith, e.test_iff k i, e.test_iff j i, e.test_iff j k, lookup-remove k j m)

  pub contains_key-lookup :
      (k : K) (m : Map K V) → contains_key k m ≡ elim (lookup k m) [ none ↦ false | some _ ↦ true ]
  contains_key-lookup k [] = refl
  contains_key-lookup k ((j, v) ∷ m) = ground (arith, contains_key-lookup k m)

  pub insert-IsMap : (k : K) (v : V) (m : Map K V) → IsMap m → IsMap (insert k v m)
  insert-IsMap k v [] h = (refl, tt)
  insert-IsMap k v ((j, w) ∷ m) h =
      ground (arith, e.test_iff k j, e.test_iff j k, insert-IsMap k v m h.1, lookup-insert k j v m)

  pub remove-IsMap : (k : K) (m : Map K V) → IsMap m → IsMap (remove k m)
  remove-IsMap k [] h = tt
  remove-IsMap k ((j, w) ∷ m) h =
      ground (arith, e.test_iff k j, e.test_iff j k, remove-IsMap k m h.1, lookup-remove k j m)

  pub lookup-update :
      (k j : K) (f : V → V) (m : Map K V)
      → lookup j (update k f m)
        ≡ (if j == k then elim (lookup j m) [ none ↦ none | some v ↦ some (f v) ] else lookup j m)
  lookup-update k j f [] = ground arith
  lookup-update k j f ((i, w) ∷ m) =
      ground (arith, e.test_iff k i, e.test_iff j i, e.test_iff j k, lookup-update k j f m)

  pub update-IsMap : (k : K) (f : V → V) (m : Map K V) → IsMap m → IsMap (update k f m)
  update-IsMap k f [] h = tt
  update-IsMap k f ((j, w) ∷ m) h =
      ground (arith, e.test_iff k j, e.test_iff j k, update-IsMap k f m h.1, lookup-update k j f m)

  -- What a lookup finds satisfies what every entry does.
  pub lookup-All {μ} :
      (P : K × V → Type μ) (k : K) (m : Map K V) {v : V} → All P m → lookup k m ≡ some v → P (k, v)
  lookup-All P k [] h found = cc
  lookup-All P k ((j, w) ∷ m) {v} h found = elim (Bool-cases (k == j)) [
    | inl hit ↦
        subst₂ (λ a b. P (a, b)) (sym ((e.test_iff k j).0 hit))
          (some-injective _ _ (rw hit at found)) h.0
    | inr miss ↦ lookup-All P k m h.1 (rw miss at found)
  ]

  pub length-insert :
      (k : K) (v : V) (m : Map K V)
      → length (insert k v m) ≡ elim (lookup k m) [ none ↦ suc (length m) | some _ ↦ length m ]
  length-insert k v [] = refl
  length-insert k v ((j, w) ∷ m) = ground (arith, length-insert k v m)

  pub insert-All {μ} :
      (P : K × V → Type μ) (k : K) (v : V) (m : Map K V) → P (k, v) → All P m → All P (insert k v m)
  insert-All P k v [] p h = (p, tt)
  insert-All P k v ((j, w) ∷ m) p h = elim (Bool-cases (k == j)) [
    | inl hit ↦ rw hit (p, h.1)
    | inr miss ↦ rw miss (h.0, insert-All P k v m p h.1)
  ]

  pub remove-All {μ} : (P : K × V → Type μ) (k : K) (m : Map K V) → All P m → All P (remove k m)
  remove-All P k [] h = tt
  remove-All P k ((j, w) ∷ m) h = elim (Bool-cases (k == j)) [
    | inl hit ↦ rw hit (remove-All P k m h.1)
    | inr miss ↦ rw miss (h.0, remove-All P k m h.1)
  ]
