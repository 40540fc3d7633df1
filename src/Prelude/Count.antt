-- ===== src/Prelude/Count.antt =====
-- Counting the elements that pass a test.
use chain_registry_core.Prelude.Tests.{if◌then◌else◌, Bool-cases}
use Prim.Native.Nat.{ℕ, suc, ◌+◌, ◌≤◌, ◌<◌}
use mathlib.Core.Path.{◌≡◌, refl}
use mathlib.Core.Logic.{inl, inr}
use mathlib.Core.Bool.{Bool, true, false, ◌&&◌}
use mathlib.Core.List.{List, [], ◌∷◌}
use native.Mathlib.Omega.{arith}

module _ {ℓ} {A : Type ℓ} where
  -- `iter().filter(p).count()`
  abbrev pub count : (A → Bool) → List A → ℕ
  count p [] = 0
  count p (x ∷ xs) = if p x then suc (count p xs) else count p xs

  pub count_mono :
      (p q : A → Bool)
      → ((a : A) → p a ≡ true → q a ≡ true)
      → (xs : List A) → count p xs ≤ count q xs
  count_mono p q h [] = omega arith
  count_mono p q h (x ∷ xs) = ground (arith, count_mono p q h xs, h x)

  -- Inclusion and exclusion.
  pub count-and :
      (p q r : A → Bool)
      → ((a : A) → p a ≡ true → r a ≡ true)
      → ((a : A) → q a ≡ true → r a ≡ true)
      → (xs : List A) → count p xs + count q xs ≤ count r xs + count (λ a. p a && q a) xs
  count-and p q r hp hq [] = omega arith
  count-and p q r hp hq (x ∷ xs) = ground (arith, count-and p q r hp hq xs, hp x, hq x)

  -- Where more pass `p` than pass `q`, one passes `p` alone.
  pub count-lt :
      (p q : A → Bool) (xs : List A)
      → count q xs < count p xs
      → (a : A) × (p a ≡ true) × (q a ≡ false)
  count-lt p q [] h = absurd (omega arith)
  count-lt p q (x ∷ xs) h = elim (Bool-cases (p x)) [
    | inl hp ↦ elim (Bool-cases (q x)) [
      | inl hq ↦ count-lt p q xs (ground arith)
      | inr hq ↦ (x, hp, hq)
    ]
    | inr hp ↦ count-lt p q xs (ground arith)
  ]

  pub count-zero : (p : A → Bool) → ((a : A) → p a ≡ false) → (xs : List A) → count p xs ≡ 0
  count-zero p h [] = refl
  count-zero p h (x ∷ xs) = ground (arith, count-zero p h xs, h x)
