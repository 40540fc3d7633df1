-- ===== src/Consensus/Vrf/Committee.antt =====
-- The validators that review a package: crates/consensus/src/vrf.rs.
use chain_registry_core.Prelude.{
  ℕ, zero, suc, ◌+◌, ◌≤◌, ◌<◌, ◌≡◌, ◌≢◌, refl, ap, ◌∙◌, subst, inl, inr, true, false, Option, none,
  some, List, [], ◌∷◌, ◌++◌, Text, text_eq, text_beq_iff, ltb, nat_beq, if◌then◌else◌, arith, All,
  length, length-append, get_elem?, take, Bool-cases, Option-cases, ok,
}
use chain_registry_core.Prelude.Count.{count}
use chain_registry_core.Prelude.Keys.{holds, Distinct}
use chain_registry_core.Common.External.{External}
use chain_registry_core.Consensus.Vrf.{indices, pick, seed_of, select_validators}

abbrev pub times : ℕ → List ℕ → ℕ
times j = count (nat_beq j)

-- A shuffle gives the same numbers in some order.
pub record IsShuffle (shuffle : Text → List ℕ → List ℕ) : Type 0 where
  pub same_length : (seed : Text) (is : List ℕ) → length (shuffle seed is) ≡ length is
  pub same_times : (seed : Text) (is : List ℕ) (j : ℕ) → times j (shuffle seed is) ≡ times j is

times-append : (j : ℕ) (is js : List ℕ) → times j (is ++ js) ≡ times j is + times j js
times-append j [] js = omega arith
times-append j (i ∷ is) js = ground (arith, times-append j is js)

times-indices : (j n : ℕ) → times j (indices n) ≡ (if ltb j n then 1 else 0)
unfolding indices
times-indices j zero = ground arith
times-indices j (suc n) = ground (arith, times-indices j n, times-append j (indices n) (n ∷ []))

length-indices : (n : ℕ) → length (indices n) ≡ n
unfolding indices
length-indices zero = refl
length-indices (suc n) = omega (arith, length-indices n, length-append (indices n) (n ∷ []))

times-take : (j k : ℕ) (is : List ℕ) → times j (take k is) ≤ times j is
times-take j zero is = omega arith
times-take j (suc k) [] = omega arith
times-take j (suc k) (i ∷ is) = ground (arith, times-take j k is)

length-take : (k : ℕ) (is : List ℕ) → k ≤ length is → length (take k is) ≡ k
length-take zero is h = refl
length-take (suc k) [] h = omega arith
length-take (suc k) (i ∷ is) h = ground (arith, length-take k is)

get_elem?-lt : (vs : List Text) (i : ℕ) → i < length vs → get_elem? vs i ≢ none
get_elem?-lt [] i h e = omega arith
get_elem?-lt (v ∷ vs) zero h e = ground (arith, e)
get_elem?-lt (v ∷ vs) (suc i) h e = get_elem?-lt vs i (omega arith) e

holds-get_elem? : (vs : List Text) (i : ℕ) (a : Text) → get_elem? vs i ≡ some a → holds a vs ≡ true
holds-get_elem? [] i a h = ground arith
holds-get_elem? (v ∷ vs) zero a h = ground (arith, text_beq_iff a v)
holds-get_elem? (v ∷ vs) (suc i) a h = ground (arith, holds-get_elem? vs i a)

get_elem?-injective :
    (vs : List Text) (i j : ℕ) (a : Text)
    → Distinct vs
    → get_elem? vs i ≡ some a
    → get_elem? vs j ≡ some a
    → i ≡ j
get_elem?-injective [] i j a d h k = ground arith
get_elem?-injective (v ∷ vs) zero zero a d h k = refl
get_elem?-injective (v ∷ vs) zero (suc j) a d h k = ground (arith, holds-get_elem? vs j a, d.0)
get_elem?-injective (v ∷ vs) (suc i) zero a d h k = ground (arith, holds-get_elem? vs i a, d.0)
get_elem?-injective (v ∷ vs) (suc i) (suc j) a d h k = ap suc (get_elem?-injective vs i j a d.1 h k)

length-pick :
    (vs : List Text) (is : List ℕ)
    → ((j : ℕ) → length vs ≤ j → times j is ≡ 0)
    → length (pick vs is) ≡ length is
unfolding pick
length-pick vs [] h = refl
length-pick vs (i ∷ is) h = elim (Option-cases (get_elem? vs i)) [
  | inl missing ↦ absurd (get_elem?-lt vs i (ground (arith, h i)) missing)
  | inr (a, found) ↦ rw (found, pick) (ap suc (length-pick vs is (λ j le. ground (arith, h j le))))
]

pick_members : (vs : List Text) (is : List ℕ) → All (λ a. holds a vs ≡ true) (pick vs is)
unfolding pick
pick_members vs [] = tt
pick_members vs (i ∷ is) = elim (Option-cases (get_elem? vs i)) [
  | inl missing ↦ rw (missing, pick) (pick_members vs is)
  | inr (a, found) ↦ rw (found, pick) (holds-get_elem? vs i a found, pick_members vs is)
]

unpicked :
    (vs : List Text) (i : ℕ) (a : Text) (is : List ℕ)
    → Distinct vs
    → get_elem? vs i ≡ some a
    → times i is ≡ 0
    → holds a (pick vs is) ≡ false
unfolding pick
unpicked vs i a [] d h z = refl
unpicked vs i a (j ∷ js) d h z = elim (Option-cases (get_elem? vs j)) [
  | inl missing ↦ rw (missing, pick) (unpicked vs i a js d h (ground arith))
  | inr (b, found) ↦
      rw (found, pick)
        (ground (arith, unpicked vs i a js d h, text_beq_iff a b, get_elem?-injective vs i j a d h))
]

pick-Distinct :
    (vs : List Text) (is : List ℕ)
    → Distinct vs
    → ((j : ℕ) → times j is ≤ 1)
    → Distinct (pick vs is)
unfolding pick
pick-Distinct vs [] d o = tt
pick-Distinct vs (i ∷ is) d o = elim (Option-cases (get_elem? vs i)) [
  | inl missing ↦ rw (missing, pick) (pick-Distinct vs is d (λ j. ground (arith, o j)))
  | inr (a, found) ↦
      rw (found, pick)
        (
          unpicked vs i a is d found (ground (arith, o i)),
          pick-Distinct vs is d (λ j. ground (arith, o j)),
        )
]

module _ (shuffle : Text → List ℕ → List ℕ) (fair : IsShuffle shuffle) where
  times-shuffle :
      (seed : Text) (n k j : ℕ)
      → times j (take k (shuffle seed (indices n))) ≤ (if ltb j n then 1 else 0)
  times-shuffle seed n k j = omega (
    arith,
    times-take j k (shuffle seed (indices n)),
    fair.same_times seed (indices n) j,
    times-indices j n,
  )

  drawn :
      (actives : List Text) (seed : Text) (n : ℕ)
      → Distinct actives
      → n ≤ length actives
      → (length (pick actives (take n (shuffle seed (indices (length actives))))) ≡ n)
        × All
            (λ a. holds a actives ≡ true)
            (pick actives (take n (shuffle seed (indices (length actives)))))
        × Distinct (pick actives (take n (shuffle seed (indices (length actives)))))
  drawn actives seed n d enough =
      let front = take n (shuffle seed (indices (length actives))) in
      let few : (j : ℕ) → times j front ≤ (if ltb j (length actives) then 1 else 0) =
        times-shuffle seed (length actives) n in
      (
        length-pick actives front (λ j le. ground (arith, few j))
            ∙ length-take n _ (
                omega (
                  arith,
                  fair.same_length seed (indices (length actives)),
                  length-indices (length actives),
                )),
        pick_members actives front,
        pick-Distinct actives front d (λ j. ground (arith, few j)),
      )

  -- A selection among distinct validators, by a shuffle that gives the same numbers in some order,
  -- is of as many validators as were asked for, all of them listed, no one twice.
  pub select_validators_committee :
      (x : External) (actives committee : List Text) (canonical : Text) (height n : ℕ)
      (vrf_output : Option Text)
      → Distinct actives
      → select_validators x shuffle actives canonical height n vrf_output ≡ ok committee
      → (length committee ≡ n) × All (λ a. holds a actives ≡ true) committee × Distinct committee
  unfolding select_validators
  select_validators_committee x actives committee canonical height n vrf_output d h =
      elim (Bool-cases (ltb (length actives) n)) [
        | inl few ↦ absurd (ground arith)
        | inr enough ↦ elim (Option-cases (x.hex_decode (seed_of x vrf_output height canonical))) [
          | inl bad ↦ absurd (ground arith)
          | inr (seed, decoded) ↦
              let picked : pick actives (take n (shuffle seed (indices (length actives))))
                  ≡ committee =
                ground arith in
              subst (λ l. (length l ≡ n) × All (λ a. holds a actives ≡ true) l × Distinct l) picked
                (drawn actives seed n d (ground arith))
        ]
      ]
