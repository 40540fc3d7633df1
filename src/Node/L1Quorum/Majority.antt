-- ===== src/Node/L1Quorum/Majority.antt =====
-- A hash is agreed on exactly when a majority gave it: crates/node/src/l1_quorum.rs.
use chain_registry_core.Prelude.{
  ℕ, suc, ◌+◌, ◌*◌, ◌≤◌, ◌<◌, ◌≡◌, ◌↔◌, sym, ap, ◌∙◌, subst, inl, inr, true, false, none, some,
  List, [], ◌∷◌, Text, text_eq, text_beq_iff, leb, ltb, if◌then◌else◌, length, arith, All, ◌==◌,
  Bool-cases,
}
use chain_registry_core.Prelude.Map.{Map, lookup, insert, lookup-insert, insert-IsMap, IsMap}
use chain_registry_core.Prelude.Count.{count}
use chain_registry_core.Node.L1Quorum.{
  normalised, or_zero, counts, most_from, winner, majority_hash,
}

-- How many of the endpoints gave a hash.
abbrev pub votes_for : Text → List Text → ℕ
votes_for h = count (λ g. h == normalised g)

lookup-counts :
    (h : Text) (hs : List Text) (m : Map Text ℕ)
    → or_zero (lookup h (counts hs m)) ≡ or_zero (lookup h m) + votes_for h hs
unfolding counts
lookup-counts h [] m = omega arith
lookup-counts h (g ∷ hs) m =
    let next = suc (or_zero (lookup (normalised g) m)) in
    ground (
      arith,
      lookup-counts h hs (insert (normalised g) next m),
      lookup-insert (normalised g) h next m,
      text_beq_iff h (normalised g),
    )

counts-IsMap : (hs : List Text) (m : Map Text ℕ) → IsMap m → IsMap (counts hs m)
unfolding counts
counts-IsMap [] m h = h
counts-IsMap (g ∷ hs) m h = counts-IsMap hs _ (insert-IsMap (normalised g) _ m h)

-- Two hashes share no endpoint.
votes_apart :
    (g h : Text) (hs : List Text) → (g == h) ≡ false → votes_for g hs + votes_for h hs ≤ length hs
votes_apart g h [] apart = omega arith
votes_apart g h (k ∷ hs) apart = ground (
  arith,
  votes_apart g h hs apart,
  text_beq_iff g (normalised k),
  text_beq_iff h (normalised k),
  text_beq_iff g h,
)

All-most_from :
    (P : Text × ℕ → Type 0) (e : Text × ℕ) (m : Map Text ℕ) → All P (e ∷ m) → P (most_from e m)
All-most_from P e [] a = a.0
All-most_from P e (f ∷ m) a = elim (Bool-cases (leb e.1 f.1)) [
  | inl le ↦ rw le (All-most_from P f m a.1)
  | inr gt ↦ rw gt (All-most_from P e m (a.0, a.1.1))
]

most_from-le : (c : ℕ) (e : Text × ℕ) (m : Map Text ℕ) → c ≤ e.1 → c ≤ (most_from e m).1
most_from-le c e [] h = h
most_from-le c e (f ∷ m) h = ground (arith, most_from-le c (if leb e.1 f.1 then f else e) m)

most_of_rest : (e : Text × ℕ) (m : Map Text ℕ) → All (λ (f : Text × ℕ). f.1 ≤ (most_from e m).1) m
most_of_rest e [] = tt
most_of_rest e (f ∷ m) =
    let w : Text × ℕ = if leb e.1 f.1 then f else e in
    (most_from-le f.1 w m (ground arith), most_of_rest w m)

own_rest :
    (k : Text) (n : ℕ) (m : Map Text ℕ)
    → lookup k m ≡ none
    → (part : Map Text ℕ) → All (λ (e : Text × ℕ). lookup e.0 m ≡ some e.1) part
    → All (λ (e : Text × ℕ). lookup e.0 ((k, n) ∷ m) ≡ some e.1) part
own_rest k n m fresh [] a = tt
own_rest k n m fresh (e ∷ part) a =
    (ground (arith, a.0, fresh, text_beq_iff e.0 k), own_rest k n m fresh part a.1)

own_entry : (m : Map Text ℕ) → IsMap m → All (λ (e : Text × ℕ). lookup e.0 m ≡ some e.1) m
own_entry [] once = tt
own_entry ((k, n) ∷ m) once =
    (ground (arith, text_beq_iff k k), own_rest k n m once.0 m (own_entry m once.1))

most_votes :
    (h : Text) (m : Map Text ℕ) (c : ℕ)
    → All (λ (f : Text × ℕ). f.1 ≤ c) m
    → or_zero (lookup h m) ≤ c
most_votes h [] c a = omega arith
most_votes h ((k, n) ∷ m) c a = ground (arith, a.0, most_votes h m c a.1)

winner_iff :
    (hs : List Text) (m : Map Text ℕ) (h : Text)
    → IsMap m
    → ((g : Text) → or_zero (lookup g m) ≡ votes_for g hs)
    → (winner (length hs) m ≡ some h) ↔ (length hs < votes_for h hs * 2)
winner_iff hs [] h once tallied = (λ e. ground (arith, e), λ l. ground (arith, tallied h, l))
winner_iff hs (e ∷ m) h once tallied =
    let best = most_from e m in
    let found : lookup best.0 (e ∷ m) ≡ some best.1 =
      All-most_from (λ (f : Text × ℕ). lookup f.0 (e ∷ m) ≡ some f.1) e m
        (own_entry (e ∷ m) once) in
    let exact : best.1 ≡ votes_for best.0 hs = sym (ap or_zero found) ∙ tallied best.0 in
    (
      λ won. elim (Bool-cases (ltb (length hs) (best.1 * 2))) [
        | inl enough ↦
            let same : best.0 ≡ h = ground (arith, won, enough) in
            subst (λ k. length hs < votes_for k hs * 2) same (ground (arith, exact, enough))
        | inr short ↦ absurd (ground (arith, won, short))
      ],
      λ majority. elim (Bool-cases (best.0 == h)) [
        | inl hit ↦
            let same : best.0 ≡ h = (text_beq_iff best.0 h).0 hit in
            let all_of_them : votes_for best.0 hs ≡ votes_for h hs =
              ap (λ k. votes_for k hs) same in
            let enough : ltb (length hs) (best.1 * 2) ≡ true =
              ground (arith, exact, all_of_them, majority) in
            rw enough (ap some same)
        | inr other ↦ absurd (
            omega (
              arith,
              votes_apart best.0 h hs other,
              exact,
              majority,
              most_votes h (e ∷ m) best.1 (most_from-le e.1 e m (omega arith), most_of_rest e m),
              tallied h,
            ))
      ],
    )

-- A hash is returned exactly when more than half of the endpoints gave it, up to case and white
-- space around it.
pub majority_hash_iff :
    (hs : List Text) (h : Text) → (majority_hash hs ≡ some h) ↔ (length hs < votes_for h hs * 2)
unfolding majority_hash
majority_hash_iff [] h = (λ e. ground (arith, e), λ l. ground (arith, l))
majority_hash_iff (g ∷ hs) h =
    winner_iff (g ∷ hs) (counts (g ∷ hs) []) h (counts-IsMap (g ∷ hs) [] tt)
      (λ k. lookup-counts k (g ∷ hs) [] ∙ omega arith)
