-- ===== src/Consensus/Vrf/Primary.antt =====
-- The first proposer of the order is the one that is selected: crates/consensus/src/vrf.rs.
use chain_registry_core.Prelude.{
  ◌≡◌, refl, sym, ap, ◌∙◌, subst, inl, inr, ◌⊎◌, length, true, some, List, [], ◌∷◌, map, Text,
  text_beq_iff, text_leb, if◌then◌else◌, arith, All, Bool-cases, first,
}
use chain_registry_core.Prelude.Sort.{
  sort_by, insert_sorted, min_by, min_from, IsSorted, sort_by-IsSorted, length-sort_by,
}
use chain_registry_core.Common.External.{External}
use chain_registry_core.Consensus.Vrf.{
  VrfValidator, score_leb, score_id_leb, first_id, scored, rank_proposers,
  select_proposer_deterministic,
}
use chain_registry_core.Consensus.Vrf.Ranking.{
  text_leb_total, text_leb_trans, text_leb_antisym, score_id_total, score_id_trans,
}

abbrev Score : Type 0
Score = Text × Text

text_leb_refl : (s : Text) → text_leb s s ≡ true
text_leb_refl [] = refl
text_leb_refl (a ∷ s) = ground (arith, text_leb_refl s)

All-min_from :
    (P : Score → Type 0) (x : Score) (ys : List Score)
    → All P (x ∷ ys)
    → P (min_from score_leb x ys)
unfolding min_from
All-min_from P x [] a = a.0
All-min_from P x (y ∷ ys) a = elim (Bool-cases (score_leb x y)) [
  | inl le ↦ rw le (All-min_from P x ys (a.0, a.1.1))
  | inr gt ↦ rw gt (All-min_from P y ys a.1)
]

-- The least score is at most a score that is at most it already.
min_from-le :
    (z x : Score) (ys : List Score)
    → score_leb x z ≡ true
    → score_leb (min_from score_leb x ys) z ≡ true
unfolding min_from
min_from-le z x [] h = h
min_from-le z x (y ∷ ys) h = ground (
  arith,
  min_from-le z (if score_leb x y then x else y) ys,
  text_leb_total x.1 y.1,
  text_leb_trans y.1 x.1 z.1,
)

least_of_rest :
    (x : Score) (ys : List Score) → All (λ z. score_leb (min_from score_leb x ys) z ≡ true) ys
unfolding min_from
least_of_rest x [] = tt
least_of_rest x (y ∷ ys) =
    let w : Score = if score_leb x y then x else y in
    (min_from-le y w ys (ground (arith, text_leb_refl y.1)), least_of_rest w ys)

min_from-least :
    (x : Score) (ys : List Score) → All (λ z. score_leb (min_from score_leb x ys) z ≡ true) (x ∷ ys)
min_from-least x ys = (min_from-le x x ys (text_leb_refl x.1), least_of_rest x ys)

All-insert_sorted :
    (P : Score → Type 0) (x : Score) (ys : List Score)
    → (All P (x ∷ ys) → All P (insert_sorted score_id_leb x ys))
      × (All P (insert_sorted score_id_leb x ys) → All P (x ∷ ys))
unfolding insert_sorted
All-insert_sorted P x [] = (λ a. a, λ a. a)
All-insert_sorted P x (y ∷ ys) = elim (Bool-cases (score_id_leb x y)) [
  | inl le ↦ rw le (λ a. a, λ a. a)
  | inr gt ↦
      let (into, out) = All-insert_sorted P x ys in
      rw gt (λ a. (a.1.0, into (a.0, a.1.1)), λ a. ((out a.1).0, (a.0, (out a.1).1)))
]

All-sort_by :
    (P : Score → Type 0) (xs : List Score)
    → (All P xs → All P (sort_by score_id_leb xs)) × (All P (sort_by score_id_leb xs) → All P xs)
unfolding sort_by
All-sort_by P [] = (λ a. a, λ a. a)
All-sort_by P (x ∷ xs) =
    let (into, out) = All-insert_sorted P x (sort_by score_id_leb xs) in
    let (into', out') = All-sort_by P xs in
    (λ a. into (a.0, into' a.1), λ a. ((out a).0, out' (out a).1))

-- Equal scores are of the same validator.
abbrev pub Separated : List Score → Type 0
Separated xs = All (λ p. All (λ q. p.1 ≡ q.1 → p.0 ≡ q.0) xs) xs

head_least :
    (h : Score) (hs : List Score)
    → IsSorted score_id_leb (h ∷ hs)
    → All (λ z. score_id_leb h z ≡ true) (h ∷ hs)
head_least h hs s = (ground (arith, text_leb_refl h.0, text_beq_iff h.1 h.1), s.0)

-- The head of the order and the least score, where a validator has each.
heads_agree :
    (h x : Score) (hs xs : List Score)
    → sort_by score_id_leb (x ∷ xs) ≡ h ∷ hs
    → Separated (x ∷ xs)
    → h.0 ≡ (min_from score_leb x xs).0
heads_agree h x hs xs e sep =
    let m = min_from score_leb x xs in
    let sorted : IsSorted score_id_leb (h ∷ hs) =
      subst (IsSorted score_id_leb) e
        (sort_by-IsSorted score_id_leb score_id_total score_id_trans (x ∷ xs)) in
    let over : (P : Score → Type 0) → All P (x ∷ xs) → All P (h ∷ hs) =
      λ P a. subst (All P) e ((All-sort_by P (x ∷ xs)).0 a) in
    let back : (P : Score → Type 0) → All P (h ∷ hs) → All P (x ∷ xs) =
      λ P a. (All-sort_by P (x ∷ xs)).1 (subst (All P) (sym e) a) in
    let low : score_id_leb h m ≡ true =
      All-min_from (λ z. score_id_leb h z ≡ true) x xs
        (back (λ z. score_id_leb h z ≡ true) (head_least h hs sorted)) in
    let least : score_leb m h ≡ true = (over (λ z. score_leb m z ≡ true) (min_from-least x xs)).0 in
    let apart : h.1 ≡ m.1 → h.0 ≡ m.0 =
      All-min_from (λ q. h.1 ≡ q.1 → h.0 ≡ q.0) x xs
        (over (λ p. All (λ q. p.1 ≡ q.1 → p.0 ≡ q.0) (x ∷ xs)) sep).0 in
    apart (ground (arith, low, least, text_leb_antisym h.1 m.1, text_beq_iff h.1 m.1))

list-cases : (xs : List Score) → (xs ≡ []) ⊎ ((h : Score) × (hs : List Score) × (xs ≡ h ∷ hs))
list-cases [] = inl refl
list-cases (h ∷ hs) = inr (h, hs, refl)

primary_of :
    (xs : List Score)
    → Separated xs
    → first (map (λ (p : Text × Text). p.0) (sort_by score_id_leb xs))
      ≡ first_id (min_by score_leb xs)
unfolding min_by sort_by
primary_of [] sep = refl
primary_of (x ∷ xs) sep = elim (list-cases (sort_by score_id_leb (x ∷ xs))) [
  | inl none_left ↦
      absurd (ground (arith, length-sort_by score_id_leb (x ∷ xs), ap length none_left))
  | inr (h, hs, e) ↦
      ap (λ l. first (map (λ (p : Text × Text). p.0) l)) e ∙ ap some (heads_agree h x hs xs e sep)
]

-- Where no two validators have the same score, the first proposer of the ranking is the one that is
-- selected, and there is none in either where no validator is listed.
pub primary_leads :
    (x : External) (vs : List VrfValidator) (seed : Text)
    → Separated (map (scored x seed) vs)
    → first (rank_proposers x vs seed) ≡ select_proposer_deterministic x vs seed
unfolding rank_proposers select_proposer_deterministic
primary_leads x vs seed sep = primary_of (map (scored x seed) vs) sep
