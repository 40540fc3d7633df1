-- ===== src/Consensus/Vrf/Ranking.antt =====
-- The order of the proposers of a slot: crates/consensus/src/vrf.rs.
use chain_registry_core.Prelude.{
  ◌≡◌, ◌⊎◌, inl, inr, refl, true, false, List, [], ◌∷◌, ◌++◌, map, Text, txt, text_beq,
  text_beq_iff, text_leb, arith, All, Bool-cases,
}
use chain_registry_core.Prelude.Sort.{sort_by, IsSorted, sort_by-perm, sort_by-IsSorted}
use mathlib.Core.List.{Perm}
use chain_registry_core.Common.External.{External}
use chain_registry_core.Consensus.Vrf.{VrfValidator, score_id_leb, scored, rank_proposers}

pub text_leb_total : (s t : Text) → text_leb s t ≡ false → text_leb t s ≡ true
text_leb_total [] t h = ground arith
text_leb_total (a ∷ s) [] h = refl
text_leb_total (a ∷ s) (b ∷ t) h = ground (arith, text_leb_total s t)

pub text_leb_trans :
    (s t u : Text) → text_leb s t ≡ true → text_leb t u ≡ true → text_leb s u ≡ true
text_leb_trans [] t u h k = refl
text_leb_trans (a ∷ s) [] u h k = ground arith
text_leb_trans (a ∷ s) (b ∷ t) [] h k = ground arith
text_leb_trans (a ∷ s) (b ∷ t) (c ∷ u) h k = ground (arith, text_leb_trans s t u)

pub text_leb_antisym : (s t : Text) → text_leb s t ≡ true → text_leb t s ≡ true → s ≡ t
text_leb_antisym [] [] h k = refl
text_leb_antisym [] (b ∷ t) h k = ground arith
text_leb_antisym (a ∷ s) [] h k = ground arith
text_leb_antisym (a ∷ s) (b ∷ t) h k = ground (arith, text_leb_antisym s t)

pub score_id_total : (a b : Text × Text) → score_id_leb a b ≡ false → score_id_leb b a ≡ true
score_id_total a b h = ground (
  arith,
  text_leb_total a.0 b.0,
  text_leb_total a.1 b.1,
  text_beq_iff a.1 b.1,
  text_beq_iff b.1 a.1,
)

pub score_id_trans :
    (a b c : Text × Text)
    → score_id_leb a b ≡ true
    → score_id_leb b c ≡ true
    → score_id_leb a c ≡ true
score_id_trans a b c h k = ground (
  arith,
  text_leb_trans a.0 b.0 c.0,
  text_leb_trans a.1 b.1 c.1,
  text_leb_antisym a.1 b.1,
  text_beq_iff a.1 b.1,
  text_beq_iff b.1 c.1,
  text_beq_iff a.1 c.1,
)

-- A lower score, or the same score and an id that is not greater, in the order of their bytes.
abbrev pub Precedes : Text × Text → Text × Text → Type 0
Precedes a b = (text_leb b.1 a.1 ≡ false) ⊎ ((a.1 ≡ b.1) × (text_leb a.0 b.0 ≡ true))

abbrev pub InOrder : List (Text × Text) → Type 0
InOrder [] = Unit {0}
InOrder (a ∷ l) = All (Precedes a) l × InOrder l

score_id-Precedes : (a b : Text × Text) → score_id_leb a b ≡ true → Precedes a b
score_id-Precedes a b h = elim (Bool-cases (text_beq a.1 b.1)) [
  | inl same ↦ inr ((text_beq_iff a.1 b.1).0 same, ground (arith, h, same))
  | inr other ↦ inl (ground (arith, h, other, text_leb_antisym a.1 b.1, text_beq_iff a.1 b.1))
]

All-Precedes :
    (a : Text × Text) (l : List (Text × Text))
    → All (λ b. score_id_leb a b ≡ true) l
    → All (Precedes a) l
All-Precedes a [] h = tt
All-Precedes a (b ∷ l) h = (score_id-Precedes a b h.0, All-Precedes a l h.1)

IsSorted-InOrder : (l : List (Text × Text)) → IsSorted score_id_leb l → InOrder l
IsSorted-InOrder [] h = tt
IsSorted-InOrder (a ∷ l) h = (All-Precedes a l h.0, IsSorted-InOrder l h.1)

-- The ranking names every validator, each as often as it is listed, by ascending hash of its key and
-- the seed, joined by a colon, and by ascending id where these are equal.
pub rank_proposers_ordered :
    (x : External) (vs : List VrfValidator) (seed : Text)
    → (ranked : List (Text × Text)) × (rank_proposers x vs seed
        ≡ map (λ (p : Text × Text). p.0) ranked)
      × Perm ranked
          (map (λ (v : VrfValidator). (v.id, x.sha256_hex (v.pubkey ++ (txt ":" ++ seed)))) vs)
      × InOrder ranked
unfolding rank_proposers scored
rank_proposers_ordered x vs seed = (
  sort_by score_id_leb (map (scored x seed) vs),
  refl,
  sort_by-perm score_id_leb (map (scored x seed) vs),
  IsSorted-InOrder _
      (sort_by-IsSorted score_id_leb score_id_total score_id_trans (map (scored x seed) vs)),
)
