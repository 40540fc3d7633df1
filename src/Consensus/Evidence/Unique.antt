-- ===== src/Consensus/Evidence/Unique.antt =====
-- One vote for each voter, the last: the table of positions in crates/consensus/src/evidence_votes.rs
-- does what a search of the votes would do.
use chain_registry_core.Prelude.{
  ℕ, zero, suc, ◌≡◌, refl, sym, ap, ◌∙◌, inl, inr, true, Option, none, some, List, [], ◌∷◌, ◌++◌,
  map, Text, text_eq, text_beq_iff, if◌then◌else◌, length, arith, Option-cases, ◌==◌, set,
}
use chain_registry_core.Prelude.Map.{Map, lookup, lookup-insert}
use chain_registry_core.Prelude.Keys.{holds, Distinct}
use chain_registry_core.Common.Package.{ValidatorSignature}
use chain_registry_core.Consensus.Evidence.{unique_key, collect, unique_votes}

abbrev Votes : Type 0
Votes = List ValidatorSignature

-- The reference: replace the voter's vote where it stands, or add it at the end.
abbrev put_vote : ValidatorSignature → Votes → Votes
put_vote sig [] = sig ∷ []
put_vote sig (v ∷ vs) = if unique_key sig == unique_key v then sig ∷ vs else v ∷ put_vote sig vs

abbrev put_votes : Votes → Votes → Votes
put_votes [] vs = vs
put_votes (sig ∷ sigs) vs = put_votes sigs (put_vote sig vs)

abbrev index_of : Text → Votes → Option ℕ
index_of k [] = none
index_of k (v ∷ vs) =
    if k == unique_key v
    then some 0
    else elim (index_of k vs) [ none ↦ none | some i ↦ some (suc i) ]

-- The vote of a voter.
abbrev pub vote_of : Text → Votes → Option ValidatorSignature
vote_of k [] = none
vote_of k (v ∷ vs) = if k == unique_key v then some v else vote_of k vs

-- The last vote of a voter in a list of signatures.
abbrev pub last_vote : Text → Votes → Option ValidatorSignature → Option ValidatorSignature
last_vote k [] latest = latest
last_vote k (s ∷ sigs) latest = last_vote k sigs (if k == unique_key s then some s else latest)

put_vote_indexed :
    (s : ValidatorSignature) (vs : Votes)
    → put_vote s vs
      ≡ elim (index_of (unique_key s) vs) [ none ↦ vs ++ s ∷ [] | some i ↦ set vs i s ]
put_vote_indexed s [] = refl
put_vote_indexed s (v ∷ vs) = ground (arith, put_vote_indexed s vs)

index_of-append :
    (k : Text) (s : ValidatorSignature) (vs : Votes)
    → index_of k (vs ++ s ∷ []) ≡ elim (index_of k vs) [
      | some i ↦ some i
      | none ↦ if k == unique_key s then some (length vs) else none
    ]
index_of-append k s [] = ground arith
index_of-append k s (v ∷ vs) = ground (arith, index_of-append k s vs)

index_of-set :
    (k : Text) (s : ValidatorSignature) (vs : Votes) (i : ℕ)
    → index_of (unique_key s) vs ≡ some i
    → index_of k (set vs i s) ≡ index_of k vs
index_of-set k s [] i h = refl
index_of-set k s (v ∷ vs) zero h =
    ground (arith, text_beq_iff (unique_key s) (unique_key v), text_beq_iff k (unique_key v))
index_of-set k s (v ∷ vs) (suc i) h = ground (arith, index_of-set k s vs i)

-- The table gives each voter's position.
abbrev Indexes : Map Text ℕ → Votes → Type 0
Indexes seen vs = (k : Text) → lookup k seen ≡ index_of k vs

collect-put_votes :
    (sigs : Votes) (seen : Map Text ℕ) (vs : Votes)
    → Indexes seen vs
    → collect sigs seen vs ≡ put_votes sigs vs
unfolding collect
collect-put_votes [] seen vs h = refl
collect-put_votes (s ∷ sigs) seen vs h = elim (Option-cases (index_of (unique_key s) vs)) [
  | inl missing ↦
      let unseen : lookup (unique_key s) seen ≡ none = h (unique_key s) ∙ missing in
      let added : put_vote s vs ≡ vs ++ s ∷ [] = put_vote_indexed s vs ∙ rw missing in
      rw (unseen, collect)
        (collect-put_votes sigs _ (vs ++ s ∷ []) (λ k. ground (
          arith,
          lookup-insert (unique_key s) k (length vs) seen,
          index_of-append k s vs,
          h k,
          text_beq_iff k (unique_key s),
        ))
          ∙ ap (put_votes sigs) (sym added))
  | inr (i, found) ↦
      let known : lookup (unique_key s) seen ≡ some i = h (unique_key s) ∙ found in
      let replaced : put_vote s vs ≡ set vs i s = put_vote_indexed s vs ∙ rw found in
      rw (known, collect)
        (collect-put_votes sigs seen (set vs i s) (λ k. h k ∙ sym (index_of-set k s vs i found))
          ∙ ap (put_votes sigs) (sym replaced))
]

vote_of-put_vote :
    (k : Text) (s : ValidatorSignature) (vs : Votes)
    → vote_of k (put_vote s vs) ≡ (if k == unique_key s then some s else vote_of k vs)
vote_of-put_vote k s [] = refl
vote_of-put_vote k s (v ∷ vs) = ground (
  arith,
  vote_of-put_vote k s vs,
  text_beq_iff (unique_key s) (unique_key v),
  text_beq_iff k (unique_key v),
  text_beq_iff k (unique_key s),
)

vote_of-put_votes :
    (k : Text) (sigs vs : Votes) → vote_of k (put_votes sigs vs) ≡ last_vote k sigs (vote_of k vs)
vote_of-put_votes k [] vs = refl
vote_of-put_votes k (s ∷ sigs) vs =
    vote_of-put_votes k sigs (put_vote s vs) ∙ ap (last_vote k sigs) (vote_of-put_vote k s vs)

abbrev pub voters : Votes → List Text
voters = map unique_key

holds-put_vote :
    (k : Text) (s : ValidatorSignature) (vs : Votes)
    → holds k (voters (put_vote s vs)) ≡ (if k == unique_key s then true else holds k (voters vs))
holds-put_vote k s [] = refl
holds-put_vote k s (v ∷ vs) = ground (
  arith,
  holds-put_vote k s vs,
  text_beq_iff (unique_key s) (unique_key v),
  text_beq_iff k (unique_key v),
  text_beq_iff k (unique_key s),
)

put_vote-Distinct :
    (s : ValidatorSignature) (vs : Votes) → Distinct (voters vs) → Distinct (voters (put_vote s vs))
put_vote-Distinct s [] d = (refl, tt)
put_vote-Distinct s (v ∷ vs) d = ground (
  arith,
  put_vote-Distinct s vs d.1,
  holds-put_vote (unique_key v) s vs,
  text_beq_iff (unique_key s) (unique_key v),
  text_beq_iff (unique_key v) (unique_key s),
)

put_votes-Distinct :
    (sigs vs : Votes) → Distinct (voters vs) → Distinct (voters (put_votes sigs vs))
put_votes-Distinct [] vs d = d
put_votes-Distinct (s ∷ sigs) vs d =
    put_votes-Distinct sigs (put_vote s vs) (put_vote-Distinct s vs d)

unique_votes-put_votes : (sigs : Votes) → unique_votes sigs ≡ put_votes sigs []
unfolding unique_votes
unique_votes-put_votes sigs = collect-put_votes sigs [] [] (λ k. refl)

-- The votes that are counted are of distinct voters, and each voter's is the last that was given.
pub unique_votes_last :
    (sigs : Votes) (k : Text)
    → Distinct (voters (unique_votes sigs))
      × (vote_of k (unique_votes sigs) ≡ last_vote k sigs none)
unique_votes_last sigs k =
    rw (unique_votes-put_votes sigs) (put_votes-Distinct sigs [] tt, vote_of-put_votes k sigs [])
