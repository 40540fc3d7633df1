-- ===== src/Consensus/Pbft/Reset.antt =====
-- What a view change undoes: crates/consensus/src/pbft.rs.
use chain_registry_core.Prelude.{
  ℕ, suc, ◌+◌, ◌/◌, ◌≤◌, ◌<◌, ◌≡◌, refl, sym, ap, ◌∙◌, subst, true, false, none, some, List, [],
  ◌∷◌, ◌++◌, Text, text_eq, text_beq_iff, nat_eq, length, arith, All, incr32, ◌==◌,
}
use chain_registry_core.Prelude.Map.{Map, lookup, lookup-insert, lookup-insert_self, length-insert}
use chain_registry_core.Prelude.Keys.{holds, Distinct}
use chain_registry_core.Common.External.{External}
use chain_registry_core.Consensus.ValidatorSet.{active_count}
use chain_registry_core.Consensus.Pbft.Round.{
  PbftPhase, PbftRound, certificates, enough_certificates, add_certificate, record_view_change,
  trigger_view_change,
}
use chain_registry_core.Consensus.Pbft.Invariant.{Event, view_certified, after, run}

-- The certificates that a round holds for a view.
abbrev held : ℕ → PbftRound → Map Text (Unit {0})
held view r = elim (lookup view r.view_change_votes) [ none ↦ [] | some votes ↦ votes ]

-- Certificates for one view.
abbrev pub call_for : ℕ → ℕ → List Text → List Event
call_for now view [] = []
call_for now view (id ∷ ids) = view_certified now id view ∷ call_for now view ids

held-add_certificate :
    (id : Text) (view : ℕ) (r : PbftRound)
    → held view (add_certificate id view r) ≡ certificates r id view
unfolding add_certificate
held-add_certificate id view r =
    rw (lookup-insert_self view (certificates r id view) r.view_change_votes, held) refl

length-certificates :
    (id : Text) (view : ℕ) (r : PbftRound)
    → lookup id (held view r) ≡ none
    → length (certificates r id view) ≡ suc (length (held view r))
unfolding certificates
length-certificates id view r new = ground (arith, length-insert id tt (held view r), new)

lookup-certificates :
    (id k : Text) (view : ℕ) (r : PbftRound)
    → lookup k (held view r) ≡ none
    → (k == id) ≡ false
    → lookup k (certificates r id view) ≡ none
unfolding certificates
lookup-certificates id k view r new apart =
    ground (arith, lookup-insert id k tt (held view r), new, apart)

All-certificates :
    (id : Text) (ids : List Text) (view : ℕ) (r : PbftRound)
    → All (λ k. lookup k (held view r) ≡ none) ids
    → holds id ids ≡ false
    → All (λ k. lookup k (certificates r id view) ≡ none) ids
All-certificates id [] view r new apart = tt
All-certificates id (k ∷ ids) view r new apart = (
  lookup-certificates id k view r new.0
      (ground (arith, apart, text_beq_iff id k, text_beq_iff k id)),
  All-certificates id ids view r new.1 (ground (arith, apart)),
)

few_held :
    (now : ℕ) (id : Text) (view : ℕ) (r : PbftRound)
    → lookup id (held view r) ≡ none
    → suc (length (held view r)) ≤ active_count r.validator_set / 3
    → (record_view_change now id view r).1 ≡ add_certificate id view r
unfolding record_view_change enough_certificates
few_held now id view r new few = ground (arith, length-certificates id view r new)

-- What a round has after the first certificates for a view.
record IsGathered (view : ℕ) (n : ℕ) (last : Text) (r s : PbftRound) : Type 0 where
  only_votes : s ≡ record r { view_change_votes = s.view_change_votes }
  gathered : length (held view s) ≡ length (held view r) + n
  without_last : lookup last (held view s) ≡ none

call_for-IsGathered :
    (x : External) (now view : ℕ) (last : Text) (ids : List Text) (r : PbftRound)
    → Distinct ids
    → holds last ids ≡ false
    → lookup last (held view r) ≡ none
    → All (λ k. lookup k (held view r) ≡ none) ids
    → length (held view r) + length ids ≤ active_count r.validator_set / 3
    → IsGathered view (length ids) last r (run x (call_for now view ids) r)
unfolding run after add_certificate
call_for-IsGathered x now view last [] r d other new fresh few = record {
  only_votes = refl;
  gathered = omega arith;
  without_last = new;
}
call_for-IsGathered x now view last (id ∷ ids) r d other new fresh few =
    let q = add_certificate id view r in
    let now_held = held-add_certificate id view r in
    let one_more : length (held view q) ≡ suc (length (held view r)) =
      ap length now_held ∙ length-certificates id view r fresh.0 in
    let rest =
      call_for-IsGathered x now view last ids q d.1 (ground (arith, other))
        (ap (lookup last) now_held ∙ lookup-certificates id last view r new (ground (arith, other)))
        (subst (λ m. All (λ k. lookup k m ≡ none) ids) (sym now_held)
          (All-certificates id ids view r fresh.1 d.0))
        (omega (arith, few, one_more)) in
    subst (λ s. IsGathered view (suc (length ids)) last r (run x (call_for now view ids) s))
      (sym (few_held now id view r fresh.0 (omega (arith, few))))
      (record {
        only_votes = rest.only_votes;
        gathered = rest.gathered ∙ omega (arith, one_more);
        without_last = rest.without_last;
      })

reset_by_enough :
    (now : ℕ) (id : Text) (view : ℕ) (r : PbftRound)
    → enough_certificates r id view ≡ true
    → r.view_change_count < r.config.max_view_changes
    → ((record_view_change now id view r).1.phase ≡ PbftPhase.pre_prepare)
      × ((record_view_change now id view r).1.commit_sigs ≡ [])
      × ((record_view_change now id view r).1.view_number ≡ incr32 r.view_number)
unfolding record_view_change trigger_view_change add_certificate
reset_by_enough now id view r enough left = ground arith

None-held :
    (view : ℕ) (r : PbftRound) (ids : List Text)
    → held view r ≡ []
    → All (λ k. lookup k (held view r) ≡ none) ids
None-held view r [] empty = tt
None-held view r (k ∷ ids) empty = (ap (lookup k) empty, None-held view r ids empty)

run-call_for :
    (x : External) (now view : ℕ) (last : Text) (ids : List Text) (r : PbftRound)
    → run x (call_for now view (ids ++ last ∷ [])) r
      ≡ (record_view_change now last view (run x (call_for now view ids) r)).1
unfolding run after
run-call_for x now view last [] r = refl
run-call_for x now view last (id ∷ ids) r =
    run-call_for x now view last ids (record_view_change now id view r).1

-- Certificates of n/3 + 1 distinct senders for one later view, for which a finalised round holds none
-- yet, put it back to its first phase, in the next view and without its commits, where the limit on
-- view changes is not reached; the first n/3 of them leave it finalised.
pub finalised_round_reset :
    (x : External) (now view : ℕ) (last : Text) (ids : List Text) (r : PbftRound)
    → r.phase ≡ PbftPhase.finalised
    → lookup view r.view_change_votes ≡ none
    → r.view_number < view
    → r.view_change_count < r.config.max_view_changes
    → Distinct (last ∷ ids)
    → length ids ≡ active_count r.validator_set / 3
    → ((run x (call_for now view ids) r).phase ≡ PbftPhase.finalised)
      × ((run x (call_for now view ids) r).commit_sigs ≡ r.commit_sigs)
      × ((run x (call_for now view (ids ++ last ∷ [])) r).phase ≡ PbftPhase.pre_prepare)
      × ((run x (call_for now view (ids ++ last ∷ [])) r).commit_sigs ≡ [])
      × ((run x (call_for now view (ids ++ last ∷ [])) r).view_number ≡ incr32 r.view_number)
unfolding run after record_view_change trigger_view_change add_certificate enough_certificates
finalised_round_reset x now view last ids r fin fresh ahead left d size =
    let s = run x (call_for now view ids) r in
    let empty : held view r ≡ [] = rw (fresh, held) refl in
    let from =
      call_for-IsGathered x now view last ids r d.1 d.0 (ap (lookup last) empty)
        (None-held view r ids empty) (omega (arith, ap length empty, size)) in
    let same = from.only_votes in
    let enough : enough_certificates s last view ≡ true = ground (
      arith,
      length-certificates last view s from.without_last,
      from.gathered,
      ap length empty,
      size,
      ap (λ t. t.validator_set) same,
      ap (λ t. t.view_number) same,
    ) in
    let reset =
      reset_by_enough now last view s enough
        (subst (λ t. t.view_change_count < t.config.max_view_changes) (sym same) left) in
    let joined = run-call_for x now view last ids r in
    (
      ap (λ t. t.phase) same ∙ fin,
      ap (λ t. t.commit_sigs) same,
      ap (λ t. t.phase) joined ∙ reset.0,
      ap (λ t. t.commit_sigs) joined ∙ reset.1,
      ap (λ t. t.view_number) joined ∙ reset.2 ∙ ap (λ t. incr32 t.view_number) same,
    )
