-- ===== src/Consensus/Pbft/ViewChange.antt =====
-- View changes: who can force one, and what it undoes. crates/consensus/src/pbft.rs.
use chain_registry_core.Prelude.{
  ℕ, ◌/◌, ◌≤◌, ◌≡◌, refl, sym, subst, inl, inr, true, List, [], ◌∷◌, Text, text_eq, nat_eq, length,
  arith, All, Option-cases,
}
use chain_registry_core.Prelude.Map.{Map, lookup, insert-All, lookup-All, insert-IsMap, IsMap}
use chain_registry_core.Prelude.Keys.{holds, length-le_of_keys}
use chain_registry_core.Common.External.{External}
use chain_registry_core.Consensus.ValidatorSet.{active_count}
use chain_registry_core.Consensus.Pbft.Round.{
  PbftRound, certificates, enough_certificates, add_certificate, record_view_change,
}
use chain_registry_core.Consensus.Pbft.Invariant.{Event, view_certified, after, run}

-- The certificates for each view are of distinct senders, all in `senders`.
abbrev pub Within : List Text → Map ℕ (Map Text (Unit {0})) → Type 0
Within senders = All λ v. IsMap v.1 × All (λ (t : Text × Unit {0}). holds t.0 senders ≡ true) v.1

-- The parts of a round that certificates alone do not change.
pub record IsSameView (r s : PbftRound) : Type 0 where
  pub same_phase : s.phase ≡ r.phase
  pub same_view : s.view_number ≡ r.view_number
  pub same_count : s.view_change_count ≡ r.view_change_count
  pub same_prepares : s.prepare_sigs ≡ r.prepare_sigs
  pub same_commits : s.commit_sigs ≡ r.commit_sigs
  pub same_set : s.validator_set ≡ r.validator_set

certificates-Within :
    (senders : List Text) (id : Text) (view : ℕ) (r : PbftRound)
    → Within senders r.view_change_votes
    → holds id senders ≡ true
    → IsMap (certificates r id view)
      × All (λ (t : Text × Unit {0}). holds t.0 senders ≡ true) (certificates r id view)
unfolding certificates
certificates-Within senders id view r w known =
    elim (Option-cases (lookup view r.view_change_votes)) [
      | inl missing ↦ rw (missing, certificates) ((refl, tt), (known, tt))
      | inr (votes, found) ↦
          let old =
            lookup-All
              (λ (v : ℕ × Map Text (Unit {0})).
                IsMap v.1 × All (λ (t : Text × Unit {0}). holds t.0 senders ≡ true) v.1)
              view r.view_change_votes w found in
          rw (found, certificates)
            (
              insert-IsMap id tt votes old.0,
              insert-All (λ (t : Text × Unit {0}). holds t.0 senders ≡ true) id tt votes known
                  old.1,
            )
    ]

-- The certificates of a few senders, with the time of arrival.
abbrev pub certify : List (ℕ × Text × ℕ) → List Event
certify [] = []
certify ((now, id, view) ∷ cs) = view_certified now id view ∷ certify cs

few_step :
    (senders : List Text) (now : ℕ) (id : Text) (view : ℕ) (r : PbftRound)
    → length senders ≤ active_count r.validator_set / 3
    → Within senders r.view_change_votes
    → holds id senders ≡ true
    → (record_view_change now id view r).1 ≡ add_certificate id view r
unfolding record_view_change enough_certificates
few_step senders now id view r few w known =
    let (one, from) = certificates-Within senders id view r w known in
    ground (arith, length-le_of_keys (certificates r id view) senders one from)

add_certificate-Within :
    (senders : List Text) (id : Text) (view : ℕ) (r : PbftRound)
    → Within senders r.view_change_votes
    → holds id senders ≡ true
    → Within senders (add_certificate id view r).view_change_votes
unfolding add_certificate
add_certificate-Within senders id view r w known =
    insert-All
      (λ (v : ℕ × Map Text (Unit {0})).
        IsMap v.1 × All (λ (t : Text × Unit {0}). holds t.0 senders ≡ true) v.1)
      view (certificates r id view) r.view_change_votes
      (certificates-Within senders id view r w known) w

-- However often they send certificates, for whichever views, a group of at most n/3 senders moves
-- no round to another view and erases no vote, where no other certificate is stored.
pub few_certificates_keep_view :
    (x : External) (senders : List Text) (cs : List (ℕ × Text × ℕ)) (r : PbftRound)
    → length senders ≤ active_count r.validator_set / 3
    → Within senders r.view_change_votes
    → All (λ c. holds c.1 senders ≡ true) cs
    → IsSameView r (run x (certify cs) r)
unfolding run after add_certificate
few_certificates_keep_view x senders [] r few w from = record {
  same_phase = refl;
  same_view = refl;
  same_count = refl;
  same_prepares = refl;
  same_commits = refl;
  same_set = refl;
}
few_certificates_keep_view x senders ((now, id, view) ∷ cs) r few w from =
    subst (λ s. IsSameView r (run x (certify cs) s))
      (sym (few_step senders now id view r few w from.0))
      (let rest =
          few_certificates_keep_view x senders cs (add_certificate id view r) few
            (add_certificate-Within senders id view r w from.0) from.1 in
        record {
          same_phase = rest.same_phase;
          same_view = rest.same_view;
          same_count = rest.same_count;
          same_prepares = rest.same_prepares;
          same_commits = rest.same_commits;
          same_set = rest.same_set;
        })
