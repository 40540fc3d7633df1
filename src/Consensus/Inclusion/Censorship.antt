-- ===== src/Consensus/Inclusion/Censorship.antt =====
-- What a tracker blames a proposer for: crates/consensus/src/forced_inclusion.rs.
use chain_registry_core.Prelude.{
  ℕ, ◌-◌, ◌≡◌, refl, ap, ◌∙◌, inl, inr, Bool, false, not, ◌&&◌, Option, none, some, List, [], ◌∷◌,
  Text, text_eq, text_beq_iff, leb, nat_beq, if◌then◌else◌, length, filterb, All, arith, ◌==◌,
  Option-cases,
}
use chain_registry_core.Prelude.Map.{
  Map, lookup, remove, values, IsMap, lookup-insert, insert-All, insert-IsMap, remove-IsMap,
  remove-All,
}
use chain_registry_core.Prelude.Keys.{holds, remove_each, lookup-remove_each}
use chain_registry_core.Consensus.Inclusion.{
  PendingTransaction, ForcedInclusionTracker, CensorshipEvidence, new_tracker, submit,
  mark_included, is_forced, forced_transactions, omitted_hashes, evidence_of, check_block,
}

-- Each transaction is filed under its hash, once.
pub record IsTracker (t : ForcedInclusionTracker) : Type 0 where
  pub once : IsMap t.pending
  pub filed : All (λ (e : Text × PendingTransaction). e.1.tx_hash ≡ e.0) t.pending

-- The events of a tracker's life.
pub data Event : Type 0 where
  submitted : Text → ℕ → Event
  included : List Text → Event

unfoldable pub step : Event → ForcedInclusionTracker → ForcedInclusionTracker
step (submitted tx_hash height) t = submit tx_hash height t
step (included tx_hashes) t = mark_included tx_hashes t

abbrev pub run : List Event → ForcedInclusionTracker → ForcedInclusionTracker
run [] t = t
run (e ∷ es) t = run es (step e t)

-- The specification, for one transaction: the height from which it is waiting.
abbrev pub waiting_step : Text → Event → Option ℕ → Option ℕ
waiting_step h (submitted tx_hash height) since =
    if h == tx_hash then elim since [ none ↦ some height | some first ↦ some first ] else since
waiting_step h (included tx_hashes) since = if holds h tx_hashes then none else since

abbrev pub waiting : Text → List Event → Option ℕ → Option ℕ
waiting h [] since = since
waiting h (e ∷ es) since = waiting h es (waiting_step h e since)

-- The height under which the tracker holds a transaction.
abbrev height_of : Text → ForcedInclusionTracker → Option ℕ
height_of h t = elim (lookup h t.pending) [ none ↦ none | some tx ↦ some tx.submitted_at_height ]

height_of-step :
    (h : Text) (e : Event) (t : ForcedInclusionTracker)
    → height_of h (step e t) ≡ waiting_step h e (height_of h t)
unfolding step submit mark_included
height_of-step h (submitted tx_hash height) t = ground (
  arith,
  lookup-insert tx_hash h (record { tx_hash = tx_hash; submitted_at_height = height }) t.pending,
  text_beq_iff h tx_hash,
)
height_of-step h (included tx_hashes) t = ground (arith, lookup-remove_each h tx_hashes t.pending)

height_of-run :
    (h : Text) (es : List Event) (t : ForcedInclusionTracker)
    → height_of h (run es t) ≡ waiting h es (height_of h t)
height_of-run h [] t = refl
height_of-run h (e ∷ es) t =
    height_of-run h es (step e t) ∙ ap (waiting h es) (height_of-step h e t)

remove_each-IsTracker :
    (hs : List Text) (m : Map Text PendingTransaction)
    → IsMap m
    → All (λ (e : Text × PendingTransaction). e.1.tx_hash ≡ e.0) m
    → IsTracker (record { pending = remove_each hs m })
remove_each-IsTracker [] m once filed = record { once = once; filed = filed }
remove_each-IsTracker (h ∷ hs) m once filed =
    remove_each-IsTracker hs (remove h m) (remove-IsMap h m once)
      (remove-All (λ (e : Text × PendingTransaction). e.1.tx_hash ≡ e.0) h m filed)

step-IsTracker : (e : Event) (t : ForcedInclusionTracker) → IsTracker t → IsTracker (step e t)
unfolding step submit mark_included
step-IsTracker (submitted tx_hash height) t v = elim (Option-cases (lookup tx_hash t.pending)) [
  | inl fresh ↦
      rw (fresh, submit)
        (record {
          once = insert-IsMap tx_hash _ t.pending v.once;
          filed =
              insert-All (λ (e : Text × PendingTransaction). e.1.tx_hash ≡ e.0) tx_hash _ t.pending
                refl v.filed;
        })
  | inr (tx, seen) ↦ rw (seen, submit) v
]
step-IsTracker (included tx_hashes) t v = remove_each-IsTracker tx_hashes t.pending v.once v.filed

run-IsTracker : (es : List Event) (t : ForcedInclusionTracker) → IsTracker t → IsTracker (run es t)
run-IsTracker [] t v = v
run-IsTracker (e ∷ es) t v = run-IsTracker es (step e t) (step-IsTracker e t v)

-- The evidence names a transaction.
abbrev pub blames : Text → Option CensorshipEvidence → Bool
blames h none = false
blames h (some e) = holds h e.omitted_tx_hashes

blames-named :
    (h proposer : Text) (height : ℕ) (hs : List Text)
    → blames h (evidence_of proposer height hs) ≡ holds h hs
blames-named h proposer height [] = refl
blames-named h proposer height (k ∷ ks) = refl

holds-omitted :
    (h : Text) (delay height : ℕ) (inc : List Text) (m : Map Text PendingTransaction)
    → IsMap m
    → All (λ (e : Text × PendingTransaction). e.1.tx_hash ≡ e.0) m
    → holds h (omitted_hashes inc (filterb (is_forced delay height) (values m)))
      ≡ elim (lookup h m) [
        | none ↦ false
        | some tx ↦ is_forced delay height tx && not (holds h inc)
      ]
unfolding omitted_hashes
holds-omitted h delay height inc [] once filed = refl
holds-omitted h delay height inc ((k, tx) ∷ m) once filed = ground (
  arith,
  holds-omitted h delay height inc m once.1 filed.1,
  text_beq_iff h k,
  text_beq_iff h tx.tx_hash,
  once.0,
  filed.0,
)

blames-evidence_of :
    (h proposer : Text) (height : ℕ) (inc : List Text) (forced : List PendingTransaction)
    → blames h (
        if nat_beq (length forced) 0
        then none
        else evidence_of proposer height (omitted_hashes inc forced))
      ≡ holds h (omitted_hashes inc forced)
unfolding omitted_hashes
blames-evidence_of h proposer height inc [] = refl
blames-evidence_of h proposer height inc (tx ∷ txs) =
    ground (arith, blames-named h proposer height (omitted_hashes inc (tx ∷ txs)))

blames-check_block :
    (h : Text) (delay : ℕ) (proposer : Text) (height : ℕ) (inc : List Text)
    (t : ForcedInclusionTracker)
    → IsTracker t
    → blames h (check_block delay proposer height inc t) ≡ elim (lookup h t.pending) [
      | none ↦ false
      | some tx ↦ is_forced delay height tx && not (holds h inc)
    ]
unfolding check_block forced_transactions
blames-check_block h delay proposer height inc t v =
    let forced = filterb (is_forced delay height) (values t.pending) in
    blames-evidence_of h proposer height inc forced
    ∙ holds-omitted h delay height inc t.pending v.once v.filed

-- Whatever was submitted and included before, a block is blamed for leaving out a transaction exactly
-- when the transaction waits, since its first submission after its last inclusion, for at least the
-- delay, and the block does not include it.
pub blame_exact :
    (h : Text) (delay : ℕ) (proposer : Text) (height : ℕ) (inc : List Text) (es : List Event)
    → blames h (check_block delay proposer height inc (run es new_tracker))
      ≡ elim (waiting h es none) [
        | none ↦ false
        | some since ↦ leb delay (height - since) && not (holds h inc)
      ]
unfolding is_forced new_tracker
blame_exact h delay proposer height inc es =
    let t = run es new_tracker in
    let fresh : IsTracker new_tracker = record { once = tt; filed = tt } in
    blames-check_block h delay proposer height inc t (run-IsTracker es new_tracker fresh)
    ∙ ground (arith, height_of-run h es new_tracker)
