-- ===== src/Node/Sync/Quorum.antt =====
-- crates/node/src/sync.rs: the signatures behind a block that is accepted from a peer.
use chain_registry_core.Prelude.{
  ℕ, ◌+◌, ◌*◌, ◌/◌, ◌≤◌, Bool, true, false, List, [], ◌∷◌, Text, text_eq, nat_beq, ltb,
  if◌then◌else◌, length, All, Result, ok, err, ◌>>◌, ◌≡◌, inl, inr, refl, arith, Bool-cases,
}
use chain_registry_core.Prelude.Map.{values}
use chain_registry_core.Prelude.Keys.{Distinct}
use chain_registry_core.Common.Package.{ChainRecord}
use chain_registry_core.Common.Block.{
  Block, Transaction, publish, revoke, slash, validator_join, validator_leave, rotate_publisher_key,
}
use chain_registry_core.Common.External.{External}
use chain_registry_core.Consensus.ValidatorSet.{Validator}
use chain_registry_core.Node.Signatures.{
  SyncError, empty_set, insufficient, known_keys, largest, group, check_record, check_records,
  verify_block_signatures,
}
use chain_registry_core.Node.Sync.Voters.{
  voters, IsVote, group-IsMap, largest-le-lookup, voters-IsTally, lookup-group,
}

-- No transaction publishes a package.
unfoldable pub publishes_none : List Transaction → Bool
publishes_none [] = true
publishes_none (publish r ∷ txs) = false
publishes_none (tx ∷ txs) = publishes_none txs

both-ok : (m k : Result SyncError (Unit {0})) → m >> k ≡ ok tt → (m ≡ ok tt) × (k ≡ ok tt)
both-ok (ok a) k h = (refl, h)
both-ok (err e) k h = ground (arith, h)

module _ (x : External) where
  -- The profile that enough approve.
  abbrev pub IsApproved : List Text → ℕ → ChainRecord → Type 0
  IsApproved known quorum r =
      (p : Text) × (keys : List Text) × Distinct keys
      × (quorum ≤ length keys)
      × All (IsVote x known r p r.validator_signatures) keys

  enough_of :
      (quorum n : ℕ)
      → ◌≡◌ {A = Result SyncError (Unit {0})}
          (if ltb n quorum then err insufficient else ok tt)
          (ok tt)
      → quorum ≤ n
  enough_of quorum n h = ground (arith, h)

  check_record-ok :
      (known : List Text) (quorum : ℕ) (r : ChainRecord)
      → check_record x known quorum r ≡ ok tt
      → IsApproved known quorum r
  unfolding check_record
  check_record-ok known quorum r h =
      let sigs = r.validator_signatures in
      let groups = group x known r sigs [] [] in
      let (p, le) = largest-le-lookup x groups (group-IsMap x known r sigs [] [] tt) in
      let enough : quorum ≤ largest (values groups) =
        enough_of quorum (largest (values groups)) h in
      let tally = voters-IsTally x known r p sigs [] in
      (
        p,
        voters x known r p sigs [],
        tally.0,
        omega (arith, enough, le, lookup-group x p known r sigs [] []),
        tally.2,
      )

  abbrev pub IsApprovedTx : List Text → ℕ → Transaction → Type 0
  IsApprovedTx known quorum (publish r) = IsApproved known quorum r
  IsApprovedTx known quorum (revoke name reason by evidence) = Unit
  IsApprovedTx known quorum (rotate_publisher_key prefix old new s t time nonce) = Unit
  IsApprovedTx known quorum (slash v amount reason) = Unit
  IsApprovedTx known quorum (validator_join v key stake) = Unit
  IsApprovedTx known quorum (validator_leave v) = Unit

  check_records-ok :
      (known : List Text) (quorum : ℕ) (txs : List Transaction)
      → check_records x known quorum txs ≡ ok tt
      → All (IsApprovedTx known quorum) txs
  unfolding check_records
  check_records-ok known quorum [] h = tt
  check_records-ok known quorum (publish r ∷ txs) h =
      let parts = both-ok (check_record x known quorum r) (check_records x known quorum txs) h in
      (check_record-ok known quorum r parts.0, check_records-ok known quorum txs parts.1)
  check_records-ok known quorum (revoke name reason by evidence ∷ txs) h =
      (tt, check_records-ok known quorum txs h)
  check_records-ok known quorum (rotate_publisher_key prefix old new s t time nonce ∷ txs) h =
      (tt, check_records-ok known quorum txs h)
  check_records-ok known quorum (slash v amount reason ∷ txs) h =
      (tt, check_records-ok known quorum txs h)
  check_records-ok known quorum (validator_join v key stake ∷ txs) h =
      (tt, check_records-ok known quorum txs h)
  check_records-ok known quorum (validator_leave v ∷ txs) h =
      (tt, check_records-ok known quorum txs h)

  nonempty-ok :
      (empty : Bool) (m : Result SyncError (Unit {0}))
      → (if empty then err empty_set else m) ≡ ok tt
      → m ≡ ok tt
  nonempty-ok true m h = ground (arith, h)
  nonempty-ok false m h = h

  check_records-none :
      (known : List Text) (quorum : ℕ) (txs : List Transaction)
      → publishes_none txs ≡ true
      → check_records x known quorum txs ≡ ok tt
  unfolding check_records publishes_none
  check_records-none known quorum [] h = refl
  check_records-none known quorum (publish r ∷ txs) h = ground (arith, h)
  check_records-none known quorum (revoke name reason by evidence ∷ txs) h =
      check_records-none known quorum txs h
  check_records-none known quorum (rotate_publisher_key prefix old new s t time nonce ∷ txs) h =
      check_records-none known quorum txs h
  check_records-none known quorum (slash v amount reason ∷ txs) h =
      check_records-none known quorum txs h
  check_records-none known quorum (validator_join v key stake ∷ txs) h =
      check_records-none known quorum txs h
  check_records-none known quorum (validator_leave v ∷ txs) h =
      check_records-none known quorum txs h

  -- Above genesis, a block that is accepted has for each package that it publishes a scanner profile
  -- that 2n/3 + 1 of the n validators approve: as many distinct keys of the set, each with a valid
  -- signature of an eligible vote in the record.
  pub verify_block_signatures_sound :
      (b : Block) (vs : List Validator)
      → 1 ≤ b.header.height
      → verify_block_signatures x b vs ≡ ok tt
      → All (IsApprovedTx (known_keys vs) (2 * length vs / 3 + 1)) b.transactions
  unfolding verify_block_signatures
  verify_block_signatures_sound b vs high h =
      let above : nat_beq b.header.height 0 ≡ false = ground (arith, high) in
      let rest : (if nat_beq (length vs) 0
            then err empty_set
            else check_records x (known_keys vs) (2 * length vs / 3 + 1) b.transactions)
          ≡ ok tt =
        rw above at h in
      check_records-ok (known_keys vs) (2 * length vs / 3 + 1) b.transactions (nonempty-ok _ _ rest)

  -- A block that publishes no package is accepted without a signature, by any set of validators that
  -- is not empty.
  pub verify_block_signatures_unsigned :
      (b : Block) (vs : List Validator)
      → 1 ≤ length vs
      → publishes_none b.transactions ≡ true
      → verify_block_signatures x b vs ≡ ok tt
  unfolding verify_block_signatures
  verify_block_signatures_unsigned b vs some_vs h =
      let none_empty : nat_beq (length vs) 0 ≡ false = ground (arith, some_vs) in
      let passed = check_records-none (known_keys vs) (2 * length vs / 3 + 1) b.transactions h in
      elim (Bool-cases (nat_beq b.header.height 0)) [
        | inl genesis ↦ rw genesis refl
        | inr above ↦ rw (above, none_empty) passed
      ]
