-- ===== src/Consensus/Pbft/Certified.antt =====
-- Every operation of the engine keeps its rounds valid, so a block that it hands out is certified:
-- crates/consensus/src/pbft.rs.
use chain_registry_core.Prelude.{
  ℕ, ◌^◌, ◌≤◌, ◌<◌, ◌≡◌, refl, sym, ap, subst, inl, inr, some, List, [], ◌∷◌, Text, txt, text_eq,
  text_beq_iff, length, arith, All, ok, Option-cases, Result-cases, ◌==◌, Bool-cases,
}
use chain_registry_core.Prelude.Map.{
  Map, values, lookup, remove, lookup-All, insert-All, IsMap, insert-IsMap, remove-IsMap,
}
use chain_registry_core.Prelude.Keys.{remove_each}
use chain_registry_core.Common.Block.{Block, BlockSignature}
use chain_registry_core.Common.External.{External, block_hash}
use chain_registry_core.Consensus.ValidatorSet.{ValidatorSet}
use chain_registry_core.Consensus.Pbft.Round.{
  PbftConfig, PbftPhase, PbftRound, Step, quorum, check_signature, with_config, propose,
  receive_prepare, receive_commit, trigger_view_change, record_view_change, add_certificate,
  store_prepare, store_commit, finalised_signatures,
}
use chain_registry_core.Consensus.Pbft.Engine.{
  PbftEngine, new_engine, on_round, start_round, engine_prepare, engine_commit, get_finalised_block,
  change_views, timeout_rounds, timed_out_hashes, receive_view_change, cleanup_stale_rounds,
  stale_hashes,
}
use chain_registry_core.Consensus.Pbft.Invariant.{
  IsValid, Signed, Event, proposed, prepared, committed, timed_out, view_certified, after,
  after-IsValid, with_config-IsValid,
}

-- No step of a round changes its block.
after-block : (x : External) (e : Event) (r : PbftRound) → (after x e r).block ≡ r.block
unfolding after propose receive_prepare receive_commit store_prepare store_commit
    trigger_view_change record_view_change add_certificate
after-block x (proposed now id) r = ground arith
after-block x (prepared now id sig) r = ground arith
after-block x (committed id sig) r = ground arith
after-block x (timed_out now) r = ground arith
after-block x (view_certified now id new_view) r = ground arith

module _ (x : External) where
  -- A valid round, filed under its block's hash.
  abbrev pub IsFiled : Text × PbftRound → Type 0
  IsFiled e = IsValid x e.1 × (block_hash x e.1.block ≡ e.0)

  pub record IsValidEngine (g : PbftEngine) : Type 0 where
    pub one_each : IsMap g.rounds
    pub filed : All IsFiled g.rounds
    pub limit : g.config.max_view_changes < 2 ^ 32

  on_round-IsValidEngine :
      {A : Type 0} (f : PbftRound → Step A) (e : Event) (hash : Text) (g : PbftEngine)
      → ((r : PbftRound) → (f r).1 ≡ after x e r)
      → IsValidEngine g
      → IsValidEngine (on_round f hash g).1
  on_round-IsValidEngine f e hash g is_step v = elim (Option-cases (lookup hash g.rounds)) [
    | inl missing ↦ rw (missing, on_round) v
    | inr (r, found) ↦
        let old = lookup-All IsFiled hash g.rounds v.filed found in
        rw (found, on_round)
          (rw (is_step r) (record {
            one_each = insert-IsMap hash (after x e r) g.rounds v.one_each;
            filed =
                insert-All IsFiled hash (after x e r) g.rounds
                  (after-IsValid x e r old.0, rw (after-block x e r) old.1) v.filed;
            limit = v.limit;
          }))
  ]

  remove-All :
      {V : Type 0} (P : Text × V → Type 0) (k : Text) (m : Map Text V)
      → All P m
      → All P (remove k m)
  remove-All P k [] h = tt
  remove-All P k ((j, w) ∷ m) h = elim (Bool-cases (k == j)) [
    | inl hit ↦ rw hit (remove-All P k m h.1)
    | inr miss ↦ rw miss (h.0, remove-All P k m h.1)
  ]

  remove_each-All :
      {V : Type 0} (P : Text × V → Type 0) (ks : List Text) (m : Map Text V)
      → IsMap m
      → All P m
      → IsMap (remove_each ks m) × All P (remove_each ks m)
  remove_each-All P [] m one h = (one, h)
  remove_each-All P (k ∷ ks) m one h =
      remove_each-All P ks (remove k m) (remove-IsMap k m one) (remove-All P k m h)

  start_round-IsValidEngine :
      (now : ℕ) (b : Block) (vs : ValidatorSet) (g : PbftEngine)
      → IsValidEngine g
      → IsValidEngine (start_round x now b vs g).1
  unfolding start_round after with_config
  start_round-IsValidEngine now b vs g v =
      let r = with_config now b vs g.config in
      let proposer = b.header.proposer_id in
      let stored =
        after-IsValid x (proposed now proposer) r
          (with_config-IsValid x now b vs g.config v.limit) in
      elim (Result-cases (propose x now proposer r).0) [
        | inl (e, refused) ↦ rw (refused, start_round) v
        | inr (hash, accepted) ↦
            rw (accepted, start_round)
              (record {
                one_each = insert-IsMap _ _ g.rounds v.one_each;
                filed =
                    insert-All IsFiled (block_hash x b) (propose x now proposer r).1 g.rounds
                      (stored, ap (block_hash x) (after-block x (proposed now proposer) r)) v.filed;
                limit = v.limit;
              })
      ]

  change_views-IsValidEngine :
      (now : ℕ) (hashes : List Text) (g : PbftEngine)
      → IsValidEngine g
      → IsValidEngine (change_views now hashes g).1
  unfolding change_views after
  change_views-IsValidEngine now [] g v = v
  change_views-IsValidEngine now (h ∷ hs) g v =
      change_views-IsValidEngine now hs (on_round (trigger_view_change now) h g).1
        (on_round-IsValidEngine (trigger_view_change now) (timed_out now) h g (λ r. refl) v)

  cleanup-IsValidEngine :
      (now : ℕ) (g : PbftEngine) → IsValidEngine g → IsValidEngine (cleanup_stale_rounds now g).1
  unfolding cleanup_stale_rounds
  cleanup-IsValidEngine now g v =
      let kept = remove_each-All IsFiled (stale_hashes now g) g.rounds v.one_each v.filed in
      record { one_each = kept.0; filed = kept.1; limit = v.limit }

-- The calls on an engine that change it.
pub data Call : Type 0 where
  start : ℕ → Block → ValidatorSet → Call
  prepare : ℕ → Text → Text → BlockSignature → Call
  commit : Text → Text → BlockSignature → Call
  timeout : ℕ → Call
  view_change : ℕ → Text → Text → ℕ → Call
  cleanup : ℕ → Call

unfoldable pub apply : External → Call → PbftEngine → PbftEngine
apply x (start now b vs) g = (start_round x now b vs g).1
apply x (prepare now hash vid sig) g = (engine_prepare x now hash vid sig g).1
apply x (commit hash vid sig) g = (engine_commit x hash vid sig g).1
apply x (timeout now) g = (timeout_rounds now g).1
apply x (view_change now hash vid view) g = (receive_view_change now hash vid view g).1
apply x (cleanup now) g = (cleanup_stale_rounds now g).1

unfoldable pub apply_all : External → List Call → PbftEngine → PbftEngine
unfolding apply
apply_all x [] g = g
apply_all x (c ∷ cs) g = apply_all x cs (apply x c g)

pub apply-IsValidEngine :
    (x : External) (c : Call) (g : PbftEngine) → IsValidEngine x g → IsValidEngine x (apply x c g)
unfolding apply engine_prepare engine_commit timeout_rounds receive_view_change after
apply-IsValidEngine x (start now b vs) g v = start_round-IsValidEngine x now b vs g v
apply-IsValidEngine x (prepare now hash vid sig) g v =
    on_round-IsValidEngine x _ (prepared now vid sig) hash g (λ r. refl) v
apply-IsValidEngine x (commit hash vid sig) g v =
    on_round-IsValidEngine x _ (committed vid sig) hash g (λ r. refl) v
apply-IsValidEngine x (timeout now) g v =
    change_views-IsValidEngine x now (timed_out_hashes now g.rounds) g v
apply-IsValidEngine x (view_change now hash vid view) g v =
    on_round-IsValidEngine x _ (view_certified now vid view) hash g (λ r. refl) v
apply-IsValidEngine x (cleanup now) g v = cleanup-IsValidEngine x now g v

apply_all-IsValidEngine :
    (x : External) (cs : List Call) (g : PbftEngine)
    → IsValidEngine x g
    → IsValidEngine x (apply_all x cs g)
unfolding apply_all
apply_all-IsValidEngine x [] g v = v
apply_all-IsValidEngine x (c ∷ cs) g v =
    apply_all-IsValidEngine x cs (apply x c g) (apply-IsValidEngine x c g v)

-- What a certified block carries: a quorum of commits, each valid for its hash under the round's
-- validator set.
pub record IsCertified (x : External) (hash : Text) (r : PbftRound) (b : Block) : Type 0 where
  pub same_block : block_hash x b ≡ hash
  pub enough : quorum r ≤ length b.pbft_signatures
  pub valid :
      All
        (λ sig. check_signature x r.validator_set hash (txt "commit") sig.validator_id sig ≡ ok tt)
        b.pbft_signatures

length-values : {V : Type 0} (m : Map Text V) → length (values m) ≡ length m
length-values [] = refl
length-values ((k, v) ∷ m) = ground (arith, length-values m)

check_signature-id :
    (x : External) (vs : ValidatorSet) (hash phase id : Text) (sig : BlockSignature)
    → check_signature x vs hash phase id sig ≡ ok tt
    → sig.validator_id ≡ id
unfolding check_signature
check_signature-id x vs hash phase id sig h = ground (arith, text_beq_iff sig.validator_id id)

All-values :
    (x : External) (vs : ValidatorSet) (hash phase : Text) (m : Map Text BlockSignature)
    → All (Signed x vs hash phase) m
    → All (λ sig. check_signature x vs hash phase sig.validator_id sig ≡ ok tt) (values m)
All-values x vs hash phase [] h = tt
All-values x vs hash phase ((k, sig) ∷ m) h = (
  subst (λ i. check_signature x vs hash phase i sig ≡ ok tt)
      (sym (check_signature-id x vs hash phase k sig h.0)) h.0,
  All-values x vs hash phase m h.1,
)

finalised_block-round :
    (hash : Text) (g : PbftEngine) (b : Block)
    → get_finalised_block hash g ≡ some b
    → (r : PbftRound) × (lookup hash g.rounds ≡ some r)
      × (r.phase ≡ PbftPhase.finalised)
      × (b ≡ record (r.block) { pbft_signatures = finalised_signatures r })
unfolding get_finalised_block
finalised_block-round hash g b got = elim (Option-cases (lookup hash g.rounds)) [
  | inl missing ↦ absurd (ground arith)
  | inr (r, found) ↦ (r, found, ground arith, ground arith)
]

module _ (x : External) where
  IsCertified-round :
      (hash : Text) (r : PbftRound) (b : Block)
      → IsFiled x (hash, r)
      → r.phase ≡ PbftPhase.finalised
      → b ≡ record (r.block) { pbft_signatures = finalised_signatures r }
      → IsCertified x hash r b
  unfolding finalised_signatures block_hash
  IsCertified-round hash r b (v, filed) fin made = rw made (record {
    same_block = filed;
    enough = ground (arith, length-values r.commit_sigs, v.progress);
    valid =
        subst
          (λ h.
            All
              (λ sig.
                check_signature x r.validator_set h (txt "commit") sig.validator_id sig ≡ ok tt)
              (values r.commit_sigs))
          filed (All-values x r.validator_set _ (txt "commit") r.commit_sigs v.commits_signed);
  })

  -- After any calls on a new engine, a block that it hands out as finalised has the hash that was
  -- asked for, and carries at least a quorum of commit signatures, each of which passes the checks
  -- for that hash under the validator set of its round.
  pub finalised_block-IsCertified :
      (config : PbftConfig) (cs : List Call) (hash : Text) (b : Block)
      → config.max_view_changes < 2 ^ 32
      → get_finalised_block hash (apply_all x cs (new_engine config)) ≡ some b
      → (r : PbftRound) × (lookup hash (apply_all x cs (new_engine config)).rounds ≡ some r)
        × IsCertified x hash r b
  unfolding new_engine
  finalised_block-IsCertified config cs hash b limit got =
      let g = apply_all x cs (new_engine config) in
      let v : IsValidEngine x g =
        apply_all-IsValidEngine x cs (new_engine config)
          (record { one_each = tt; filed = tt; limit = limit }) in
      let (r, found, fin, made) = finalised_block-round hash g b got in
      (
        r,
        found,
        IsCertified-round hash r b (lookup-All (IsFiled x) hash g.rounds v.filed found) fin made,
      )
