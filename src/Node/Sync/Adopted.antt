-- ===== src/Node/Sync/Adopted.antt =====
-- crates/node/src/sync.rs: the forks that the node leaves.
use chain_registry_core.Prelude.{
  ℕ, zero, suc, ◌+◌, ◌-◌, ◌≤◌, ◌<◌, Bool, true, false, leb, Option, none, some, List, [], ◌∷◌, Text,
  text_eq, text_beq, text_beq_iff, nat_beq, nat_beq_iff, ◌==◌, if◌then◌else◌, length, Result, ok,
  err, ◌≡◌, ◌⊎◌, inl, inr, refl, sym, ◌∙◌, subst, ap, arith, Bool-cases, Option-cases,
}
use mathlib.Core.Option.{some-injective}
use chain_registry_core.Common.Block.{Block}
use chain_registry_core.Common.External.{External, block_hash}
use chain_registry_core.Consensus.ValidatorSet.{Validator}
use chain_registry_core.Node.ChainStore.{
  ChainStore, get_block_by_height, rollback_to_height, rebuild_package_index,
}
use chain_registry_core.Node.Signatures.{SyncError, is_ok, verify_block_signatures}
use chain_registry_core.Node.Sync.{
  SyncState, Search, aborted, missing, ancestor, compare_at, find_ancestor, reindexed, accepts,
  grow, fetch_branch, insert_blocks, adopt, recover, max_reorg_depth, record_reorg,
  attempt_reorg_recovery,
}

is_ok-true : (m : Result SyncError (Unit {0})) → is_ok m ≡ true → m ≡ ok tt
is_ok-true (ok a) h = refl
is_ok-true (err e) h = ground (arith, h)

grow-some :
    (b : Block) (o : Option (List Block × Text)) (bs : List Block) (tip : Text)
    → grow b o ≡ some (bs, tip)
    → (rest : List Block) × (bs ≡ b ∷ rest) × (o ≡ some (rest, tip))
grow-some b none bs tip h = ground (arith, h)
grow-some b (some (rest, last)) bs tip h = (rest, cc h, cc h)

module _ (x : External) where
  -- Blocks that follow each other from a height and a hash on to a last hash, each accepted.
  abbrev pub IsBranch : (ℕ → List Validator) → ℕ → Text → List Block → Text → Type 0
  IsBranch sets h link [] tip = link ≡ tip
  IsBranch sets h link (b ∷ bs) tip =
      (b.header.height ≡ h)
      × (b.header.prev_hash ≡ link)
      × (verify_block_signatures x b (sets b.header.height) ≡ ok tt)
      × IsBranch sets (h + 1) (block_hash x b) bs tip

  accepts-true :
      (sets : ℕ → List Validator) (h : ℕ) (link : Text) (b : Block)
      → accepts x sets h link b ≡ true
      → (b.header.height ≡ h)
        × (b.header.prev_hash ≡ link)
        × (verify_block_signatures x b (sets b.header.height) ≡ ok tt)
  unfolding accepts
  accepts-true sets h link b e =
      let height : nat_beq b.header.height h ≡ true = ground (arith, e) in
      let linked : text_beq b.header.prev_hash link ≡ true = ground (arith, e) in
      let signed : is_ok (verify_block_signatures x b (sets b.header.height)) ≡ true =
        ground (arith, e) in
      ((nat_beq_iff _ _).0 height, (text_beq_iff _ _).0 linked, is_ok-true _ signed)

  fetch_branch-IsBranch :
      (sets : ℕ → List Validator) (fetch : ℕ → Option Block) (count h : ℕ) (link tip : Text)
      (bs : List Block)
      → fetch_branch x sets fetch h count link ≡ some (bs, tip)
      → IsBranch sets h link bs tip × (length bs ≡ count)
  unfolding fetch_branch
  fetch_branch-IsBranch sets fetch zero h link tip bs e =
      let same : ◌≡◌ {A = List Block × Text} ([], link) (bs, tip) = some-injective _ _ e in
      let none_left : [] ≡ bs = ap (λ t. t.0) same in
      subst (λ c. IsBranch sets h link c tip × (length c ≡ 0)) none_left (ap (λ t. t.1) same, refl)
  fetch_branch-IsBranch sets fetch (suc count) h link tip bs e = elim (Option-cases (fetch h)) [
    | inl none_h ↦
        let bad : none ≡ some (bs, tip) = rw (none_h, fetch_branch) at e in ground (arith, bad)
    | inr (b, some_h) ↦
        let rest = fetch_branch x sets fetch (h + 1) count (block_hash x b) in
        let tested : (if accepts x sets h link b then grow b rest else none) ≡ some (bs, tip) =
          rw (some_h, fetch_branch) at e in
        elim (Bool-cases (accepts x sets h link b)) [
          | inr refused ↦
              let bad : none ≡ some (bs, tip) = rw refused at tested in ground (arith, bad)
          | inl fine ↦
              let grown : grow b rest ≡ some (bs, tip) = rw fine at tested in
              let (tail, same, fetched) = grow-some b rest bs tip grown in
              let (branch, size) =
                fetch_branch-IsBranch sets fetch count (h + 1) (block_hash x b) tip tail fetched in
              let (height, linked, signed) = accepts-true sets h link b fine in
              subst (λ c. IsBranch sets h link c tip × (length c ≡ suc count)) (sym same)
                ((height, linked, signed, branch), omega (arith, size))
        ]
  ]

  -- The block at the height is shared with the peers, and has the hash.
  abbrev pub IsShared : (ℕ → Option Block) → ChainStore → ℕ → Text → Type 0
  IsShared their s k hash =
      (ours : Block) × (theirs : Block) × (get_block_by_height k s ≡ some ours)
      × (their k ≡ some theirs)
      × (block_hash x ours ≡ hash)
      × (block_hash x theirs ≡ hash)

  compare_at-ancestor :
      (j : ℕ) (ours : Block) (o : Option Block) (later : Search) (k : ℕ) (hash : Text)
      → compare_at x j ours o later ≡ ancestor k hash
      → (later ≡ ancestor k hash)
        ⊎ ((theirs : Block) × (k ≡ j)
            × (o ≡ some theirs)
            × (block_hash x ours ≡ hash)
            × (block_hash x theirs ≡ hash))
  compare_at-ancestor j ours none later k hash h = ground (arith, h)
  compare_at-ancestor j ours (some theirs) later k hash h =
      elim (Bool-cases (block_hash x ours == block_hash x theirs)) [
        | inr other ↦ inl (rw other at h)
        | inl hit ↦
            let same : block_hash x ours ≡ block_hash x theirs = (text_beq_iff _ _).0 hit in
            let e : ancestor j (block_hash x ours) ≡ ancestor k hash = rw hit at h in
            let height : k ≡ j = cc e in
            let hashed : block_hash x ours ≡ hash = cc e in
            inr (theirs, height, refl, hashed, sym same ∙ hashed)
      ]

  find_ancestor-IsShared :
      (their : ℕ → Option Block) (held : ℕ → ChainStore) (floor count k : ℕ) (hash : Text)
      → find_ancestor x their held floor count ≡ ancestor k hash
      → (floor ≤ k) × (k < floor + count) × IsShared their (held k) k hash
  unfolding find_ancestor
  find_ancestor-IsShared their held floor zero k hash e = ground (arith, e)
  find_ancestor-IsShared their held floor (suc count) k hash e =
      elim (Option-cases (get_block_by_height (floor + count) (held (floor + count)))) [
        | inl none_h ↦
            let later : find_ancestor x their held floor count ≡ ancestor k hash =
              rw (none_h, find_ancestor) at e in
            let (low, high, shared) = find_ancestor-IsShared their held floor count k hash later in
            (low, omega (arith, high), shared)
        | inr (ours, some_h) ↦
            let tested : compare_at x (floor + count) ours (their (floor + count))
                  (find_ancestor x their held floor count)
                ≡ ancestor k hash =
              rw (some_h, find_ancestor) at e in
            elim (compare_at-ancestor (floor + count) ours (their (floor + count))
              (find_ancestor x their held floor count) k hash tested) [
                | inl later ↦
                    let (low, high, shared) =
                      find_ancestor-IsShared their held floor count k hash later in
                    (low, omega (arith, high), shared)
                | inr (theirs, here, at, hashed, same) ↦ (
                  omega (arith, here),
                  omega (arith, here),
                  (
                    ours,
                    theirs,
                    ap (λ n. get_block_by_height n (held n)) here ∙ some_h,
                    ap their here ∙ at,
                    hashed,
                    same,
                  ),
                )
              ]
      ]

  -- The chain rolled back, given the branch and indexed again, with the event.
  abbrev pub adopted_state : ℕ → SyncState → ℕ → ℕ → List Block → Text → SyncState
  adopted_state now s local_tip fork branch tip =
      let back = rollback_to_height fork s.chain in
      record_reorg (local_tip - fork) back.0 tip
        (reindexed x now s (rebuild_package_index x (insert_blocks x branch back.1)))

  recover-true :
      (now : ℕ) (sets : ℕ → List Validator) (fetch : ℕ → Option Block) (local_tip peer_height : ℕ)
      (search : Search) (s t : SyncState)
      → recover x now sets fetch local_tip peer_height search s ≡ (true, t)
      → (fork : ℕ) × (hash : Text) × (search ≡ ancestor fork hash)
        × (adopt x now local_tip fork
              (fetch_branch x sets fetch (fork + 1) (peer_height - fork) hash)
              s
            ≡ (true, t))
  recover-true now sets fetch local_tip peer_height aborted s t h = ground (arith, ap (λ r. r.0) h)
  recover-true now sets fetch local_tip peer_height missing s t h = ground (arith, ap (λ r. r.0) h)
  recover-true now sets fetch local_tip peer_height (ancestor fork hash) s t h =
      (fork, hash, refl, h)

  adopt-true :
      (now : ℕ) (local_tip fork : ℕ) (o : Option (List Block × Text)) (s t : SyncState)
      → adopt x now local_tip fork o s ≡ (true, t)
      → (branch : List Block) × (tip : Text) × (o ≡ some (branch, tip))
        × (local_tip < fork + length branch)
        × (t ≡ adopted_state now s local_tip fork branch tip)
  unfolding record_reorg
  adopt-true now local_tip fork none s t h = ground (arith, ap (λ r. r.0) h)
  adopt-true now local_tip fork (some (branch, tip)) s t h =
      elim (Bool-cases (leb (fork + length branch) local_tip)) [
        | inl short ↦
            let bad : ◌≡◌ {A = Bool × SyncState} (false, s) (true, t) = rw (short, adopt) at h in
            ground (arith, ap (λ r. r.0) bad)
        | inr long ↦
            let after = adopted_state now s local_tip fork branch tip in
            let passed : ◌≡◌ {A = Bool × SyncState} (true, after) (true, t) =
              rw (long, adopt) at h in
            (branch, tip, refl, ground (arith, long), sym (ap (λ r. r.1) passed))
      ]

  -- A recovery that succeeds, from a height on down, found a block at most 64 below it that the peers
  -- share with the chain as it was when that block was read, and blocks after it that follow each
  -- other, each accepted, up to the peers' height, which is above the height; the chain, as it is
  -- when they are written, is rolled back to the shared block's height, given them and indexed again,
  -- the publishers are indexed from it, and the event is recorded.
  pub attempt_reorg_recovery_lem :
      (now : ℕ) (sets : ℕ → List Validator) (their fetch : ℕ → Option Block) (held : ℕ → ChainStore)
      (local_tip peer_height : ℕ) (s t : SyncState)
      → attempt_reorg_recovery x now sets their fetch held local_tip peer_height s ≡ (true, t)
      → (fork : ℕ) × (hash : Text) × (branch : List Block) × (tip : Text) × (local_tip ≤ fork + 64)
        × (fork ≤ local_tip)
        × IsShared their (held fork) fork hash
        × IsBranch sets (fork + 1) hash branch tip
        × (local_tip < fork + length branch)
        × (length branch ≡ peer_height - fork)
        × (t ≡ adopted_state now s local_tip fork branch tip)
  unfolding attempt_reorg_recovery record_reorg
  attempt_reorg_recovery_lem now sets their fetch held local_tip peer_height s t h =
      let floor = local_tip - max_reorg_depth in
      let search = find_ancestor x their held floor (local_tip + 1 - floor) in
      let (fork, hash, at, adopted) =
        recover-true now sets fetch local_tip peer_height search s t h in
      let (branch, tip, fetched, longer, state) = adopt-true now local_tip fork _ s t adopted in
      let (low, high, shared) =
        find_ancestor-IsShared their held floor (local_tip + 1 - floor) fork hash at in
      let (linked, size) =
        fetch_branch-IsBranch sets fetch (peer_height - fork) (fork + 1) hash tip branch fetched in
      (
        fork,
        hash,
        branch,
        tip,
        omega (arith, low),
        omega (arith, high),
        shared,
        linked,
        longer,
        size,
        state,
      )
