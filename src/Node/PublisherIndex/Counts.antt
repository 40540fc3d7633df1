-- ===== src/Node/PublisherIndex/Counts.antt =====
-- crates/node/src/publisher_index.rs: the number of packages of a publisher.
use chain_registry_core.Prelude.{
  ℕ, ◌+◌, ◌%◌, ◌^◌, ◌<◌, Bool, true, false, Option, none, some, List, [], ◌∷◌, Text, text_eq,
  text_beq, text_beq_iff, incr32, ◌==◌, if◌then◌else◌, ◌≡◌, refl, ◌∙◌, ap, arith, Bool-cases,
  Option-cases, inl, inr,
}
use chain_registry_core.Prelude.Map.{Map, lookup, lookup-insert, lookup-update, insert, update}
use chain_registry_core.Common.Block.{
  Block, Transaction, publish, revoke, slash, validator_join, validator_leave, rotate_publisher_key,
}
use chain_registry_core.Node.PublisherIndex.{
  PublisherStats, PublisherIndex, new_index, stats_of, stats_or_default, published, penalised,
  slashed_stats, apply_tx, apply_txs, apply_block, apply_blocks, rebuild_from_chain,
}

abbrev pub total : Option PublisherStats → ℕ
total none = 0
total (some p) = p.total_packages

-- Whether the transaction publishes a package of the key.
unfoldable pub is_by : Text → Transaction → Bool
is_by key (publish r) = r.publisher_pubkey == key
is_by key (revoke name reason by evidence) = false
is_by key (slash id amount reason) = false
is_by key (validator_join id k stake) = false
is_by key (validator_leave id) = false
is_by key (rotate_publisher_key prefix old new s t time nonce) = false

unfoldable pub published_by : Text → List Transaction → ℕ
unfolding is_by
published_by key [] = 0
published_by key (tx ∷ txs) =
    if is_by key tx then published_by key txs + 1 else published_by key txs

unfoldable pub published_in : Text → List Block → ℕ
unfolding published_by
published_in key [] = 0
published_in key (b ∷ bs) = published_by key b.transactions + published_in key bs

abbrev pub is_rotation : Transaction → Bool
is_rotation (rotate_publisher_key prefix old new s t time nonce) = true
is_rotation tx = false

unfoldable pub any_rotation : List Transaction → Bool
any_rotation [] = false
any_rotation (tx ∷ txs) = if is_rotation tx then true else any_rotation txs

unfoldable pub any_rotation_in : List Block → Bool
unfolding any_rotation
any_rotation_in [] = false
any_rotation_in (b ∷ bs) = if any_rotation b.transactions then true else any_rotation_in bs

total-default :
    (now timestamp : ℕ) (k key : Text) (m : Map Text PublisherStats)
    → k ≡ key
    → incr32 (stats_or_default k (lookup k m)).total_packages ≡ incr32 (total (lookup key m))
total-default now timestamp k key m same = elim (Option-cases (lookup k m)) [
  | inl none_k ↦ rw⁻¹ same (rw none_k refl)
  | inr (p, some_k) ↦ rw⁻¹ same (rw some_k refl)
]

total-insert :
    (key k : Text) (now timestamp : ℕ) (m : Map Text PublisherStats)
    → total (lookup key (insert k (published now timestamp (stats_or_default k (lookup k m))) m))
      ≡ (if k == key then incr32 (total (lookup key m)) else total (lookup key m))
total-insert key k now timestamp m =
    let value = published now timestamp (stats_or_default k (lookup k m)) in
    let at = ap total (lookup-insert k key value m) in
    elim (Bool-cases (k == key)) [
      | inr other ↦
          let miss : text_beq key k ≡ false =
            ground (arith, other, text_beq_iff key k, text_beq_iff k key) in
          at ∙ rw (miss, other) refl
      | inl hit ↦
          let same : k ≡ key = (text_beq_iff k key).0 hit in
          let self : text_beq key k ≡ true =
            ground (arith, hit, text_beq_iff key k, text_beq_iff k key) in
          at ∙ rw (self, hit) (total-default now timestamp k key m same)
    ]

total-update :
    (key k : Text) (f : PublisherStats → PublisherStats) (m : Map Text PublisherStats)
    → ((p : PublisherStats) → (f p).total_packages ≡ p.total_packages)
    → total (lookup key (update k f m)) ≡ total (lookup key m)
total-update key k f m same =
    let at = ap total (lookup-update k key f m) in
    elim (Bool-cases (key == k)) [
      | inr other ↦ at ∙ rw other refl
      | inl hit ↦ elim (Option-cases (lookup key m)) [
        | inl none_k ↦ at ∙ rw (hit, none_k) refl
        | inr (p, some_k) ↦ at ∙ rw (hit, some_k) (same p)
      ]
    ]

total-apply_tx :
    (key : Text) (now timestamp : ℕ) (tx : Transaction) (i : PublisherIndex)
    → is_rotation tx ≡ false
    → total (stats_of key (apply_tx now timestamp tx i))
      ≡ (if is_by key tx then incr32 (total (stats_of key i)) else total (stats_of key i))
unfolding apply_tx stats_of is_by
total-apply_tx key now timestamp (publish r) i h =
    total-insert key r.publisher_pubkey now timestamp i.publishers
total-apply_tx key now timestamp (revoke name reason by evidence) i h =
    elim (Option-cases (lookup name i.canonical_to_pubkey)) [
      | inl unknown ↦ rw unknown refl
      | inr (k, known) ↦ rw known (total-update key k penalised i.publishers (λ p. refl))
    ]
total-apply_tx key now timestamp (slash id amount reason) i h =
    total-update key id (slashed_stats amount) i.publishers (λ p. refl)
total-apply_tx key now timestamp (validator_join id k stake) i h = refl
total-apply_tx key now timestamp (validator_leave id) i h = refl
total-apply_tx key now timestamp (rotate_publisher_key prefix old new s t time nonce) i h =
    ground (arith, h)

total-apply_txs :
    (key : Text) (now timestamp : ℕ) (txs : List Transaction) (i : PublisherIndex)
    → any_rotation txs ≡ false
    → total (stats_of key i) < 2 ^ 32
    → total (stats_of key (apply_txs now timestamp txs i))
      ≡ (total (stats_of key i) + published_by key txs) % 2 ^ 32
unfolding apply_txs published_by any_rotation
total-apply_txs key now timestamp [] i h lt = omega (arith, lt)
total-apply_txs key now timestamp (tx ∷ txs) i h lt =
    let plain : is_rotation tx ≡ false = ground (arith, h) in
    let rest : any_rotation txs ≡ false = ground (arith, h) in
    let step = total-apply_tx key now timestamp tx i plain in
    let next = apply_tx now timestamp tx i in
    elim (Bool-cases (is_by key tx)) [
      | inl mine ↦
          let one : total (stats_of key next) ≡ incr32 (total (stats_of key i)) =
            step ∙ rw mine refl in
          let later = total-apply_txs key now timestamp txs next rest (omega (arith, one)) in
          rw mine (omega (arith, later, one))
      | inr other ↦
          let one : total (stats_of key next) ≡ total (stats_of key i) = step ∙ rw other refl in
          let later = total-apply_txs key now timestamp txs next rest (omega (arith, one, lt)) in
          rw other (omega (arith, later, one))
    ]

total-apply_blocks :
    (key : Text) (now : ℕ) (bs : List Block) (i : PublisherIndex)
    → any_rotation_in bs ≡ false
    → total (stats_of key i) < 2 ^ 32
    → total (stats_of key (apply_blocks now bs i))
      ≡ (total (stats_of key i) + published_in key bs) % 2 ^ 32
unfolding apply_blocks apply_block published_in any_rotation_in
total-apply_blocks key now [] i h lt = omega (arith, lt)
total-apply_blocks key now (b ∷ bs) i h lt =
    let here : any_rotation b.transactions ≡ false = ground (arith, h) in
    let rest : any_rotation_in bs ≡ false = ground (arith, h) in
    let step = total-apply_txs key now b.header.timestamp b.transactions i here lt in
    let next = apply_txs now b.header.timestamp b.transactions i in
    let later = total-apply_blocks key now bs next rest (omega (arith, step)) in
    omega (arith, later, step)

-- On a chain without rotations of keys, the rebuilt index counts for every key the packages that the
-- chain publishes under it, modulo 2 ^ 32.
pub total-rebuild_from_chain :
    (key : Text) (now : ℕ) (bs : List Block) (i : PublisherIndex)
    → any_rotation_in bs ≡ false
    → total (stats_of key (rebuild_from_chain now bs i)) ≡ published_in key bs % 2 ^ 32
unfolding rebuild_from_chain new_index stats_of
total-rebuild_from_chain key now bs i h =
    let counted = total-apply_blocks key now bs new_index h (omega arith) in omega (arith, counted)
