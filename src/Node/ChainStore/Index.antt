-- ===== src/Node/ChainStore/Index.antt =====
-- crates/node/src/chain_store.rs: what a block does to the record of one package.
use chain_registry_core.Prelude.{
  Option, none, some, List, [], ◌∷◌, ◌++◌, Text, text_eq, text_beq_iff, text_leb, starts_with, ◌==◌,
  if◌then◌else◌, ◌≡◌, refl, ◌∙◌, ap, arith, Bool-cases, inl, inr,
}
use chain_registry_core.Prelude.Map.{Map, lookup, IsMap}
use chain_registry_core.Prelude.Ordered.{put, put_all, lookup-put}
use chain_registry_core.Common.Package.{ChainRecord, canonical}
use chain_registry_core.Common.Block.{
  Block, Transaction, publish, revoke, slash, validator_join, validator_leave, rotate_publisher_key,
}
use chain_registry_core.Common.External.{External, block_hash}
use chain_registry_core.Node.ChainStore.{
  ChainStore, get_package, revoke_record, rotate_record, rotated, revoked_entry, index_writes,
  index_batch, insert_block,
}

abbrev pub over : Option ChainRecord → Option ChainRecord → Option ChainRecord
over none before = before
over (some r) before = some r

abbrev pub rotation : Text → Text → Option ChainRecord → Option ChainRecord
rotation old new none = none
rotation old new (some r) =
    if r.publisher_pubkey == old then some (rotate_record old new r) else none

abbrev pub revocation : Text → Option ChainRecord → Option ChainRecord
revocation reason none = none
revocation reason (some r) = some (revoke_record reason r)

-- What one transaction writes for the package, of which `stored` is the record before the block.
unfoldable pub effect : Text → Text → Option ChainRecord → Transaction → Option ChainRecord
effect hash name stored (publish r) =
    if canonical r.id == name then some (record r { block_hash = hash }) else none
effect hash name stored (revoke revoked reason by evidence) =
    if revoked == name then revocation reason stored else none
effect hash name stored (rotate_publisher_key prefix old new s t time nonce) =
    if starts_with name prefix then rotation old new stored else none
effect hash name stored (slash v amount reason) = none
effect hash name stored (validator_join v key stake) = none
effect hash name stored (validator_leave v) = none

-- The last of the transactions that writes something.
unfoldable pub effects :
    Text → Text → Option ChainRecord → List Transaction → Option ChainRecord → Option ChainRecord
unfolding effect
effects hash name stored [] before = before
effects hash name stored (tx ∷ txs) before =
    effects hash name stored txs (over (effect hash name stored tx) before)

put_all-append :
    (a b m : Map Text ChainRecord)
    → put_all text_leb (a ++ b) m ≡ put_all text_leb b (put_all text_leb a m)
put_all-append [] b m = refl
put_all-append ((k, v) ∷ a) b m = put_all-append a b (put text_leb k v m)

lookup-rotated :
    (name prefix old new : Text) (stored m : Map Text ChainRecord)
    → IsMap stored
    → lookup name (put_all text_leb (rotated prefix old new stored) m)
      ≡ over
          (if starts_with name prefix then rotation old new (lookup name stored) else none)
          (lookup name m)
unfolding rotated
lookup-rotated name prefix old new [] m h = ground arith
lookup-rotated name prefix old new ((j, r) ∷ stored) m h = ground (
  arith,
  lookup-rotated name prefix old new stored m h.1,
  lookup-rotated name prefix old new stored (put text_leb j (rotate_record old new r) m) h.1,
  lookup-put text_leb j name (rotate_record old new r) m,
  text_beq_iff name j,
)

lookup-revoked_entry :
    (name revoked reason : Text) (o : Option ChainRecord) (m : Map Text ChainRecord)
    → lookup name (put_all text_leb (revoked_entry revoked reason o) m)
      ≡ over (if revoked == name then revocation reason o else none) (lookup name m)
lookup-revoked_entry name revoked reason none m = ground arith
lookup-revoked_entry name revoked reason (some r) m = ground (
  arith,
  lookup-put text_leb revoked name (revoke_record reason r) m,
  text_beq_iff name revoked,
  text_beq_iff revoked name,
)

lookup-index_writes :
    (hash name : Text) (stored m : Map Text ChainRecord) (tx : Transaction)
    → IsMap stored
    → lookup name (put_all text_leb (index_writes hash stored tx) m)
      ≡ over (effect hash name (lookup name stored) tx) (lookup name m)
unfolding index_writes effect
lookup-index_writes hash name stored m (publish r) h = ground (
  arith,
  lookup-put text_leb (canonical r.id) name (record r { block_hash = hash }) m,
  text_beq_iff name (canonical r.id),
  text_beq_iff (canonical r.id) name,
)
lookup-index_writes hash name stored m (revoke revoked reason by evidence) h =
    let entry = lookup-revoked_entry name revoked reason (lookup revoked stored) m in
    elim (Bool-cases (revoked == name)) [
      | inl hit ↦
          let same : revoked ≡ name = (text_beq_iff revoked name).0 hit in
          entry ∙ rw (hit, same) refl
      | inr miss ↦ entry ∙ rw miss refl
    ]
lookup-index_writes hash name stored m (rotate_publisher_key prefix old new s t time nonce) h =
    lookup-rotated name prefix old new stored m h
lookup-index_writes hash name stored m (slash v amount reason) h = refl
lookup-index_writes hash name stored m (validator_join v key stake) h = refl
lookup-index_writes hash name stored m (validator_leave v) h = refl

pub lookup-index_batch :
    (hash name : Text) (stored m : Map Text ChainRecord) (txs : List Transaction)
    → IsMap stored
    → lookup name (put_all text_leb (index_batch hash stored txs) m)
      ≡ effects hash name (lookup name stored) txs (lookup name m)
unfolding index_batch effects
lookup-index_batch hash name stored m [] h = refl
lookup-index_batch hash name stored m (tx ∷ txs) h =
    let writes = index_writes hash stored tx in
    let rest = index_batch hash stored txs in
    let later = lookup-index_batch hash name stored (put_all text_leb writes m) txs h in
    ap (lookup name) (put_all-append writes rest m)
    ∙ later
    ∙ ap (effects hash name (lookup name stored) txs) (lookup-index_writes hash name stored m tx h)

-- The last record that the transactions publish for the package.
unfoldable pub last_published :
    Text → Text → List Transaction → Option ChainRecord → Option ChainRecord
last_published hash name [] before = before
last_published hash name (publish r ∷ txs) before =
    last_published hash name txs
      (if canonical r.id == name then some (record r { block_hash = hash }) else before)
last_published hash name (tx ∷ txs) before = last_published hash name txs before

pub effects-none :
    (hash name : Text) (txs : List Transaction) (before : Option ChainRecord)
    → effects hash name none txs before ≡ last_published hash name txs before
unfolding effects effect last_published
effects-none hash name [] before = refl
effects-none hash name (publish r ∷ txs) before = elim (Bool-cases (canonical r.id == name)) [
  | inl hit ↦ rw hit (effects-none hash name txs (some (record r { block_hash = hash })))
  | inr miss ↦ rw miss (effects-none hash name txs before)
]
effects-none hash name (revoke revoked reason by evidence ∷ txs) before =
    ground (arith, effects-none hash name txs before)
effects-none hash name (rotate_publisher_key prefix old new s t time nonce ∷ txs) before =
    ground (arith, effects-none hash name txs before)
effects-none hash name (slash v amount reason ∷ txs) before = effects-none hash name txs before
effects-none hash name (validator_join v key stake ∷ txs) before = effects-none hash name txs before
effects-none hash name (validator_leave v ∷ txs) before = effects-none hash name txs before

module _ (x : External) where
  -- After a block, the record of a package is what the last of the block's transactions that writes it
  -- says, and as before where there is none. Each reads the record from before the block.
  pub get_package-insert_block :
      (name : Text) (b : Block) (s : ChainStore)
      → IsMap s.packages
      → get_package name (insert_block x b s)
        ≡ effects (block_hash x b) name (get_package name s) b.transactions (get_package name s)
  unfolding get_package insert_block
  get_package-insert_block name b s h =
      lookup-index_batch (block_hash x b) name s.packages s.packages b.transactions h

  -- For a package that the store does not have, a block leaves the last record that it publishes:
  -- its revocations and rotations of the package change nothing.
  pub get_package-insert_block_new :
      (name : Text) (b : Block) (s : ChainStore)
      → IsMap s.packages
      → get_package name s ≡ none
      → get_package name (insert_block x b s)
        ≡ last_published (block_hash x b) name b.transactions none
  get_package-insert_block_new name b s h missing =
      get_package-insert_block name b s h
      ∙ rw missing (effects-none (block_hash x b) name b.transactions none)
