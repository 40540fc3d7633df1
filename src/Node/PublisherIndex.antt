-- ===== src/Node/PublisherIndex.antt =====
-- crates/node/src/publisher_index.rs: what the chain says of each publisher. A time is a number of
-- seconds, and the clock is an argument.
pub mod Counts
mod Tests
use chain_registry_core.Prelude.{
  ℕ, ◌+◌, ◌-◌, ◌/◌, ◌%◌, ◌^◌, Bool, true, false, ◌&&◌, Option, none, some, List, [], ◌∷◌, Text,
  text_eq, starts_with, incr32, ◌==◌, if◌then◌else◌, length,
}
use chain_registry_core.Prelude.Map.{Map, lookup, insert, remove, update, values}
use chain_registry_core.Common.Package.{ChainRecord, canonical}
use chain_registry_core.Common.Block.{
  Block, Transaction, publish, revoke, slash, validator_join, validator_leave, rotate_publisher_key,
}

pub record PublisherStats : Type 0 where
  pub pubkey : Text
  pub total_packages : ℕ
  pub verified_count : ℕ
  pub revoked_count : ℕ
  pub stake_wei : ℕ
  pub first_seen_at : Option ℕ
  pub first_seen_days : ℕ

pub record PublisherIndex : Type 0 where
  pub publishers : Map Text PublisherStats
  pub canonical_to_pubkey : Map Text Text

unfoldable pub new_index : PublisherIndex
new_index = record { publishers = []; canonical_to_pubkey = [] }

abbrev pub default_stats : Text → PublisherStats
default_stats key = record {
  pubkey = key;
  total_packages = 0;
  verified_count = 0;
  revoked_count = 0;
  stake_wei = 0;
  first_seen_at = none;
  first_seen_days = 0;
}

abbrev pub stats_or_default : Text → Option PublisherStats → PublisherStats
stats_or_default key none = default_stats key
stats_or_default key (some p) = p

abbrev pub first_seen : ℕ → Option ℕ → ℕ
first_seen timestamp none = timestamp
first_seen timestamp (some t) = t

-- A Publish at the time of its block; the days are those from the first one to now.
abbrev pub published : ℕ → ℕ → PublisherStats → PublisherStats
published now timestamp p = record p {
  total_packages = incr32 p.total_packages;
  verified_count = incr32 p.verified_count;
  first_seen_at = some (first_seen timestamp p.first_seen_at);
  first_seen_days = (now - first_seen timestamp p.first_seen_at) / 86400 % 2 ^ 32;
}

abbrev pub penalised : PublisherStats → PublisherStats
penalised p = record p {
  verified_count = p.verified_count - 1;
  revoked_count = incr32 p.revoked_count;
}

abbrev pub slashed_stats : ℕ → PublisherStats → PublisherStats
slashed_stats amount p = record p { stake_wei = p.stake_wei - amount }

-- The packages with the prefix go from the old key to the new one.
unfoldable pub retarget : Text → Text → Text → Map Text Text → Map Text Text
retarget prefix old new [] = []
retarget prefix old new ((name, key) ∷ m) =
    let rest = retarget prefix old new m in
    if starts_with name prefix && key == old then (name, new) ∷ rest else (name, key) ∷ rest

abbrev pub penalise : Option Text → Map Text PublisherStats → Map Text PublisherStats
penalise none m = m
penalise (some key) m = update key penalised m

abbrev pub migrate :
    Text → Text → Option PublisherStats → Map Text PublisherStats → Map Text PublisherStats
migrate old new none m = m
migrate old new (some p) m = insert new (record p { pubkey = new }) (remove old m)

unfoldable pub apply_tx : ℕ → ℕ → Transaction → PublisherIndex → PublisherIndex
unfolding retarget
apply_tx now timestamp (publish r) i =
    let key = r.publisher_pubkey in
    record {
      canonical_to_pubkey = insert (canonical r.id) key i.canonical_to_pubkey;
      publishers =
          insert key (published now timestamp (stats_or_default key (lookup key i.publishers)))
            i.publishers;
    }
apply_tx now timestamp (revoke name reason by evidence) i = record i {
  publishers = penalise (lookup name i.canonical_to_pubkey) i.publishers;
}
apply_tx now timestamp (slash id amount reason) i = record i {
  publishers = update id (slashed_stats amount) i.publishers;
}
apply_tx now timestamp (rotate_publisher_key prefix old new s t time nonce) i = record {
  canonical_to_pubkey = retarget prefix old new i.canonical_to_pubkey;
  publishers = migrate old new (lookup old i.publishers) i.publishers;
}
apply_tx now timestamp (validator_join id key stake) i = i
apply_tx now timestamp (validator_leave id) i = i

unfoldable pub apply_txs : ℕ → ℕ → List Transaction → PublisherIndex → PublisherIndex
unfolding apply_tx
apply_txs now timestamp [] i = i
apply_txs now timestamp (tx ∷ txs) i = apply_txs now timestamp txs (apply_tx now timestamp tx i)

unfoldable pub apply_block : ℕ → Block → PublisherIndex → PublisherIndex
unfolding apply_txs
apply_block now b i = apply_txs now b.header.timestamp b.transactions i

unfoldable pub apply_blocks : ℕ → List Block → PublisherIndex → PublisherIndex
unfolding apply_block
apply_blocks now [] i = i
apply_blocks now (b ∷ bs) i = apply_blocks now bs (apply_block now b i)

unfoldable pub rebuild_from_chain : ℕ → List Block → PublisherIndex → PublisherIndex
unfolding apply_blocks new_index
rebuild_from_chain now bs i = apply_blocks now bs new_index

unfoldable pub publisher_count : PublisherIndex → ℕ
publisher_count i = length i.publishers

unfoldable pub all_stats : PublisherIndex → List PublisherStats
all_stats i = values i.publishers

unfoldable pub stats_of : Text → PublisherIndex → Option PublisherStats
stats_of key i = lookup key i.publishers
