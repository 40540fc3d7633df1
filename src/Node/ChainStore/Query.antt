-- ===== src/Node/ChainStore/Query.antt =====
-- crates/node/src/chain_store.rs: what is read from the store, and the writes to a single record.
use chain_registry_core.Prelude.{
  ℕ, zero, suc, ◌+◌, ◌-◌, ◌%◌, ◌^◌, Bool, true, false, Option, none, some, List, [], ◌∷◌, ◌++◌,
  Text, txt, text_eq, text_leb, nat_eq, starts_with, not, nat_beq, ◌==◌, if◌then◌else◌, filterb,
  length, take, drop, ◌&&◌,
}
use chain_registry_core.Prelude.Map.{Map, values}
use chain_registry_core.Prelude.Ordered.{put}
use chain_registry_core.Common.Package.{
  ChainRecord, PackageStatus, verified, pending, revoked, canonical,
}
use chain_registry_core.Common.Block.{Block, Transaction, rotate_publisher_key}
use chain_registry_core.Common.External.{External, block_hash}
use chain_registry_core.Node.ChainStore.{
  ChainStore, get_block_by_height, get_package, tip_height, insert_block,
}

-- `"0".repeat(64)`
abbrev pub zeros : ℕ → Text
zeros zero = []
zeros (suc n) = 48 ∷ zeros n

-- The time is that of 2024-01-01T00:00:00Z.
unfoldable pub genesis : Block
genesis = record {
  header = record {
    height = 0;
    prev_hash = zeros 64;
    merkle_root = zeros 64;
    proposer_id = txt "genesis";
    timestamp = 1704067200;
    validator_set_hash = zeros 64;
    vrf_output = none;
    vrf_proof = none;
  };
  transactions = [];
  pbft_signatures = [];
}

-- Down from `height`, at most `limit` blocks, to the first height that has none.
unfoldable pub blocks_down : ℕ → ℕ → ChainStore → List Block
blocks_down zero height s = []
blocks_down (suc limit) zero s = elim (get_block_by_height 0 s) [ none ↦ [] | some b ↦ b ∷ [] ]
blocks_down (suc limit) (suc height) s =
    let rest = blocks_down limit height s in
    elim (get_block_by_height (suc height) s) [ none ↦ [] | some b ↦ b ∷ rest ]

unfoldable pub list_blocks : ℕ → ℕ → ChainStore → List Block
unfolding blocks_down
list_blocks offset limit s =
    if nat_beq (tip_height s) 0 then [] else blocks_down limit (tip_height s - offset) s

unfoldable pub save_package : ChainRecord → ChainStore → ChainStore
save_package r s = record s { packages = put text_leb (canonical r.id) r s.packages }

abbrev pub accessed : ℕ → ChainRecord → ChainRecord
accessed now r = record r { access_count = (r.access_count + 1) % 2 ^ 32; last_accessed = some now }

unfoldable pub mark_accessed : ℕ → Text → ChainStore → ChainStore
unfolding save_package
mark_accessed now name s = elim (get_package name s) [
  | none ↦ s
  | some r ↦ save_package (accessed now r) s
]

-- The records whose name starts with the prefix, in the order of their names.
abbrev pub with_prefix : Text → Map Text ChainRecord → List ChainRecord
with_prefix prefix m = values (filterb (λ (t : Text × ChainRecord). starts_with t.0 prefix) m)

unfoldable pub package_count : ChainStore → ℕ
package_count s = length s.packages

abbrev pub any_publisher : Text → List ChainRecord → Bool
any_publisher key [] = false
any_publisher key (r ∷ rs) = if r.publisher_pubkey == key then true else any_publisher key rs

unfoldable pub has_publisher_for_prefix : Text → Text → ChainStore → Bool
has_publisher_for_prefix prefix key s = any_publisher key (with_prefix prefix s.packages)

-- The versions that `semver` reads, and whether the first is after the second; `none` where one of the
-- two is not a version.
module _ (semver_after : Text → Text → Option Bool) where
  abbrev pub is_newer : ChainRecord → Option ChainRecord → Bool
  is_newer r none = true
  is_newer r (some current) = elim (semver_after r.id.version current.id.version) [
    | none ↦ not (text_leb r.id.version current.id.version)
    | some after ↦ after
  ]

  abbrev pub is_verified_status : PackageStatus → Bool
  is_verified_status verified = true
  is_verified_status pending = false
  is_verified_status (revoked reason) = false

  unfoldable pub latest_version_of : Option ChainRecord → List ChainRecord → Option ChainRecord
  latest_version_of latest [] = latest
  latest_version_of latest (r ∷ rs) =
      latest_version_of
        (if is_verified_status r.status && is_newer r latest then some r else latest) rs

  unfoldable pub get_latest_version : Text → Text → ChainStore → Option ChainRecord
  unfolding latest_version_of
  get_latest_version ecosystem name s =
      latest_version_of none (with_prefix (ecosystem ++ (txt ":" ++ name)) s.packages)

-- The nonce of the first rotation of the key in the block.
abbrev pub rotation_nonce : Text → List Transaction → Option ℕ
rotation_nonce key [] = none
rotation_nonce key (rotate_publisher_key prefix old new s t time nonce ∷ txs) =
    if old == key then some nonce else rotation_nonce key txs
rotation_nonce key (tx ∷ txs) = rotation_nonce key txs

abbrev pub nonce_in : Text → Option Block → Option ℕ
nonce_in key none = none
nonce_in key (some b) = rotation_nonce key b.transactions

abbrev pub or_else : Option ℕ → ℕ → ℕ
or_else none n = n
or_else (some k) n = k

-- The heights below `count`, down to 0.
unfoldable pub nonce_below : Text → ℕ → ChainStore → ℕ
nonce_below key zero s = 0
nonce_below key (suc h) s = or_else (nonce_in key (get_block_by_height h s)) (nonce_below key h s)

unfoldable pub publisher_rotation_nonce : Text → ChainStore → ℕ
unfolding nonce_below
publisher_rotation_nonce key s = nonce_below key (tip_height s + 1) s

-- Whether the block rotates the key.
abbrev pub rotates : Text → List Transaction → Bool
rotates key [] = false
rotates key (rotate_publisher_key prefix old new s t time nonce ∷ txs) =
    if old == key then true else rotates key txs
rotates key (tx ∷ txs) = rotates key txs

abbrev pub time_in : Text → Option Block → Option ℕ
time_in key none = none
time_in key (some b) = if rotates key b.transactions then some b.header.timestamp else none

abbrev pub or_later : Option ℕ → Option ℕ → Option ℕ
or_later none o = o
or_later (some t) o = some t

unfoldable pub time_below : Text → ℕ → ChainStore → Option ℕ
time_below key zero s = none
time_below key (suc h) s = or_later (time_in key (get_block_by_height h s)) (time_below key h s)

unfoldable pub publisher_last_rotation_time : Text → ChainStore → Option ℕ
unfolding time_below
publisher_last_rotation_time key s = time_below key (tip_height s + 1) s

-- A filter that is missing lets everything pass; the reason of a revocation does not matter.
abbrev pub status_matches : Option PackageStatus → PackageStatus → Bool
status_matches none s = true
status_matches (some verified) verified = true
status_matches (some pending) pending = true
status_matches (some (revoked reason)) (revoked other) = true
status_matches (some s) t = false

abbrev pub in_ecosystem : Option Text → Map Text ChainRecord → List ChainRecord
in_ecosystem none m = values m
in_ecosystem (some ecosystem) m = with_prefix (ecosystem ++ txt ":") m

unfoldable pub list_packages :
    ℕ → ℕ → Option Text → Option PackageStatus → ChainStore → List ChainRecord × ℕ
list_packages offset limit ecosystem status s =
    let matching =
      filterb (λ r. status_matches status r.status) (in_ecosystem ecosystem s.packages) in
    (take limit (drop offset matching), length matching)

unfoldable pub block_count : ChainStore → ℕ
block_count s = length s.by_height

pub record ChainStats : Type 0 where
  pub tip_height : ℕ
  pub tip_hash : Text
  pub package_count : ℕ
  pub block_count : ℕ

module _ (x : External) where
  unfoldable pub tip_hash : ChainStore → Text
  tip_hash s = elim (get_block_by_height (tip_height s) s) [
    | none ↦ zeros 64
    | some b ↦ block_hash x b
  ]

  -- A store is given a genesis block where it is empty.
  unfoldable pub open_store : ChainStore → ChainStore
  unfolding insert_block genesis
  open_store s =
      if nat_beq (tip_height s) 0 && nat_beq (block_count s) 0 then insert_block x genesis s else s

  unfoldable pub stats : ChainStore → ChainStats
  unfolding tip_hash package_count block_count
  stats s = record {
    tip_height = tip_height s;
    tip_hash = tip_hash s;
    package_count = package_count s;
    block_count = block_count s;
  }
