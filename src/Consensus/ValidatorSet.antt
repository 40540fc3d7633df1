-- ===== src/Consensus/ValidatorSet.antt =====
-- crates/consensus/src/validator_set.rs: who may vote on a block.
pub mod Membership
pub mod Slashing
mod Tests
use chain_registry_core.Prelude.{
  ℕ, ◌+◌, ◌-◌, min, Bool, false, ◌||◌, Option, none, some, List, [], ◌∷◌, ◌++◌, map, Text, txt,
  text_beq, text_eq, text_leb, leb, nat_beq, if◌then◌else◌, filterb,
}
use chain_registry_core.Prelude.Map.{Map, values, lookup, insert, update}
use chain_registry_core.Prelude.Count.{count}
use chain_registry_core.Prelude.Sort.{sort_by}
use chain_registry_core.Common.External.{External}

pub record ValidatorInfo : Type 0 where
  pub id : Text
  pub pubkey : Text
  pub eth_address : Option Text
  pub stake : ℕ
  pub reputation : ℕ
  pub is_active : Bool

pub record ValidatorSet : Type 0 where
  pub validators : Map Text ValidatorInfo

unfoldable pub new : ValidatorSet
new = record { validators = [] }

unfoldable pub add : ValidatorInfo → ValidatorSet → ValidatorSet
add info s = record { validators = insert info.id info s.validators }

-- The entry stays, no longer active.
unfoldable pub deactivate : Text → ValidatorSet → ValidatorSet
deactivate id s = record {
  validators = update id (λ v. record v { is_active = false }) s.validators;
}

unfoldable pub is_member : Text → ValidatorSet → Bool
is_member id s = elim (lookup id s.validators) [ none ↦ false | some v ↦ v.is_active ]

-- `ValidatorSet::len`
unfoldable pub active_count : ValidatorSet → ℕ
active_count s = count (λ (e : Text × ValidatorInfo). e.1.is_active) s.validators

unfoldable pub active : ValidatorSet → List ValidatorInfo
active s = filterb (λ (v : ValidatorInfo). v.is_active) (values s.validators)

unfoldable pub active_ids : ValidatorSet → List Text
unfolding active
active_ids s = map (λ (v : ValidatorInfo). v.id) (active s)

-- What `slash` does to the entry that it finds.
unfoldable pub slashed : ℕ → ValidatorInfo → ValidatorInfo
slashed amount v =
    let left = v.stake - amount in
    record v {
      stake = left;
      reputation = v.reputation - 10;
      is_active = if nat_beq left 0 then false else v.is_active;
    }

unfoldable pub slash : Text → ℕ → ValidatorSet → ValidatorSet
unfolding slashed
slash id amount s = record { validators = update id (slashed amount) s.validators }

-- `saturating_add` on a `u8`, then the cap at 100.
unfoldable pub rewarded : ValidatorInfo → ValidatorInfo
rewarded v = record v { reputation = min (min (v.reputation + 1) 255) 100 }

unfoldable pub reward : Text → ValidatorSet → ValidatorSet
unfolding rewarded
reward id s = record { validators = update id rewarded s.validators }

abbrev pub join : Text → List Text → Text
join sep [] = []
join sep (s ∷ []) = s
join sep (s ∷ t ∷ ts) = s ++ (sep ++ join sep (t ∷ ts))

unfoldable pub set_hash : External → ValidatorSet → Text
unfolding active_ids
set_hash x s = x.sha256_hex (join (txt ",") (sort_by text_leb (active_ids s)))

-- A validator as the node lists it: crates/common/src/lib.rs.
pub record Validator : Type 0 where
  pub id : Text
  pub alias : Text
  pub pubkey : Text
  pub eth_address : Text
  pub stake : ℕ
  pub reputation : ℕ
  pub status : Text

unfoldable pub info_of : Validator → ValidatorInfo
info_of v = record {
  id = v.id;
  pubkey = v.pubkey;
  eth_address = some v.eth_address;
  stake = v.stake;
  reputation = if leb v.reputation 255 then v.reputation else 100;
  is_active = text_beq v.status (txt "online") || text_beq v.status (txt "self");
}

add_each : List Validator → ValidatorSet → ValidatorSet
add_each [] s = s
add_each (v ∷ vs) s = add_each vs (add (info_of v) s)

-- `From<common::ValidatorSet>`
unfoldable pub from_common : List Validator → ValidatorSet
unfolding add_each new
from_common vs = add_each vs new
