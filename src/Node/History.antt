-- ===== src/Node/History.antt =====
-- crates/node/src/validator_set_history.rs: which validator set is in force at a height. The history
-- file is the list of its snapshots, empty where it is missing or unreadable; failures of the disk are
-- left out.
pub mod Latest
pub mod InForce
mod Tests
use chain_registry_core.Prelude.{
  ℕ, ◌+◌, ◌-◌, Bool, true, false, not, Option, none, some, List, [], ◌∷◌, ◌++◌, map, Text, text_eq,
  text_leb, leb, ltb, nat_beq, to_ascii_lowercase, if◌then◌else◌, length, filterb, drop, ◌==◌,
}
use chain_registry_core.Prelude.Sort.{sort_by}
use chain_registry_core.Consensus.ValidatorSet.{Validator}

pub record ValidatorSetSnapshot : Type 0 where
  pub effective_from_height : ℕ
  pub validators : List Validator

abbrev pub max_snapshots : ℕ
max_snapshots = 512

abbrev pub is_before : ValidatorSetSnapshot → ValidatorSetSnapshot → Bool
is_before a b = leb a.effective_from_height b.effective_from_height

-- The file's snapshots in ascending order.
unfoldable pub load : List ValidatorSetSnapshot → List ValidatorSetSnapshot
load file = sort_by is_before file

unfoldable pub membership_key : List Validator → List Text
unfolding to_ascii_lowercase
membership_key set = sort_by text_leb (map (λ (v : Validator). to_ascii_lowercase v.pubkey) set)

abbrev pub keys_beq : List Text → List Text → Bool
keys_beq [] [] = true
keys_beq [] (k ∷ ks) = false
keys_beq (j ∷ js) [] = false
keys_beq (j ∷ js) (k ∷ ks) = if j == k then keys_beq js ks else false

abbrev pub is_same_membership : List Validator → List Validator → Bool
is_same_membership a b = keys_beq (membership_key a) (membership_key b)

-- `max_by_key`: the last of the greatest.
abbrev pub latest_from : ValidatorSetSnapshot → List ValidatorSetSnapshot → ValidatorSetSnapshot
latest_from best [] = best
latest_from best (s ∷ ss) = latest_from (if is_before best s then s else best) ss

abbrev pub latest_of : List ValidatorSetSnapshot → Option ValidatorSetSnapshot
latest_of [] = none
latest_of (s ∷ ss) = some (latest_from s ss)

unfoldable pub select_at : List ValidatorSetSnapshot → ℕ → Option ValidatorSetSnapshot
select_at snapshots height =
    latest_of (filterb (λ (s : ValidatorSetSnapshot). leb s.effective_from_height height) snapshots)

abbrev pub is_nil : List Validator → Bool
is_nil [] = true
is_nil (v ∷ vs) = false

abbrev pub set_of : Option ValidatorSetSnapshot → Option (List Validator)
set_of none = none
set_of (some s) = if is_nil s.validators then none else some s.validators

unfoldable pub set_at : List ValidatorSetSnapshot → ℕ → Option (List Validator)
unfolding load select_at
set_at file height = set_of (select_at (load file) height)

abbrev pub last : List ValidatorSetSnapshot → Option ValidatorSetSnapshot
last [] = none
last (s ∷ []) = some s
last (s ∷ t ∷ ss) = last (t ∷ ss)

-- The snapshots with a new one in the place of any for its height, in order, the oldest dropped
-- where they are too many.
unfoldable pub with_snapshot :
    ValidatorSetSnapshot → List ValidatorSetSnapshot → List ValidatorSetSnapshot
with_snapshot new snapshots =
    let others =
      filterb
        (λ (s : ValidatorSetSnapshot).
          not (nat_beq s.effective_from_height new.effective_from_height))
        snapshots in
    let ordered = sort_by is_before (others ++ new ∷ []) in
    if ltb max_snapshots (length ordered)
    then drop (length ordered - max_snapshots) ordered
    else ordered

abbrev pub is_unchanged : List Validator → Option ValidatorSetSnapshot → Bool
is_unchanged set none = false
is_unchanged set (some s) = is_same_membership s.validators set

-- The history file after a call of `record`.
unfoldable pub record_set :
    ℕ → List Validator → List ValidatorSetSnapshot → List ValidatorSetSnapshot
record_set effective_from_height set file =
    if is_nil set
    then file
    else if is_unchanged set (last (load file))
    then file
    else with_snapshot (record { effective_from_height = effective_from_height; validators = set })
        (load file)
