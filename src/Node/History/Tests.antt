-- ===== src/Node/History/Tests.antt =====
-- A file of one snapshot, and the theorems on the history at it.
use chain_registry_core.Prelude.{◌≡◌, refl, true, some, List, [], ◌∷◌, txt, Text, text_eq, arith}
use chain_registry_core.Consensus.ValidatorSet.{Validator}
use chain_registry_core.Node.History.{ValidatorSetSnapshot, is_same_membership, set_at, record_set}
use chain_registry_core.Node.History.InForce.{recorded_set_in_force}

abbrev validator : Text → Validator
validator key = record {
  id = key;
  alias = key;
  pubkey = key;
  eth_address = txt "0x";
  stake = 100;
  reputation = 100;
  status = txt "online";
}

abbrev genesis : List ValidatorSetSnapshot
genesis = record { effective_from_height = 0; validators = validator (txt "aa") ∷ [] } ∷ []

abbrev rotated : List Validator
rotated = validator (txt "aa") ∷ validator (txt "bb") ∷ []

recorded_set_in_force_example :
    (s : List Validator) × (set_at (record_set 10 rotated genesis) 19 ≡ some s)
    × (is_same_membership s rotated ≡ true)
recorded_set_in_force_example =
    recorded_set_in_force genesis 10 19 rotated refl (omega arith, tt) (omega arith)
