-- ===== src/Consensus/ValidatorSet/Tests.antt =====
-- Two validators, one of which loses its stake, and the theorem on slashing at them.
use chain_registry_core.Prelude.{
  ◌+◌, ◌≡◌, ◌&&◌, true, none, Text, txt, text_eq, ltb, if◌then◌else◌, ◌==◌,
}
use chain_registry_core.Prelude.Map.{lookup}
use chain_registry_core.Consensus.ValidatorSet.{
  ValidatorInfo, ValidatorSet, new, add, is_member, active_count, slash,
}
use chain_registry_core.Consensus.ValidatorSet.Slashing.{is_expelled, stake_of, slash_expels}

abbrev info : Text → ValidatorInfo
info id = record {
  id = id;
  pubkey = id;
  eth_address = none;
  stake = 100;
  reputation = 50;
  is_active = true;
}

abbrev two : ValidatorSet
two = add (info (txt "v2")) (add (info (txt "v1")) new)

slash_expels_example :
    (active_count (slash (txt "v1") 100 two)
        + (if is_expelled 100 (lookup (txt "v1") two.validators) then 1 else 0)
      ≡ active_count two)
    × (is_member (txt "v2") (slash (txt "v1") 100 two) ≡ (
        if txt "v2" == txt "v1"
        then is_member (txt "v1") two && ltb 100 (stake_of (lookup (txt "v1") two.validators))
        else is_member (txt "v2") two))
slash_expels_example = slash_expels (txt "v1") (txt "v2") 100 two
