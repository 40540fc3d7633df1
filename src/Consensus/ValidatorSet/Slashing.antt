-- ===== src/Consensus/ValidatorSet/Slashing.antt =====
-- What slashing does to the membership and to the number that the quorum is taken of:
-- crates/consensus/src/validator_set.rs.
use chain_registry_core.Prelude.{
  ℕ, ◌+◌, ◌-◌, ◌≡◌, Bool, true, false, ◌&&◌, Option, none, some, [], ◌∷◌, Text, text_eq,
  text_beq_iff, ltb, nat_beq, if◌then◌else◌, arith, ◌==◌,
}
use chain_registry_core.Prelude.Map.{Map, lookup, update, lookup-update}
use chain_registry_core.Prelude.Count.{count}
use chain_registry_core.Consensus.ValidatorSet.{
  ValidatorInfo, ValidatorSet, is_member, active_count, slashed, slash,
}

abbrev is_active : Text × ValidatorInfo → Bool
is_active e = e.1.is_active

abbrev one_if : Bool → ℕ
one_if true = 1
one_if false = 0

-- The validator is active and loses all of its stake.
abbrev pub is_expelled : ℕ → Option ValidatorInfo → Bool
is_expelled amount none = false
is_expelled amount (some v) = v.is_active && nat_beq (v.stake - amount) 0

abbrev pub stake_of : Option ValidatorInfo → ℕ
stake_of none = 0
stake_of (some v) = v.stake

count-update :
    (id : Text) (amount : ℕ) (m : Map Text ValidatorInfo)
    → count is_active (update id (slashed amount) m) + one_if (is_expelled amount (lookup id m))
      ≡ count is_active m
unfolding slashed
count-update id amount [] = omega arith
count-update id amount ((k, v) ∷ m) = ground (arith, count-update id amount m)

-- Slashing expels exactly a member whose whole stake it takes: the number of active validators drops
-- by one then, and stays otherwise; every other validator is a member as before.
pub slash_expels :
    (id k : Text) (amount : ℕ) (s : ValidatorSet)
    → (active_count (slash id amount s)
          + (if is_expelled amount (lookup id s.validators) then 1 else 0)
        ≡ active_count s)
      × (is_member k (slash id amount s) ≡ (
          if k == id
          then is_member id s && ltb amount (stake_of (lookup id s.validators))
          else is_member k s))
unfolding active_count is_member slash slashed
slash_expels id k amount s = ground (
  arith,
  count-update id amount s.validators,
  lookup-update id k (slashed amount) s.validators,
  text_beq_iff k id,
)
