-- ===== src/Consensus/Vrf/Tests.antt =====
-- Three proposers, and the theorems on their order.
use chain_registry_core.Prelude.{
  text_eq, ◌≡◌, refl, some, All, true, length, ℕ, none, List, [], ◌∷◌, ◌++◌, map, Text, txt, first,
  arith,
}
use chain_registry_core.Common.Sample.{sample}
use chain_registry_core.Consensus.Vrf.{
  VrfValidator, scored, select_validators, rank_proposers, select_proposer_deterministic,
}
use chain_registry_core.Consensus.Vrf.Ranking.{InOrder, rank_proposers_ordered}
use chain_registry_core.Consensus.Vrf.Primary.{primary_leads}
use mathlib.Core.List.{Perm}
use chain_registry_core.Prelude.Keys.{holds, Distinct}
use chain_registry_core.Consensus.Vrf.Committee.{IsShuffle, select_validators_committee}

abbrev proposer : Text → Text → VrfValidator
proposer id key = record { id = id; pubkey = key; vrf_output = none; vrf_proof = none }

abbrev three : List VrfValidator
three =
    proposer (txt "v1") (txt "c")
    ∷ proposer (txt "v2") (txt "a")
    ∷ proposer (txt "v3") (txt "b")
    ∷ []

rank_proposers_ordered_example :
    (ranked : List (Text × Text)) × (rank_proposers sample three (txt "e")
      ≡ map (λ (p : Text × Text). p.0) ranked)
    × Perm ranked
        (map (λ (v : VrfValidator). (v.id, sample.sha256_hex (v.pubkey ++ txt ":e"))) three)
    × InOrder ranked
rank_proposers_ordered_example = rank_proposers_ordered sample three (txt "e")

primary_leads_example :
    first (rank_proposers sample three (txt "e"))
    ≡ select_proposer_deterministic sample three (txt "e")
unfolding scored
primary_leads_example = primary_leads sample three (txt "e") (
  ((λ e. refl), ((λ e. ground (arith, e)), ((λ e. ground (arith, e)), tt))),
  (
    ((λ e. ground (arith, e)), ((λ e. refl), ((λ e. ground (arith, e)), tt))),
    (((λ e. ground (arith, e)), ((λ e. ground (arith, e)), ((λ e. refl), tt))), tt),
  ),
)

-- A shuffle that leaves the numbers as they are.
abbrev unshuffled : Text → List ℕ → List ℕ
unshuffled seed is = is

unshuffled-IsShuffle : IsShuffle unshuffled
unshuffled-IsShuffle = record { same_length = λ seed is. refl; same_times = λ seed is j. refl }

abbrev actives : List Text
actives = txt "a" ∷ txt "b" ∷ txt "c" ∷ []

abbrev two : List Text
two = txt "a" ∷ txt "b" ∷ []

abbrev output : Text
output = txt "0123456789abcdef0123456789ab"

select_validators_committee_example :
    (length two ≡ 2) × All (λ a. holds a actives ≡ true) two × Distinct two
unfolding select_validators
select_validators_committee_example =
    select_validators_committee unshuffled unshuffled-IsShuffle sample actives two (txt "c") 7 2
      (some output) (refl, (refl, (refl, tt))) refl
