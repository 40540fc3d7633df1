-- ===== src/Resolver/Merkle/Pairs.antt =====
-- crates/resolver/src/light_client.rs: one level of the tree, its pairs and what stands above them.
use chain_registry_core.Prelude.{
  ℕ, zero, suc, ◌/◌, ◌%◌, some, List, [], ◌∷◌, Text, nat_beq, get_elem?, ◌≡◌, refl, arith,
}
use chain_registry_core.Common.External.{External}
use chain_registry_core.Common.Merkle.{padded, next_level}
use chain_registry_core.Resolver.Merkle.{MerkleStep, sibling_of, climb}

abbrev pub step_at : ℕ → Text → MerkleStep
step_at i sibling = record { sibling_hash = sibling; is_right = nat_beq (i % 2) 0 }

pub sibling_of-suc : (i : ℕ) → sibling_of (suc (suc i)) ≡ suc (suc (sibling_of i))
sibling_of-suc i = ground arith

pub parity_suc : (i : ℕ) → nat_beq (suc (suc i) % 2) 0 ≡ nat_beq (i % 2) 0
parity_suc i = ground arith

pub half_suc : (i : ℕ) → suc (suc i) / 2 ≡ suc (i / 2)
half_suc i = omega arith

module _ (x : External) where
  -- A hash has a sibling, and the hash of the two is half as far above.
  pub climb_pair :
      (level : List Text) (i : ℕ) (v : Text)
      → get_elem? level i ≡ some v
      → (s : Text) × (get_elem? (padded level) (sibling_of i) ≡ some s)
        × (get_elem? (next_level x (padded level)) (i / 2) ≡ some (climb x v (step_at i s)))
  unfolding padded next_level
  climb_pair [] i v h = ground arith
  climb_pair (a ∷ []) zero v h = (a, refl, cc)
  climb_pair (a ∷ []) (suc i) v h = ground arith
  climb_pair (a ∷ b ∷ level) zero v h = (b, refl, cc)
  climb_pair (a ∷ b ∷ level) (suc zero) v h = (a, refl, cc)
  climb_pair (a ∷ b ∷ level) (suc (suc i)) v h =
      let rest = climb_pair level i v h in
      (rest.0, rw (sibling_of-suc i) rest.1, rw (half_suc i, parity_suc i) rest.2)
