-- ===== src/Common/Merkle/Fuel.antt =====
-- crates/common/src/block.rs: the loop of `merkle_root` ends.
use chain_registry_core.Prelude.{
  ℕ, zero, suc, ◌+◌, ◌*◌, ◌≤◌, some, List, [], ◌∷◌, ◌++◌, Text, length, length-map, ◌≡◌, refl,
  arith,
}
use chain_registry_core.Common.Block.{Transaction}
use chain_registry_core.Common.External.{External}
use chain_registry_core.Common.Merkle.{padded, next_level, root_from, leaf_hashes, merkle_root}

module _ (x : External) where
  -- A level has at most half of the hashes of the one below it, rounded up.
  pub length-next_level-padded :
      (level : List Text) → 2 * length (next_level x (padded level)) ≤ length level + 1
  unfolding padded next_level
  length-next_level-padded [] = omega arith
  length-next_level-padded (a ∷ []) = omega arith
  length-next_level-padded (a ∷ b ∷ level) = omega (arith, length-next_level-padded level)

  pub next_level-fuel :
      (fuel : ℕ) (a b : Text) (level : List Text)
      → length (a ∷ b ∷ level) ≤ suc fuel
      → length (next_level x (padded (a ∷ b ∷ level))) ≤ fuel
  next_level-fuel fuel a b level h = omega (arith, length-next_level-padded (a ∷ b ∷ level))

  -- On at least one hash, fuel for their number gives a root, and any such fuel gives the same.
  pub root_from_fuel :
      (fuel other : ℕ) (a : Text) (level : List Text)
      → length (a ∷ level) ≤ fuel
      → length (a ∷ level) ≤ other
      → (root : Text) × (root_from x fuel (a ∷ level) ≡ some root)
        × (root_from x other (a ∷ level) ≡ some root)
  unfolding root_from padded next_level
  root_from_fuel zero other a level h k = ground arith
  root_from_fuel (suc fuel) zero a level h k = ground arith
  root_from_fuel (suc fuel) (suc other) a [] h k = (a, refl, refl)
  root_from_fuel (suc fuel) (suc other) a (b ∷ level) h k =
      root_from_fuel fuel other (x.sha256_hex (a ++ b)) (next_level x (padded level))
        (next_level-fuel fuel a b level h) (next_level-fuel other a b level k)

  -- The root is found, with more fuel than `merkle_root` takes too.
  pub merkle_root_total :
      (txs : List Transaction) (fuel : ℕ)
      → 1 ≤ length txs
      → length txs ≤ fuel
      → (root : Text) × (merkle_root x txs ≡ some root)
        × (root_from x fuel (leaf_hashes x txs) ≡ some root)
  unfolding merkle_root leaf_hashes
  merkle_root_total [] fuel h k = ground arith
  merkle_root_total (tx ∷ txs) fuel h k =
      let hashed = length-map (λ t. x.sha256_hex (x.transaction_json t)) txs in
      root_from_fuel (length (tx ∷ txs)) fuel (x.sha256_hex (x.transaction_json tx))
        (leaf_hashes x txs) (omega (arith, hashed)) (omega (arith, hashed))
