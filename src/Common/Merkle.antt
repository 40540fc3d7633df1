-- ===== src/Common/Merkle.antt =====
-- crates/common/src/block.rs: the Merkle root of a block's transactions.
pub mod Fuel
use chain_registry_core.Prelude.{
  ℕ, zero, suc, Option, none, some, List, [], ◌∷◌, ◌++◌, map, Text, txt, length,
}
use chain_registry_core.Common.Block.{Transaction}
use chain_registry_core.Common.External.{External}

-- The last is pushed once more where the number is odd.
unfoldable pub padded : List Text → List Text
padded [] = []
padded (a ∷ []) = a ∷ a ∷ []
padded (a ∷ b ∷ level) = a ∷ b ∷ padded level

module _ (x : External) where
  open x use {sha256_hex, transaction_json}

  unfoldable pub leaf_hashes : List Transaction → List Text
  leaf_hashes txs = map (λ tx. sha256_hex (transaction_json tx)) txs

  -- The hashes of the chunks of two. A chunk of one, whose second element the code would read out of
  -- bounds, does not arise from a padded level.
  unfoldable pub next_level : List Text → List Text
  next_level [] = []
  next_level (a ∷ []) = []
  next_level (a ∷ b ∷ level) = sha256_hex (a ++ b) ∷ next_level level

  -- The loop, with fuel: `none` where the fuel runs out, or on no hashes, where the code would panic.
  unfoldable pub root_from : ℕ → List Text → Option Text
  unfolding padded next_level
  root_from zero level = none
  root_from (suc fuel) [] = none
  root_from (suc fuel) (a ∷ []) = some a
  root_from (suc fuel) (a ∷ b ∷ level) = root_from fuel (next_level (padded (a ∷ b ∷ level)))

  -- A level has at most half of the hashes of the one before, rounded up, so their number is fuel
  -- enough.
  unfoldable pub merkle_root : List Transaction → Option Text
  unfolding leaf_hashes root_from
  merkle_root [] = some (sha256_hex (txt "empty"))
  merkle_root (tx ∷ txs) = root_from (length (tx ∷ txs)) (leaf_hashes (tx ∷ txs))
