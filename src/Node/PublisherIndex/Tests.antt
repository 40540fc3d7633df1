-- ===== src/Node/PublisherIndex/Tests.antt =====
-- Two blocks of one publisher, and the theorem on the rebuilt index at them.
use chain_registry_core.Prelude.{◌%◌, ◌^◌, List, [], ◌∷◌, txt, text_eq, ◌≡◌, refl}
use chain_registry_core.Common.Block.{Block, publish, revoke}
use chain_registry_core.Common.Sample.Chain.{package_named, header_at, block_of}
use chain_registry_core.Node.PublisherIndex.{new_index, stats_of, rebuild_from_chain}
use chain_registry_core.Node.PublisherIndex.Counts.{
  total, any_rotation_in, published_in, total-rebuild_from_chain,
}

abbrev blocks : List Block
blocks =
    block_of (header_at 1 [] [] [])
      (publish (package_named (txt "a")) ∷ publish (package_named (txt "b")) ∷ []) []
    ∷ block_of (header_at 2 [] [] [])
        (revoke (txt "npm:a@1") (txt "malware") [] [] ∷ publish (package_named (txt "c")) ∷ []) []
    ∷ []

total-rebuild_from_chain_example :
    total (stats_of (txt "key") (rebuild_from_chain 7 blocks new_index))
    ≡ published_in (txt "key") blocks % 2 ^ 32
unfolding any_rotation_in
total-rebuild_from_chain_example = total-rebuild_from_chain (txt "key") 7 blocks new_index refl
