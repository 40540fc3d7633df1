-- ===== src/Node/ChainStore/Tests.antt =====
-- A store of three blocks, and the theorems at it.
use chain_registry_core.Prelude.{
  ℕ, zero, suc, ◌≤◌, none, some, [], ◌∷◌, Text, txt, text_eq, nat_eq, false, ◌≡◌, ◌⊎◌, refl, ap,
  subst, arith,
}
use mathlib.Core.Option.{some-injective}
use chain_registry_core.Common.Block.{Block, BlockHeader, Transaction, publish, revoke}
use chain_registry_core.Common.Collision.{Collision}
use chain_registry_core.Common.External.{block_hash}
use chain_registry_core.Common.Sample.Encoding.{encoded, header_fields, header_fields_injective}
use chain_registry_core.Common.Sample.Chain.{package_named, header_at, block_of}
use chain_registry_core.Node.ChainStore.{
  ChainStore, get_package, get_block_by_hash, get_block_by_height, tip_height, insert_block,
  rollback_to_height, rebuild_package_index, index_batch, index_writes,
}
use chain_registry_core.Node.ChainStore.Valid.{IsStore, insert_block-IsStore}
use chain_registry_core.Node.ChainStore.Index.{effects, get_package-insert_block}
use chain_registry_core.Node.ChainStore.Rollback.{rollback_to_height_lem}
use chain_registry_core.Node.ChainStore.Reorg.{publishes, reorg_forgets}

abbrev empty : ChainStore
empty = record { by_hash = []; by_height = []; packages = [] }

abbrev pad : Transaction
pad = publish (package_named (txt "pad"))

abbrev name : Text
name = txt "npm:pad@1"

abbrev genesis_block : Block
genesis_block = block_of (header_at 0 [] [] []) [] []

abbrev first_block : Block
first_block = block_of (header_at 1 (txt "0") [] []) [] []

abbrev second_block : Block
second_block =
    block_of (header_at 2 (txt "1") [] []) (pad ∷ revoke name (txt "malware") [] [] ∷ []) []

abbrev store : ChainStore
store = insert_block encoded first_block (insert_block encoded genesis_block empty)

store-IsStore : IsStore encoded store
unfolding insert_block index_batch block_hash
store-IsStore = (
  ((omega arith, tt), (tt, tt)),
  tt,
  ((genesis_block, refl, refl, refl), ((first_block, refl, refl, refl), tt)),
)

heights : (h k : BlockHeader) → header_fields h ≡ header_fields k → h.height ≡ k.height
heights h k e = ap (λ (c : BlockHeader). c.height) (header_fields_injective h k e)

insert_block-IsStore_example :
    IsStore encoded (insert_block encoded second_block store) ⊎ Collision encoded
insert_block-IsStore_example = insert_block-IsStore encoded heights second_block store store-IsStore

get_package-insert_block_example :
    get_package name (insert_block encoded second_block store)
    ≡ effects
        (block_hash encoded second_block)
        name
        (get_package name store)
        second_block.transactions
        (get_package name store)
unfolding insert_block index_batch
get_package-insert_block_example = get_package-insert_block encoded name second_block store tt

rollback_to_height_lem_example :
    (get_block_by_height 1 (rollback_to_height 0 store).1 ≡ none)
    × (get_block_by_hash (block_hash encoded first_block) (rollback_to_height 0 store).1
        ≡ get_block_by_hash (block_hash encoded first_block) store)
    × (tip_height (rollback_to_height 0 store).1 ≤ 0)
rollback_to_height_lem_example =
    rollback_to_height_lem encoded 1 0 (block_hash encoded first_block) store store-IsStore

abbrev longer : ChainStore
longer = insert_block encoded second_block store

longer-IsStore : IsStore encoded longer
unfolding insert_block index_batch index_writes block_hash
longer-IsStore = (
  ((omega arith, (omega arith, tt)), ((omega arith, tt), (tt, tt))),
  (refl, tt),
  (
    (genesis_block, refl, refl, refl),
    ((first_block, refl, refl, refl), ((second_block, refl, refl, refl), tt)),
  ),
)

silent :
    (h : ℕ) (b : Block)
    → h ≤ 0
    → get_block_by_height h longer ≡ some b
    → publishes name b.transactions ≡ false
unfolding get_block_by_height get_block_by_hash insert_block publishes block_hash
silent zero b le e =
    subst (λ (c : Block). publishes name c.transactions ≡ false) (some-injective genesis_block b e)
      refl
silent (suc h) b le e = ground arith

reorg_forgets_example :
    get_package name (rebuild_package_index encoded (rollback_to_height 0 longer).1) ≡ none
reorg_forgets_example = reorg_forgets encoded name 0 longer longer-IsStore silent
