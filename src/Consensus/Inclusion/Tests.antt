-- ===== src/Consensus/Inclusion/Tests.antt =====
-- A transaction that is left out, and the theorem on blame at it.
use chain_registry_core.Prelude.{◌≡◌, true, List, [], ◌∷◌, txt, text_eq}
use chain_registry_core.Consensus.Inclusion.{check_block, new_tracker}
use chain_registry_core.Consensus.Inclusion.Censorship.{
  Event, submitted, included, run, blames, blame_exact,
}

abbrev events : List Event
events =
    submitted (txt "tx1") 8
    ∷ submitted (txt "tx2") 10
    ∷ submitted (txt "tx2") 14
    ∷ included (txt "tx1" ∷ [])
    ∷ []

blame_exact_example :
    blames (txt "tx2") (check_block 5 (txt "p") 16 (txt "tx1" ∷ []) (run events new_tracker)) ≡ true
blame_exact_example = blame_exact (txt "tx2") 5 (txt "p") 16 (txt "tx1" ∷ []) events
