-- ===== src/Node/L1Quorum/Tests.antt =====
-- Three endpoints, and the theorem on a majority at them.
use chain_registry_core.Prelude.{◌*◌, ◌<◌, ◌≡◌, ◌↔◌, some, List, [], ◌∷◌, Text, txt, length}
use chain_registry_core.Node.L1Quorum.{majority_hash}
use chain_registry_core.Node.L1Quorum.Majority.{votes_for, majority_hash_iff}

abbrev answers : List Text
answers = txt " 0xAA" ∷ txt "0xaa" ∷ txt "0xbb" ∷ []

majority_hash_iff_example :
    (majority_hash answers ≡ some (txt "0xaa"))
    ↔ (length answers < votes_for (txt "0xaa") answers * 2)
majority_hash_iff_example = majority_hash_iff answers (txt "0xaa")
