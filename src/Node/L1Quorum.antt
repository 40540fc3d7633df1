-- ===== src/Node/L1Quorum.antt =====
-- crates/node/src/l1_quorum.rs: one answer out of those of several L1 endpoints.
pub mod Majority
mod Tests
use chain_registry_core.Prelude.{
  ℕ, suc, ◌*◌, ◌/◌, min, Bool, Option, none, some, List, [], ◌∷◌, Text, text_eq, leb, ltb, trim,
  to_ascii_lowercase, if◌then◌else◌, length, get_elem?,
}
use chain_registry_core.Prelude.Map.{Map, lookup, insert}
use chain_registry_core.Prelude.Sort.{sort_by}

unfoldable pub aggregate_height : List ℕ → Option ℕ
aggregate_height [] = none
aggregate_height (a ∷ []) = some a
aggregate_height (a ∷ b ∷ []) = some (min a b)
aggregate_height (a ∷ b ∷ c ∷ rest) =
    get_elem? (sort_by leb (a ∷ b ∷ c ∷ rest)) (length (a ∷ b ∷ c ∷ rest) / 2)

unfoldable pub normalised : Text → Text
unfolding trim to_ascii_lowercase
normalised h = to_ascii_lowercase (trim h)

abbrev pub or_zero : Option ℕ → ℕ
or_zero none = 0
or_zero (some n) = n

-- How often each normalised hash occurs.
unfoldable pub counts : List Text → Map Text ℕ → Map Text ℕ
counts [] m = m
counts (h ∷ hs) m = counts hs (insert (normalised h) (suc (or_zero (lookup (normalised h) m))) m)

-- `max_by_key`: the last of the greatest.
abbrev pub most_from : Text × ℕ → Map Text ℕ → Text × ℕ
most_from best [] = best
most_from best (e ∷ m) = most_from (if leb best.1 e.1 then e else best) m

abbrev pub winner : ℕ → Map Text ℕ → Option Text
winner responders [] = none
winner responders (e ∷ m) =
    let best = most_from e m in if ltb responders (best.1 * 2) then some best.0 else none

unfoldable pub majority_hash : List Text → Option Text
unfolding counts
majority_hash [] = none
majority_hash (h ∷ hs) = winner (length (h ∷ hs)) (counts (h ∷ hs) [])
