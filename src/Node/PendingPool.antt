-- ===== src/Node/PendingPool.antt =====
-- crates/node/src/pending_pool.rs: the submissions that are not yet decided. The pool's file is the
-- map that was written last; failures of the disk are left out. A time is a number of seconds.
pub mod Restart
pub mod Sweep
mod Tests
use chain_registry_core.Prelude.{
  ℕ, ◌+◌, ◌%◌, ◌^◌, Bool, true, false, not, ◌||◌, Option, none, some, List, [], ◌∷◌, map, Text,
  text_eq, ltb, nat_beq, if◌then◌else◌, length, filterb, ◌==◌,
}
use chain_registry_core.Prelude.Map.{Map, lookup, contains_key, values, keys, map_values}
use chain_registry_core.Prelude.Map
use chain_registry_core.Common.Package.{PublishRequest, canonical}

pub record PendingEntry : Type 0 where
  pub request : PublishRequest
  pub received_at : ℕ
  pub attempt_count : ℕ
  pub in_progress : Bool

-- `file` is missing for a pool in memory. An entry is written as it is.
pub record PendingPool : Type 0 where
  pub entries : Map Text PendingEntry
  pub file : Option (Map Text PendingEntry)

unfoldable pub new_pool : PendingPool
new_pool = record { entries = []; file = none }

abbrev pub restored : PendingEntry → PendingEntry
restored e = record e { in_progress = false }

-- From a file, empty where it is missing or corrupt.
unfoldable pub open_pool : Map Text PendingEntry → PendingPool
open_pool file = record { entries = map_values restored file; file = some file }

unfoldable pub persist : PendingPool → PendingPool
persist p = record p { file = elim p.file [ none ↦ none | some _ ↦ some p.entries ] }

abbrev pub is_duplicate : PublishRequest → Option PendingEntry → Bool
is_duplicate request none = false
is_duplicate request (some e) = e.request.content_hash == request.content_hash

abbrev pub new_entry : ℕ → PublishRequest → PendingEntry
new_entry now request = record {
  request = request;
  received_at = now;
  attempt_count = 0;
  in_progress = false;
}

abbrev pub with_request : ℕ → PublishRequest → PendingPool → PendingPool
with_request now request p = record p {
  entries = Map.insert (canonical request.id) (new_entry now request) p.entries;
}

unfoldable pub insert : ℕ → PublishRequest → PendingPool → Bool × PendingPool
insert now request p =
    if is_duplicate request (lookup (canonical request.id) p.entries)
    then (false, p)
    else (true, persist (with_request now request p))

unfoldable pub contains : Text → PendingPool → Bool
contains name p = contains_key name p.entries

unfoldable pub get : Text → PendingPool → Option PendingEntry
get name p = lookup name p.entries

unfoldable pub remove : Text → PendingPool → Option PendingEntry × PendingPool
remove name p = elim (lookup name p.entries) [
  | none ↦ (none, p)
  | some e ↦ (some e, persist (record p { entries = Map.remove name p.entries }))
]

-- Not in progress, or received more than five minutes ago.
unfoldable pub is_eligible : ℕ → PendingEntry → Bool
is_eligible now e = not e.in_progress || ltb (e.received_at + 300) now

abbrev pub started : PendingEntry → PendingEntry
started e = record e { in_progress = true; attempt_count = (e.attempt_count + 1) % 2 ^ 32 }

abbrev pub sweep : ℕ → PendingPool → PendingPool
sweep now p = record p {
  entries = map_values (λ (e : PendingEntry). if is_eligible now e then started e else e) p.entries;
}

unfoldable pub ready_for_validation : ℕ → PendingPool → List PublishRequest × PendingPool
ready_for_validation now p =
    let requests =
      map (λ (e : PendingEntry). e.request) (filterb (is_eligible now) (values p.entries)) in
    (requests, if nat_beq (length requests) 0 then sweep now p else persist (sweep now p))

unfoldable pub len : PendingPool → ℕ
len p = length p.entries

unfoldable pub all_canonicals : PendingPool → List Text
all_canonicals p = keys p.entries
