-- ===== src/Node/PendingPool/Restart.antt =====
-- What a restart keeps of a pool: crates/node/src/pending_pool.rs.
use chain_registry_core.Prelude.{
  ℕ, ◌≡◌, refl, sym, ap, ◌∙◌, ◌⊎◌, inl, inr, subst, some, List, [], ◌∷◌, map, Text, text_eq,
  nat_beq, length, filterb, if◌then◌else◌, arith, Bool-cases, Option-cases,
}
use chain_registry_core.Prelude.Map.{Map, lookup, values, map_values}
use chain_registry_core.Prelude.Map
use chain_registry_core.Common.Package.{PublishRequest, canonical}
use chain_registry_core.Node.PendingPool.{
  PendingEntry, PendingPool, open_pool, restored, persist, with_request, sweep, is_duplicate,
  insert, remove, is_eligible, started, ready_for_validation,
}

-- The calls that change a pool.
pub data Call : Type 0 where
  inserted : ℕ → PublishRequest → Call
  removed : Text → Call
  swept : ℕ → Call

unfoldable pub apply : Call → PendingPool → PendingPool
apply (inserted now request) p = (insert now request p).1
apply (removed name) p = (remove name p).1
apply (swept now) p = (ready_for_validation now p).1

abbrev pub apply_all : List Call → PendingPool → PendingPool
apply_all [] p = p
apply_all (c ∷ cs) p = apply_all cs (apply c p)

-- The file holds the pool's entries, up to which are in progress.
abbrev IsSaved : PendingPool → Type 0
IsSaved p =
    (file : Map Text PendingEntry) × ((p.file ≡ some file)
      × (map_values restored file ≡ map_values restored p.entries))

persist-IsSaved :
    (p : PendingPool) (file : Map Text PendingEntry) → p.file ≡ some file → IsSaved (persist p)
unfolding persist
persist-IsSaved p file h = (p.entries, (rw h refl, refl))

restored_twice :
    (m : Map Text PendingEntry)
    → map_values restored m ≡ map_values restored (map_values restored m)
restored_twice [] = refl
restored_twice ((k, e) ∷ m) = ap ((k, restored e) ∷◌) (restored_twice m)

open_pool-IsSaved : (file : Map Text PendingEntry) → IsSaved (open_pool file)
unfolding open_pool
open_pool-IsSaved file = (file, (refl, restored_twice file))

none_eligible :
    (now : ℕ) (m : Map Text PendingEntry)
    → length (map (λ (e : PendingEntry). e.request) (filterb (is_eligible now) (values m))) ≡ 0
    → map_values (λ (e : PendingEntry). if is_eligible now e then started e else e) m ≡ m
none_eligible now [] h = refl
none_eligible now ((k, e) ∷ m) h = ground (arith, none_eligible now m)

insert_saved :
    (now : ℕ) (request : PublishRequest) (p : PendingPool)
    → ((insert now request p).1 ≡ p)
      ⊎ ((q : PendingPool) × (((insert now request p).1 ≡ persist q) × (q.file ≡ p.file)))
unfolding insert
insert_saved now request p =
    elim (Bool-cases (is_duplicate request (lookup (canonical request.id) p.entries))) [
      | inl duplicate ↦ inl (rw duplicate refl)
      | inr other ↦ inr (with_request now request p, (rw other refl, refl))
    ]

remove_saved :
    (name : Text) (p : PendingPool)
    → ((remove name p).1 ≡ p)
      ⊎ ((q : PendingPool) × (((remove name p).1 ≡ persist q) × (q.file ≡ p.file)))
unfolding remove
remove_saved name p = elim (Option-cases (lookup name p.entries)) [
  | inl missing ↦ inl (rw (missing, remove) refl)
  | inr (e, found) ↦
      inr (record p { entries = Map.remove name p.entries }, (rw (found, remove) refl, refl))
]

sweep_saved :
    (now : ℕ) (p : PendingPool)
    → ((ready_for_validation now p).1 ≡ p)
      ⊎ ((q : PendingPool) × (((ready_for_validation now p).1 ≡ persist q) × (q.file ≡ p.file)))
unfolding ready_for_validation
sweep_saved now p =
    let requests =
      map (λ (e : PendingEntry). e.request) (filterb (is_eligible now) (values p.entries)) in
    elim (Bool-cases (nat_beq (length requests) 0)) [
      | inl idle ↦ inl (
          rw idle (
            ap (λ m. record { entries = m; file = p.file })
              (none_eligible now p.entries (ground arith))))
      | inr busy ↦ inr (sweep now p, (rw busy refl, refl))
    ]

IsSaved-step :
    (p after : PendingPool)
    → ((after ≡ p) ⊎ ((q : PendingPool) × ((after ≡ persist q) × (q.file ≡ p.file))))
    → IsSaved p
    → IsSaved after
IsSaved-step p after (inl same) s = subst IsSaved (sym same) s
IsSaved-step p after (inr (q, (written, file))) s =
    subst IsSaved (sym written) (persist-IsSaved q s.0 (file ∙ s.1.0))

apply-IsSaved : (c : Call) (p : PendingPool) → IsSaved p → IsSaved (apply c p)
unfolding apply
apply-IsSaved (inserted now request) p = IsSaved-step p _ (insert_saved now request p)
apply-IsSaved (removed name) p = IsSaved-step p _ (remove_saved name p)
apply-IsSaved (swept now) p = IsSaved-step p _ (sweep_saved now p)

apply_all-IsSaved : (cs : List Call) (p : PendingPool) → IsSaved p → IsSaved (apply_all cs p)
apply_all-IsSaved [] p s = s
apply_all-IsSaved (c ∷ cs) p s = apply_all-IsSaved cs (apply c p) (apply-IsSaved c p s)

-- After any calls on a pool that was opened from a file, opening the file that it has written gives
-- its entries again, none of them in progress.
pub reopen_restores :
    (file : Map Text PendingEntry) (cs : List Call)
    → (file' : Map Text PendingEntry) × (((apply_all cs (open_pool file)).file ≡ some file')
        × ((open_pool file').entries ≡ map_values restored (apply_all cs (open_pool file)).entries))
unfolding open_pool
reopen_restores file cs = apply_all-IsSaved cs (open_pool file) (open_pool-IsSaved file)
