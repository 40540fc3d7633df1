-- ===== src/Node/PendingPool/Sweep.antt =====
-- How often a submission is handed out: crates/node/src/pending_pool.rs.
use chain_registry_core.Prelude.{
  ℕ, suc, ◌+◌, ◌%◌, ◌^◌, ◌<◌, ◌≡◌, refl, ap, ◌∙◌, inl, inr, true, none, some, List, [], ◌∷◌, map,
  Text, text_eq, text_beq_iff, ltb, All, filterb, if◌then◌else◌, arith, ◌==◌, Bool-cases,
}
use chain_registry_core.Prelude.Count.{count}
use chain_registry_core.Prelude.Map.{
  Map, lookup, values, map_values, lookup-insert_self, insert-IsMap, insert-All, IsMap,
}
use chain_registry_core.Common.Package.{PublishRequest, canonical}
use chain_registry_core.Node.PendingPool.{
  PendingEntry, PendingPool, persist, new_entry, is_duplicate, insert, get, is_eligible, started,
  ready_for_validation,
}

-- Each package stands once, under its canonical name.
abbrev IsKeyed : Text × PendingEntry → Type 0
IsKeyed t = canonical t.1.request.id ≡ t.0

abbrev pub IsPool : PendingPool → Type 0
IsPool p = IsMap p.entries × All IsKeyed p.entries

-- How often a list of submissions names a package.
abbrev pub named : Text → List PublishRequest → ℕ
named name = count (λ (r : PublishRequest). canonical r.id == name)

-- Sweeps at the times, and how often they hand out a package.
abbrev pub sweep_all : List ℕ → PendingPool → PendingPool
sweep_all [] p = p
sweep_all (now ∷ later) p = sweep_all later (ready_for_validation now p).1

abbrev pub times_handed : Text → List ℕ → PendingPool → ℕ
times_handed name [] p = 0
times_handed name (now ∷ later) p =
    named name (ready_for_validation now p).0
    + times_handed name later (ready_for_validation now p).1

abbrev swept : ℕ → PendingEntry → PendingEntry
swept now e = if is_eligible now e then started e else e

lookup-map_values :
    (f : PendingEntry → PendingEntry) (k : Text) (m : Map Text PendingEntry)
    → lookup k (map_values f m) ≡ elim (lookup k m) [ none ↦ none | some e ↦ some (f e) ]
lookup-map_values f k [] = refl
lookup-map_values f k ((j, e) ∷ m) = ground (arith, lookup-map_values f k m)

map_values-IsMap :
    (f : PendingEntry → PendingEntry) (m : Map Text PendingEntry) → IsMap m → IsMap (map_values f m)
map_values-IsMap f [] h = tt
map_values-IsMap f ((k, e) ∷ m) h =
    (ground (arith, lookup-map_values f k m, h.0), map_values-IsMap f m h.1)

swept-IsKeyed :
    (now : ℕ) (m : Map Text PendingEntry) → All IsKeyed m → All IsKeyed (map_values (swept now) m)
swept-IsKeyed now [] h = tt
swept-IsKeyed now ((k, e) ∷ m) h = (ground (arith, h.0), swept-IsKeyed now m h.1)

ready_for_validation-IsPool :
    (now : ℕ) (p : PendingPool) → IsPool p → IsPool (ready_for_validation now p).1
unfolding ready_for_validation persist
ready_for_validation-IsPool now p h =
    let made : IsMap (map_values (swept now) p.entries)
        × All IsKeyed (map_values (swept now) p.entries) =
      (map_values-IsMap (swept now) p.entries h.0, swept-IsKeyed now p.entries h.1) in
    ground (arith, made)

insert-IsPool :
    (now : ℕ) (request : PublishRequest) (p : PendingPool)
    → IsPool p
    → (insert now request p).0 ≡ true
    → IsPool (insert now request p).1
      × (lookup (canonical request.id) (insert now request p).1.entries
          ≡ some (new_entry now request))
unfolding insert persist
insert-IsPool now request p h accepted =
    elim (Bool-cases (is_duplicate request (lookup (canonical request.id) p.entries))) [
      | inl duplicate ↦ absurd (ground (arith, accepted, duplicate))
      | inr other ↦ rw other (
        (
          insert-IsMap (canonical request.id) (new_entry now request) p.entries h.0,
          insert-All IsKeyed (canonical request.id) (new_entry now request) p.entries refl h.1,
        ),
        lookup-insert_self (canonical request.id) (new_entry now request) p.entries,
      )
    ]

-- A sweep hands out a package once if it is eligible, and not otherwise.
named_once :
    (now : ℕ) (k : Text) (m : Map Text PendingEntry)
    → IsMap m
    → All IsKeyed m
    → named k (map (λ (e : PendingEntry). e.request) (filterb (is_eligible now) (values m)))
      ≡ elim (lookup k m) [ none ↦ 0 | some e ↦ if is_eligible now e then 1 else 0 ]
named_once now k [] once keyed = refl
named_once now k ((j, e) ∷ m) once keyed = elim (Bool-cases (k == j)) [
  | inl hit ↦
      let same : k ≡ j = (text_beq_iff k j).0 hit in
      let alone : lookup k m ≡ none = ap (λ i. lookup i m) same ∙ once.0 in
      ground (
        arith,
        named_once now k m once.1 keyed.1,
        alone,
        keyed.0,
        text_beq_iff (canonical e.request.id) k,
      )
  | inr miss ↦ ground (
    arith,
    named_once now k m once.1 keyed.1,
    keyed.0,
    text_beq_iff (canonical e.request.id) k,
    text_beq_iff k j,
  )
]

swept_once :
    (now : ℕ) (k : Text) (p : PendingPool) (e : PendingEntry)
    → IsPool p
    → lookup k p.entries ≡ some e
    → (named k (ready_for_validation now p).0 ≡ (if is_eligible now e then 1 else 0))
      × (lookup k (ready_for_validation now p).1.entries ≡ some (swept now e))
unfolding ready_for_validation persist
swept_once now k p e h found = (
  ground (arith, named_once now k p.entries h.0 h.1, found),
  ground (arith, lookup-map_values (swept now) k p.entries, found),
)

-- An entry in progress is handed out by the sweeps that come more than five minutes after it was
-- received, and each counts as an attempt.
started_again :
    (later : List ℕ) (k : Text) (p : PendingPool) (e : PendingEntry)
    → IsPool p
    → lookup k p.entries ≡ some e
    → e.in_progress ≡ true
    → e.attempt_count < 2 ^ 32
    → (times_handed k later p ≡ count (ltb (e.received_at + 300)) later)
      × ((last : PendingEntry) × (lookup k (sweep_all later p).entries ≡ some last)
          × (last.request ≡ e.request)
          × (last.attempt_count
              ≡ (e.attempt_count + count (ltb (e.received_at + 300)) later) % 2 ^ 32))
unfolding is_eligible
started_again [] k p e h found busy small = (refl, (e, found, refl, omega (arith, small)))
started_again (now ∷ later) k p e h found busy small =
    let (once, after) = swept_once now k p e h found in
    let next = ready_for_validation-IsPool now p h in
    elim (Bool-cases (ltb (e.received_at + 300) now)) [
      | inl late ↦
          let here : lookup k (ready_for_validation now p).1.entries ≡ some (started e) =
            ground (arith, after, late) in
          let (times, (last, at, same, attempts)) =
            started_again later k (ready_for_validation now p).1 (started e) next here refl
              (omega arith) in
          (ground (arith, once, times, late), (last, at, same, ground (arith, attempts, late)))
      | inr early ↦
          let here : lookup k (ready_for_validation now p).1.entries ≡ some e =
            ground (arith, after, early, busy) in
          let (times, (last, at, same, attempts)) =
            started_again later k (ready_for_validation now p).1 e next here busy small in
          (
            ground (arith, once, times, early, busy),
            (last, at, same, ground (arith, attempts, early)),
          )
    ]

-- A submission that a pool accepts is handed out by the first sweep and then by every sweep that
-- comes more than five minutes after it was received, also while it is in progress, and by no other;
-- after these sweeps it is pending with as many attempts, modulo 2^32.
pub handed_out_again :
    (received first_sweep : ℕ) (later : List ℕ) (request : PublishRequest) (p : PendingPool)
    → IsPool p
    → (insert received request p).0 ≡ true
    → (times_handed (canonical request.id) (first_sweep ∷ later) (insert received request p).1
        ≡ suc (count (ltb (received + 300)) later))
      × ((last : PendingEntry) × (get
              (canonical request.id)
              (sweep_all (first_sweep ∷ later) (insert received request p).1)
            ≡ some last)
          × (last.request ≡ request)
          × (last.attempt_count ≡ suc (count (ltb (received + 300)) later) % 2 ^ 32))
unfolding is_eligible get
handed_out_again received first_sweep later request p h accepted =
    let (pool, found) = insert-IsPool received request p h accepted in
    let fresh = new_entry received request in
    let name = canonical request.id in
    let (once, after) =
      swept_once first_sweep name (insert received request p).1 fresh pool found in
    let (times, (last, at, same, attempts)) =
      started_again later name (ready_for_validation first_sweep (insert received request p).1).1
        (started fresh) (ready_for_validation-IsPool first_sweep (insert received request p).1 pool)
        after refl (omega arith) in
    (ground (arith, once, times), (last, at, same, attempts ∙ omega arith))
