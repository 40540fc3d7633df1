-- ===== src/Node/History/Latest.antt =====
-- Lists of snapshots that end with a latest one:
-- crates/node/src/validator_set_history.rs.
use chain_registry_core.Prelude.{
  ℕ, zero, suc, ◌-◌, ◌≤◌, ◌<◌, ◌≡◌, refl, ap, subst, inl, inr, Bool, true, not, some, List, [], ◌∷◌,
  ◌++◌, text_eq, leb, ltb, nat_beq, if◌then◌else◌, length, filterb, drop, All, arith, Bool-cases,
}
use chain_registry_core.Prelude.Sort.{sort_by, insert_sorted, IsSorted}
use chain_registry_core.Node.History.{
  ValidatorSetSnapshot, max_snapshots, is_before, latest_from, latest_of, last, with_snapshot,
}

abbrev pub Snapshots : Type 0
Snapshots = List ValidatorSetSnapshot

abbrev pub Until : ℕ → Snapshots → Type 0
Until height = All (λ (s : ValidatorSetSnapshot). s.effective_from_height ≤ height)

-- A list that ends with a snapshot which is as late as any.
abbrev pub EndsWith : ValidatorSetSnapshot → Snapshots → Type 0
EndsWith n ss = (last ss ≡ some n) × All (λ (s : ValidatorSetSnapshot). is_before s n ≡ true) ss

latest_from-EndsWith :
    (n best : ValidatorSetSnapshot) (ss : Snapshots)
    → is_before best n ≡ true
    → EndsWith n ss
    → latest_from best ss ≡ n
latest_from-EndsWith n best [] h e = ground arith
latest_from-EndsWith n best (s ∷ []) h e = ground arith
latest_from-EndsWith n best (s ∷ t ∷ ss) h e =
    ground (arith, latest_from-EndsWith n (if is_before best s then s else best) (t ∷ ss))

pub latest_of-EndsWith :
    (n : ValidatorSetSnapshot) (ss : Snapshots) → EndsWith n ss → latest_of ss ≡ some n
latest_of-EndsWith n [] e = ground arith
latest_of-EndsWith n (s ∷ []) e = ground arith
latest_of-EndsWith n (s ∷ t ∷ ss) e = ap some (latest_from-EndsWith n s (t ∷ ss) e.1.0 (e.0, e.1.1))

pub filterb-Until :
    (height : ℕ) (ss : Snapshots)
    → Until height ss
    → filterb (λ (s : ValidatorSetSnapshot). leb s.effective_from_height height) ss ≡ ss
filterb-Until height [] u = refl
filterb-Until height (s ∷ ss) u = ground (arith, filterb-Until height ss u.1)

insert_sorted-EndsWith :
    (n s : ValidatorSetSnapshot) (ss : Snapshots)
    → is_before s n ≡ true
    → EndsWith n ss
    → EndsWith n (insert_sorted is_before s ss)
unfolding insert_sorted
insert_sorted-EndsWith n s [] h e = ground arith
insert_sorted-EndsWith n s (t ∷ []) h e = ground (arith)
insert_sorted-EndsWith n s (t ∷ u ∷ ss) h e = ground (arith, insert_sorted-EndsWith n s (u ∷ ss) h)

pub sort_by-EndsWith :
    (n : ValidatorSetSnapshot) (ss : Snapshots) → EndsWith n ss → EndsWith n (sort_by is_before ss)
unfolding sort_by insert_sorted
sort_by-EndsWith n [] e = e
sort_by-EndsWith n (s ∷ []) e = e
sort_by-EndsWith n (s ∷ t ∷ ss) e =
    insert_sorted-EndsWith n s (sort_by is_before (t ∷ ss)) e.1.0
      (sort_by-EndsWith n (t ∷ ss) (e.0, e.1.1))

drop-EndsWith :
    (n : ValidatorSetSnapshot) (k : ℕ) (ss : Snapshots)
    → k < length ss
    → EndsWith n ss
    → EndsWith n (drop k ss)
drop-EndsWith n zero ss h e = e
drop-EndsWith n (suc k) [] h e = e
drop-EndsWith n (suc k) (s ∷ []) h e = absurd (omega arith)
drop-EndsWith n (suc k) (s ∷ t ∷ ss) h e = drop-EndsWith n k (t ∷ ss) (omega arith) (e.0, e.1.1)

append-EndsWith :
    (n : ValidatorSetSnapshot) (ss : Snapshots)
    → Until n.effective_from_height ss
    → EndsWith n (ss ++ n ∷ [])
append-EndsWith n [] u = ground arith
append-EndsWith n (s ∷ []) u = ground arith
append-EndsWith n (s ∷ t ∷ ss) u = ground (arith, append-EndsWith n (t ∷ ss) u.1)

pub All-last :
    (P : ValidatorSetSnapshot → Type 0) (n : ValidatorSetSnapshot) (ss : Snapshots)
    → All P ss
    → last ss ≡ some n
    → P n
All-last P n [] a e = ground (arith, e)
All-last P n (s ∷ []) a e = subst P (ground (arith, e)) a.0
All-last P n (s ∷ t ∷ ss) a e = All-last P n (t ∷ ss) a.1 e

pub sorted-EndsWith :
    (n : ValidatorSetSnapshot) (ss : Snapshots)
    → IsSorted is_before ss
    → last ss ≡ some n
    → EndsWith n ss
sorted-EndsWith n [] s e = ground (arith, e)
sorted-EndsWith n (t ∷ []) s e = ground arith
sorted-EndsWith n (t ∷ u ∷ ss) s e = (
  e,
  (All-last (λ y. is_before t y ≡ true) n (u ∷ ss) s.0 e, (sorted-EndsWith n (u ∷ ss) s.1 e).1),
)

pub Until-before :
    (n : ValidatorSetSnapshot) (height : ℕ) (ss : Snapshots)
    → All (λ (s : ValidatorSetSnapshot). is_before s n ≡ true) ss
    → n.effective_from_height ≤ height
    → Until height ss
Until-before n height [] a h = tt
Until-before n height (t ∷ ts) a h = (ground (arith, a.0, h), Until-before n height ts a.1 h)

insert_sorted-Until :
    (height : ℕ) (s : ValidatorSetSnapshot) (ss : Snapshots)
    → s.effective_from_height ≤ height
    → Until height ss
    → Until height (insert_sorted is_before s ss)
unfolding insert_sorted
insert_sorted-Until height s [] h u = (h, tt)
insert_sorted-Until height s (t ∷ ss) h u = ground (arith, insert_sorted-Until height s ss h u.1)

pub sort_by-Until :
    (height : ℕ) (ss : Snapshots) → Until height ss → Until height (sort_by is_before ss)
unfolding sort_by
sort_by-Until height [] u = tt
sort_by-Until height (s ∷ ss) u =
    insert_sorted-Until height s (sort_by is_before ss) u.0 (sort_by-Until height ss u.1)

filterb_keeps-Until :
    (height : ℕ) (p : ValidatorSetSnapshot → Bool) (ss : Snapshots)
    → Until height ss
    → Until height (filterb p ss)
filterb_keeps-Until height p [] u = tt
filterb_keeps-Until height p (s ∷ ss) u = ground (arith, filterb_keeps-Until height p ss u.1)

pub with_snapshot-EndsWith :
    (n : ValidatorSetSnapshot) (ss : Snapshots)
    → Until n.effective_from_height ss
    → EndsWith n (with_snapshot n ss)
unfolding with_snapshot
with_snapshot-EndsWith n ss u =
    let others =
      filterb
        (λ (s : ValidatorSetSnapshot).
          not (nat_beq s.effective_from_height n.effective_from_height))
        ss in
    let ordered = sort_by is_before (others ++ n ∷ []) in
    let ends : EndsWith n ordered =
      sort_by-EndsWith n (others ++ n ∷ [])
        (append-EndsWith n others (filterb_keeps-Until n.effective_from_height _ ss u)) in
    elim (Bool-cases (ltb max_snapshots (length ordered))) [
      | inl long ↦
          rw long (drop-EndsWith n (length ordered - max_snapshots) ordered (ground arith) ends)
      | inr short ↦ rw short ends
    ]
