-- ===== src/Node/History/InForce.antt =====
-- The set that was recorded last is in force from its height on:
-- crates/node/src/validator_set_history.rs.
use chain_registry_core.Prelude.{
  ℕ, zero, suc, ◌-◌, ◌≤◌, ◌≡◌, refl, ap, ◌∙◌, inl, inr, true, false, not, Option, none, some, List,
  [], ◌∷◌, ◌++◌, Text, text_eq, text_beq_iff, text_leb, nat_beq, length, length-map, filterb, drop,
  arith, Bool-cases,
}
use chain_registry_core.Prelude.Sort.{sort_by, length-sort_by, sort_by-IsSorted}
use chain_registry_core.Consensus.ValidatorSet.{Validator}
use chain_registry_core.Node.History.{
  ValidatorSetSnapshot, max_snapshots, is_before, load, membership_key, keys_beq,
  is_same_membership, latest_of, select_at, is_nil, set_of, set_at, last, with_snapshot,
  is_unchanged, record_set,
}
use chain_registry_core.Node.History.Latest.{
  Snapshots, Until, EndsWith, latest_of-EndsWith, filterb-Until, sort_by-EndsWith, All-last,
  sorted-EndsWith, Until-before, sort_by-Until, with_snapshot-EndsWith,
}

keys_beq_refl : (ks : List Text) → keys_beq ks ks ≡ true
keys_beq_refl [] = refl
keys_beq_refl (k ∷ ks) = ground (arith, keys_beq_refl ks, text_beq_iff k k)

length-keys_beq : (js ks : List Text) → keys_beq js ks ≡ true → length js ≡ length ks
length-keys_beq [] [] h = refl
length-keys_beq [] (k ∷ ks) h = ground arith
length-keys_beq (j ∷ js) [] h = ground arith
length-keys_beq (j ∷ js) (k ∷ ks) h = ground (arith, length-keys_beq js ks)

length-membership_key : (vs : List Validator) → length (membership_key vs) ≡ length vs
unfolding membership_key
length-membership_key vs = length-sort_by text_leb _ ∙ length-map _ vs

-- The set of the latest snapshot of a file, at any height from the snapshot's on.
set_at-EndsWith :
    (n : ValidatorSetSnapshot) (file : Snapshots) (height : ℕ)
    → EndsWith n (load file)
    → n.effective_from_height ≤ height
    → set_at file height ≡ set_of (some n)
unfolding set_at select_at
set_at-EndsWith n file height e h =
    ap (λ ss. set_of (latest_of ss))
      (filterb-Until height (load file) (Until-before n height (load file) e.1 h))
    ∙ ap set_of (latest_of-EndsWith n (load file) e)

not_nil :
    (a b : List Validator) → is_same_membership a b ≡ true → is_nil b ≡ false → is_nil a ≡ false
not_nil a b same h = ground (
  arith,
  length-keys_beq (membership_key a) (membership_key b),
  length-membership_key a,
  length-membership_key b,
)

before_trans :
    (a b c : ValidatorSetSnapshot)
    → is_before a b ≡ true
    → is_before b c ≡ true
    → is_before a c ≡ true
before_trans a b c h k = ground arith

before_total : (a b : ValidatorSetSnapshot) → is_before a b ≡ false → is_before b a ≡ true
before_total a b h = ground arith

load-EndsWith :
    (n : ValidatorSetSnapshot) (file : Snapshots)
    → last (load file) ≡ some n
    → EndsWith n (load file)
unfolding load
load-EndsWith n file e =
    sorted-EndsWith n (load file) (sort_by-IsSorted is_before before_total before_trans file) e

load_again-EndsWith :
    (n : ValidatorSetSnapshot) (file : Snapshots) → EndsWith n file → EndsWith n (load file)
unfolding load
load_again-EndsWith = sort_by-EndsWith

load-Until : (height : ℕ) (file : Snapshots) → Until height file → Until height (load file)
unfolding load
load-Until = sort_by-Until

unchanged_last :
    (set : List Validator) (found : Option ValidatorSetSnapshot)
    → is_unchanged set found ≡ true
    → (n : ValidatorSetSnapshot) × ((found ≡ some n) × (is_same_membership n.validators set ≡ true))
unchanged_last set none h = absurd (ground (arith, h))
unchanged_last set (some n) h = (n, (refl, h))

record_set-unchanged :
    (file : Snapshots) (from : ℕ) (set : List Validator)
    → is_unchanged set (last (load file)) ≡ true
    → record_set from set file ≡ file
unfolding record_set
record_set-unchanged file from set h = ground arith

record_set-changed :
    (file : Snapshots) (from : ℕ) (set : List Validator)
    → is_nil set ≡ false
    → is_unchanged set (last (load file)) ≡ false
    → record_set from set file
      ≡ with_snapshot (record { effective_from_height = from; validators = set }) (load file)
unfolding record_set
record_set-changed file from set h k = ground arith

-- A set that is recorded for a height no earlier than any in the file is in force from that height
-- on, up to the order and the spelling of its members' keys and their other data.
pub recorded_set_in_force :
    (file : List ValidatorSetSnapshot) (from height : ℕ) (set : List Validator)
    → is_nil set ≡ false
    → Until from file
    → from ≤ height
    → (s : List Validator) × (set_at (record_set from set file) height ≡ some s)
      × (is_same_membership s set ≡ true)
recorded_set_in_force file from height set some_members until le =
    elim (Bool-cases (is_unchanged set (last (load file)))) [
      | inl same ↦
          let (n, (at_end, members)) = unchanged_last set (last (load file)) same in
          let ends : EndsWith n (load file) = load-EndsWith n file at_end in
          let early : n.effective_from_height ≤ height = omega (
            arith,
            le,
            All-last (λ s. s.effective_from_height ≤ from) n (load file)
                (load-Until from file until) at_end,
          ) in
          (
            n.validators,
            ap (λ f. set_at f height) (record_set-unchanged file from set same)
                ∙ set_at-EndsWith n file height ends early
                ∙ rw (not_nil n.validators set members some_members),
            members,
          )
      | inr changed ↦
          let n : ValidatorSetSnapshot = record {
            effective_from_height = from;
            validators = set;
          } in
          (
            set,
            ap (λ f. set_at f height) (record_set-changed file from set some_members changed)
                ∙ set_at-EndsWith n (with_snapshot n (load file)) height
                    (load_again-EndsWith n (with_snapshot n (load file))
                      (with_snapshot-EndsWith n (load file) (load-Until from file until)))
                    le
                ∙ rw some_members,
            keys_beq_refl (membership_key set),
          )
    ]

length-drop : (k : ℕ) (ss : Snapshots) → length (drop k ss) ≡ length ss - k
length-drop zero ss = omega arith
length-drop (suc k) [] = omega arith
length-drop (suc k) (s ∷ ss) = omega (arith, length-drop k ss)

with_snapshot_bounded :
    (n : ValidatorSetSnapshot) (ss : Snapshots) → length (with_snapshot n ss) ≤ max_snapshots
unfolding with_snapshot
with_snapshot_bounded n ss =
    let ordered = sort_by is_before (
      filterb
        (λ (s : ValidatorSetSnapshot).
          not (nat_beq s.effective_from_height n.effective_from_height))
        ss
      ++ n ∷ []) in
    ground (arith, length-drop (length ordered - max_snapshots) ordered)

-- A file of at most 512 snapshots stays one, whatever is recorded.
record_set_bounded :
    (file : List ValidatorSetSnapshot) (from : ℕ) (set : List Validator)
    → length file ≤ max_snapshots
    → length (record_set from set file) ≤ max_snapshots
unfolding record_set
record_set_bounded file from set h = ground (
  arith,
  with_snapshot_bounded (record { effective_from_height = from; validators = set }) (load file),
)
