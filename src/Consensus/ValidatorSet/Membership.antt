-- ===== src/Consensus/ValidatorSet/Membership.antt =====
-- Membership and the number of active validators: what consensus takes from a validator set.
use chain_registry_core.Prelude.{
  ◌≤◌, ◌≡◌, inl, inr, Bool, true, false, ◌&&◌, none, some, [], ◌∷◌, Text, text_eq, text_beq_iff,
  ◌==◌, Bool-cases, length, arith, All,
}
use chain_registry_core.Prelude.Map.{Map, lookup, contains_key, contains_key-lookup, IsMap}
use chain_registry_core.Prelude.Count.{count, count-and, count_mono, count-zero}
use native.Mathlib.Nat.{le_trans}
use chain_registry_core.Consensus.ValidatorSet.{
  ValidatorInfo, ValidatorSet, is_member, active_count,
}

abbrev pub Entry : Type 0
Entry = Text × ValidatorInfo

-- An entry that is active and whose id is a key of `m`.
abbrev pub votes_in {ℓ} : {V : Type ℓ} → Map Text V → Entry → Bool
votes_in m e = e.1.is_active && contains_key e.0 m

has_id : Text → Entry → Bool
has_id id e = e.1.is_active && (e.0 == id)

one-le-has_id :
    (id : Text) (m : Map Text ValidatorInfo)
    → elim (lookup id m) [ none ↦ false | some v ↦ v.is_active ] ≡ true
    → 1 ≤ count (has_id id) m
unfolding has_id
one-le-has_id id [] h = cc
one-le-has_id id ((j, v) ∷ m) h =
    ground (arith, one-le-has_id id m, text_beq_iff id j, text_beq_iff j id)

-- A set with a member has an active validator.
pub is_member-active_count :
    (id : Text) (s : ValidatorSet) → is_member id s ≡ true → 1 ≤ active_count s
unfolding is_member active_count has_id
is_member-active_count id s h =
    le_trans (one-le-has_id id s.validators h)
      (count_mono (has_id id) (λ e. e.1.is_active) (λ e k. ground arith) s.validators)

module _ {ℓ} {V : Type ℓ} where
  has_id-votes_in :
      (k : Text) (v : V) (m : Map Text V) (e : Entry)
      → has_id k e ≡ true
      → votes_in ((k, v) ∷ m) e ≡ true
  unfolding has_id
  has_id-votes_in k v m e h = ground (arith)

  votes_in-cons :
      (k : Text) (v : V) (m : Map Text V) (e : Entry)
      → votes_in m e ≡ true
      → votes_in ((k, v) ∷ m) e ≡ true
  votes_in-cons k v m e h = ground (arith)

  has_id_apart :
      (k : Text) (m : Map Text V) (e : Entry)
      → lookup k m ≡ none
      → has_id k e && votes_in m e ≡ false
  unfolding has_id
  has_id_apart k m e h = elim (Bool-cases (e.0 == k)) [
    | inl hit ↦
        let same : e.0 ≡ k = (text_beq_iff e.0 k).0 hit in
        rw (same, contains_key-lookup k m, h) (ground arith)
    | inr miss ↦ rw miss (ground arith)
  ]

  -- Distinct members are no more than the active entries that they name.
  pub members-le-count :
      (s : ValidatorSet) (m : Map Text V)
      → IsMap m
      → All (λ e. is_member e.0 s ≡ true) m
      → length m ≤ count (votes_in m) s.validators
  unfolding is_member
  members-le-count s [] h a = omega arith
  members-le-count s ((k, v) ∷ m) h a = omega (
    arith,
    one-le-has_id k s.validators a.0,
    members-le-count s m h.1 a.1,
    count-and (has_id k) (votes_in m) (votes_in ((k, v) ∷ m)) (has_id-votes_in k v m)
        (votes_in-cons k v m) s.validators,
    count-zero (λ e. has_id k e && votes_in m e) (λ e. has_id_apart k m e h.0) s.validators,
  )
