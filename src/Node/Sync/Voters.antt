-- ===== src/Node/Sync/Voters.antt =====
-- crates/node/src/sync.rs: whose signatures are counted for a scanner profile.
use chain_registry_core.Prelude.{
  ℕ, ◌+◌, ◌≤◌, true, false, not, ◌&&◌, ◌||◌, some, List, [], ◌∷◌, Text, text_eq, text_beq,
  text_beq_iff, ◌==◌, if◌then◌else◌, length, All, All-map, get_elem?, leb, suc, ◌≡◌, inl, inr, refl,
  ◌∙◌, arith, Bool-cases,
}
use chain_registry_core.Prelude.Map.{Map, lookup, lookup-insert, values, IsMap, insert-IsMap}
use chain_registry_core.Prelude.Keys.{holds, Distinct}
use chain_registry_core.Common.Package.{ChainRecord, ValidatorSignature}
use chain_registry_core.Common.External.{External}
use chain_registry_core.Node.Signatures.{
  is_counted, voter, or_zero, bump, largest, is_signed, profile_of, group,
}

module _ (x : External) where
  -- The keys whose first eligible signature is a valid one on the profile.
  unfoldable pub voters :
      List Text → ChainRecord → Text → List ValidatorSignature → List Text → List Text
  voters known r p [] seen = []
  voters known r p (sig ∷ sigs) seen =
      let skip = not (is_counted known sig) || holds (voter sig) seen in
      let rest = voters known r p sigs (if skip then seen else voter sig ∷ seen) in
      if skip
      then rest
      else if is_signed x r sig && profile_of x sig == p
      then voter sig ∷ rest
      else rest

  counted :
      (p q : Text) (groups : Map Text ℕ) (key : Text) (rest : List Text)
      → or_zero (lookup p (bump q groups)) + length rest
        ≡ or_zero (lookup p groups) + length (if true && q == p then key ∷ rest else rest)
  counted p q groups key rest = ground (
    arith,
    lookup-insert q p (or_zero (lookup q groups) + 1) groups,
    text_beq_iff p q,
    text_beq_iff q p,
  )

  pub lookup-group :
      (p : Text) (known : List Text) (r : ChainRecord) (sigs : List ValidatorSignature)
      (groups : Map Text ℕ) (seen : List Text)
      → or_zero (lookup p (group x known r sigs groups seen))
        ≡ or_zero (lookup p groups) + length (voters known r p sigs seen)
  unfolding group voters
  lookup-group p known r [] groups seen = omega arith
  lookup-group p known r (sig ∷ sigs) groups seen =
      elim (Bool-cases (not (is_counted known sig) || holds (voter sig) seen)) [
        | inl skip ↦ rw skip (lookup-group p known r sigs groups seen)
        | inr look ↦ elim (Bool-cases (is_signed x r sig)) [
          | inr bad ↦ rw (look, bad) (lookup-group p known r sigs groups (voter sig ∷ seen))
          | inl good ↦
              rw (look, good)
                (lookup-group p known r sigs (bump (profile_of x sig) groups) (voter sig ∷ seen)
                  ∙ counted p (profile_of x sig) groups (voter sig)
                      (voters known r p sigs (voter sig ∷ seen)))
        ]
      ]

  -- The signature behind a key that is counted for a profile.
  abbrev pub IsVote : List Text → ChainRecord → Text → List ValidatorSignature → Text → Type 0
  IsVote known r p sigs key =
      (sig : ValidatorSignature) × (i : ℕ) × (get_elem? sigs i ≡ some sig)
      × (voter sig ≡ key)
      × (is_counted known sig ≡ true)
      × (is_signed x r sig ≡ true)
      × (profile_of x sig ≡ p)

  IsVote-cons :
      (known : List Text) (r : ChainRecord) (p : Text) (sig : ValidatorSignature)
      (sigs : List ValidatorSignature) (key : Text)
      → IsVote known r p sigs key
      → IsVote known r p (sig ∷ sigs) key
  IsVote-cons known r p sig sigs key (s, i, at, named, eligible, signed, same) =
      (s, suc i, at, named, eligible, signed, same)

  abbrev IsFresh : List Text → Text → Type 0
  IsFresh seen key = holds key seen ≡ false

  holds-IsFresh :
      (key : Text) (seen rest : List Text)
      → All (IsFresh (key ∷ seen)) rest
      → (holds key rest ≡ false) × All (IsFresh seen) rest
  holds-IsFresh key seen [] h = (refl, tt)
  holds-IsFresh key seen (k ∷ rest) h =
      let later = holds-IsFresh key seen rest h.1 in
      (
        ground (arith, h.0, later.0, text_beq_iff k key, text_beq_iff key k),
        (ground (arith, h.0), later.1),
      )

  -- The keys that are counted are distinct, none was seen before, and each has its signature.
  abbrev IsTally :
      List Text → ChainRecord → Text → List ValidatorSignature → List Text → List Text → Type 0
  IsTally known r p sigs seen keys =
      Distinct keys × All (IsFresh seen) keys × All (IsVote known r p sigs) keys

  IsTally-later :
      (known : List Text) (r : ChainRecord) (p : Text) (sig : ValidatorSignature)
      (sigs : List ValidatorSignature) (seen keys : List Text)
      → IsTally known r p sigs seen keys
      → IsTally known r p (sig ∷ sigs) seen keys
  IsTally-later known r p sig sigs seen keys h = (
    h.0,
    h.1,
    All-map (IsVote known r p sigs) (IsVote known r p (sig ∷ sigs)) (IsVote-cons known r p sig sigs)
        keys h.2,
  )

  pub voters-IsTally :
      (known : List Text) (r : ChainRecord) (p : Text) (sigs : List ValidatorSignature)
      (seen : List Text)
      → IsTally known r p sigs seen (voters known r p sigs seen)
  unfolding voters
  voters-IsTally known r p [] seen = (tt, tt, tt)
  voters-IsTally known r p (sig ∷ sigs) seen =
      elim (Bool-cases (not (is_counted known sig) || holds (voter sig) seen)) [
        | inl skip ↦
            rw skip (IsTally-later known r p sig sigs seen _ (voters-IsTally known r p sigs seen))
        | inr look ↦
            let key = voter sig in
            let rest = voters known r p sigs (key ∷ seen) in
            let tail =
              IsTally-later known r p sig sigs (key ∷ seen) rest
                (voters-IsTally known r p sigs (key ∷ seen)) in
            let (apart, fresh) = holds-IsFresh key seen rest tail.1 in
            let unseen : holds key seen ≡ false = ground (arith, look) in
            let eligible : is_counted known sig ≡ true = ground (arith, look) in
            elim (Bool-cases (is_signed x r sig && profile_of x sig == p)) [
              | inr other ↦ rw (look, other) (tail.0, fresh, tail.2)
              | inl hit ↦
                  let signed : is_signed x r sig ≡ true = ground (arith, hit) in
                  let same : text_beq (profile_of x sig) p ≡ true = ground (arith, hit) in
                  let vote : IsVote known r p (sig ∷ sigs) key =
                    (sig, 0, refl, refl, eligible, signed, (text_beq_iff _ _).0 same) in
                  rw (look, hit) ((apart, tail.0), (unseen, fresh), (vote, tail.2))
            ]
      ]

  pub group-IsMap :
      (known : List Text) (r : ChainRecord) (sigs : List ValidatorSignature) (groups : Map Text ℕ)
      (seen : List Text)
      → IsMap groups
      → IsMap (group x known r sigs groups seen)
  unfolding group
  group-IsMap known r [] groups seen h = h
  group-IsMap known r (sig ∷ sigs) groups seen h =
      elim (Bool-cases (not (is_counted known sig) || holds (voter sig) seen)) [
        | inl skip ↦ rw skip (group-IsMap known r sigs groups seen h)
        | inr look ↦ elim (Bool-cases (is_signed x r sig)) [
          | inr bad ↦ rw (look, bad) (group-IsMap known r sigs groups (voter sig ∷ seen) h)
          | inl good ↦
              rw (look, good)
                (group-IsMap known r sigs (bump (profile_of x sig) groups) (voter sig ∷ seen)
                  (insert-IsMap (profile_of x sig) _ groups h))
        ]
      ]

  pub largest-le-lookup :
      (m : Map Text ℕ) → IsMap m → (p : Text) × (largest (values m) ≤ or_zero (lookup p m))
  largest-le-lookup [] h = ([], omega arith)
  largest-le-lookup ((k, n) ∷ m) h =
      let (p, le) = largest-le-lookup m h.1 in
      elim (Bool-cases (leb (largest (values m)) n)) [
        | inl low ↦ (k, ground (arith, low, text_beq_iff k k))
        | inr high ↦ (p, ground (arith, high, le, h.0, text_beq_iff p k))
      ]
