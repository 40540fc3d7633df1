-- ===== src/Resolver/Merkle/Sound.antt =====
-- crates/resolver/src/light_client.rs: what a proof that `verify` accepts shows, up to a collision of
-- SHA-256.
use chain_registry_core.Prelude.{
  ℕ, zero, suc, ◌/◌, Option, none, some, List, [], ◌∷◌, ◌++◌, Text, text_eq, length, length-append,
  get_elem?, ◌≡◌, ◌⊎◌, inl, inr, refl, ap, ◌∙◌, arith, Bool-cases,
}
use chain_registry_core.Common.External.{External}
use chain_registry_core.Common.Collision.{Collision, same_or_Collision}
use chain_registry_core.Common.Merkle.{padded, next_level, root_from}
use chain_registry_core.Resolver.Merkle.{MerkleStep, with_step, climb, walk, path_from}
use chain_registry_core.Resolver.Merkle.Pairs.{step_at}

pub append_cancel : (s t a b : Text) → s ++ t ≡ a ++ b → length s ≡ length a → (s ≡ a) × (t ≡ b)
append_cancel [] t [] b h k = (refl, h)
append_cancel [] t (y ∷ a) b h k = ground arith
append_cancel (y ∷ s) t [] b h k = ground arith
append_cancel (y ∷ s) t (z ∷ a) b h k =
    let rest = append_cancel s t a b (cc h) (omega (arith, k)) in (cc (h, rest.0), rest.1)

abbrev pub Holds : List Text → Text → Type 0
Holds level t = (i : ℕ) × (get_elem? level i ≡ some t)

module _ (x : External) where
  open x use {sha256_hex}

  -- A hash above a level is that of two hashes of the level.
  Holds-next_level :
      (level : List Text) (j : ℕ) (h : Text)
      → get_elem? (next_level x (padded level)) j ≡ some h
      → (a : Text) × (b : Text) × Holds level a × Holds level b × (h ≡ sha256_hex (a ++ b))
  unfolding next_level padded
  Holds-next_level [] j h at = ground arith
  Holds-next_level (a ∷ []) zero h at = (a, a, (0, refl), (0, refl), cc at)
  Holds-next_level (a ∷ []) (suc j) h at = ground arith
  Holds-next_level (a ∷ b ∷ level) zero h at = (a, b, (0, refl), (1, refl), cc at)
  Holds-next_level (a ∷ b ∷ level) (suc j) h at =
      let rest = Holds-next_level level j h at in
      (rest.0, rest.1, (suc (suc rest.2.0), rest.2.1), (suc (suc rest.3.0), rest.3.1), rest.4)

  -- What climbs to the hash of `a` and `b` is one of them.
  climb_down :
      (current a b : Text) (step : MerkleStep)
      → climb x current step ≡ sha256_hex (a ++ b)
      → length current ≡ length a
      → length current ≡ length b
      → (current ≡ a) ⊎ (current ≡ b) ⊎ Collision x
  climb_down current a b step h la lb = elim (Bool-cases step.is_right) [
    | inl right ↦
        let e : sha256_hex (current ++ step.sibling_hash) ≡ sha256_hex (a ++ b) = rw right at h in
        elim (same_or_Collision x _ _ e) [
          | inl same ↦ inl (append_cancel current step.sibling_hash a b same la).0
          | inr c ↦ inr (inr c)
        ]
    | inr left ↦
        let e : sha256_hex (step.sibling_hash ++ current) ≡ sha256_hex (a ++ b) = rw left at h in
        elim (same_or_Collision x _ _ e) [
          | inl same ↦ inr (
              inl
                (append_cancel step.sibling_hash current a b same (
                  omega (
                    arith,
                    lb,
                    ap length same,
                    length-append step.sibling_hash current,
                    length-append a b,
                  ))).1)
          | inr c ↦ inr (inr c)
        ]
  ]

  with_step-some :
      (i : ℕ) (s : Option Text) (rest : Option (List MerkleStep)) (path : List MerkleStep)
      → with_step i s rest ≡ some path
      → (tail : List MerkleStep) × (length path ≡ suc (length tail)) × (rest ≡ some tail)
  with_step-some i none rest path h = ground arith
  with_step-some i (some s) none path h = ground arith
  with_step-some i (some s) (some tail) path h =
      let e : path ≡ step_at i s ∷ tail = cc h in (tail, ap length e, refl)

  sized_above :
      (size : (t : Text) → length (sha256_hex t) ≡ 64) (level : List Text) (j : ℕ) (h : Text)
      → get_elem? (next_level x (padded level)) j ≡ some h
      → length h ≡ 64
  sized_above size level j h at =
      let pair = Holds-next_level level j h at in ap length pair.4 ∙ size (pair.0 ++ pair.1)

  climb_size :
      (size : (t : Text) → length (sha256_hex t) ≡ 64) (current : Text) (step : MerkleStep)
      → length (climb x current step) ≡ 64
  climb_size size current step = elim (Bool-cases step.is_right) [
    | inl e ↦ rw e (size (current ++ step.sibling_hash))
    | inr e ↦ rw e (size (step.sibling_hash ++ current))
  ]

  -- A walk to the root that is as long as a proof holds a hash of the level.
  pub Holds-walk :
      (size : (t : Text) → length (sha256_hex t) ≡ 64) (fuel : ℕ) (level : List Text) (i : ℕ)
      (honest path : List MerkleStep) (current root : Text)
      → ((j : ℕ) (h : Text) → get_elem? level j ≡ some h → length h ≡ 64)
      → path_from x fuel level i ≡ some honest
      → root_from x fuel level ≡ some root
      → length path ≡ length honest
      → walk x current path ≡ root
      → length current ≡ 64
      → Holds level current ⊎ Collision x
  unfolding path_from root_from walk padded next_level
  Holds-walk size zero level i honest path current root sized p r same w l = ground arith
  Holds-walk size (suc fuel) [] i honest path current root sized p r same w l = ground arith
  Holds-walk size (suc fuel) (a ∷ []) i honest [] current root sized p r same w l =
      inl (0, cc (r, w))
  Holds-walk size (suc fuel) (a ∷ []) i honest (step ∷ path) current root sized p r same w l =
      ground arith
  Holds-walk size (suc fuel) (a ∷ b ∷ level) i honest [] current root sized p r same w l =
      let last = with_step-some i _ _ honest p in ground (arith, last.1)
  Holds-walk size (suc fuel) (a ∷ b ∷ level) i honest (step ∷ path) current root sized p r same w
        l =
      let above = next_level x (padded (a ∷ b ∷ level)) in
      let tail = with_step-some i _ _ honest p in
      let higher =
        Holds-walk size fuel above (i / 2) tail.0 path (climb x current step) root
          (sized_above size (a ∷ b ∷ level)) tail.2 r (omega (arith, same, tail.1)) w
          (climb_size size current step) in
      elim higher [
        | inr c ↦ inr c
        | inl at ↦
            let pair = Holds-next_level (a ∷ b ∷ level) at.0 (climb x current step) at.1 in
            let down =
              climb_down current pair.0 pair.1 step pair.4
                (omega (arith, l, sized pair.2.0 pair.0 pair.2.1))
                (omega (arith, l, sized pair.3.0 pair.1 pair.3.1)) in
            elim down [
              | inl e ↦ inl (pair.2.0, cc (pair.2.1, e))
              | inr (inl e) ↦ inl (pair.3.0, cc (pair.3.1, e))
              | inr (inr c) ↦ inr c
            ]
      ]
