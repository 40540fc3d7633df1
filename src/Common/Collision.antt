-- ===== src/Common/Collision.antt =====
-- Collisions of SHA-256, which stands in crates/common/src/block.rs for the identity of a block and of
-- a transaction.
use chain_registry_core.Prelude.{
  Text, text_beq, text_beq_iff, ◌≡◌, ◌≢◌, ◌⊎◌, inl, inr, Bool-cases, arith,
}
use chain_registry_core.Common.External.{External}

module _ (x : External) where
  open x use {sha256_hex}

  -- Two texts with one hash.
  abbrev pub Collision : Type 0
  Collision = (s : Text) × (t : Text) × (s ≢ t) × (sha256_hex s ≡ sha256_hex t)

  pub same_or_Collision : (s t : Text) → sha256_hex s ≡ sha256_hex t → (s ≡ t) ⊎ Collision
  same_or_Collision s t h = elim (Bool-cases (text_beq s t)) [
    | inl e ↦ inl ((text_beq_iff s t).0 e)
    | inr e ↦ inr (s, t, λ same. ground (arith, text_beq_iff s t), h)
  ]
