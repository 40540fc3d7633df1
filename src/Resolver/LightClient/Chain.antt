-- ===== src/Resolver/LightClient/Chain.antt =====
-- crates/resolver/src/light_client.rs: a header chain from a checkpoint is fixed by its last hash.
use chain_registry_core.Prelude.{
  ℕ, suc, ◌+◌, ◌%◌, ◌^◌, ◌<◌, Bool, true, false, Option, none, some, List, [], ◌∷◌, Text, text_eq,
  text_beq_iff, nat_eq, nat_beq_iff, length, Result, ok, err, ◌>>=◌, ◌>>◌, ◌≡◌, ◌⊎◌, inl, inr, refl,
  sym, ◌∙◌, ap, arith,
}
use chain_registry_core.Common.Block.{BlockHeader}
use chain_registry_core.Common.External.{External}
use chain_registry_core.Common.Collision.{Collision, same_or_Collision}
use chain_registry_core.Resolver.LightClient.{
  LightError, Checkpoint, ensure, verify_header, verify_link, verify_links, verify_header_chain,
  last,
}

pub ensure-ok : (b : Bool) (e : LightError) → ensure b e ≡ ok tt → b ≡ true
ensure-ok true e h = refl
ensure-ok false e h = ground (arith, h)

pub then-ok :
    {B : Type 0} (m : Result LightError (Unit {0})) (k : Result LightError B) (b : B)
    → m >> k ≡ ok b
    → (m ≡ ok tt) × (k ≡ ok b)
then-ok (ok a) k b h = (refl, h)
then-ok (err e) k b h = ground (arith, h)

pub bind-ok :
    {A B : Type 0} (m : Result LightError A) (f : A → Result LightError B) (b : B)
    → m >>= f ≡ ok b
    → (a : A) × (m ≡ ok a) × (f a ≡ ok b)
bind-ok (ok a) f b h = (a, refl, h)
bind-ok (err e) f b h = ground (arith, h)

abbrev pub last_hash : Option (BlockHeader × Text) → Option Text
last_hash none = none
last_hash (some (header, hash)) = some hash

module _ (x : External) where
  open x use {sha256_hex, header_json}

  pub verify_header-ok :
      (header : BlockHeader) (hash : Text) (height : ℕ)
      → verify_header x header hash height ≡ ok tt
      → (sha256_hex (header_json header) ≡ hash) × (header.height ≡ height)
  unfolding verify_header
  verify_header-ok header hash height h =
      let parts = then-ok _ _ tt h in
      ((text_beq_iff _ _).0 (ensure-ok _ _ parts.0), (nat_beq_iff _ _).0 (ensure-ok _ _ parts.1))

  -- What an accepted header shows of itself and of the one before it.
  pub verify_link-ok :
      (height : ℕ) (prev : Text) (header : BlockHeader) (hash : Text)
      → verify_link x height prev header hash ≡ ok tt
      → (sha256_hex (header_json header) ≡ hash)
        × (header.height ≡ (height + 1) % 2 ^ 64)
        × (header.prev_hash ≡ prev)
  unfolding verify_link
  verify_link-ok height prev header hash h =
      let parts = then-ok _ _ tt h in
      let own = verify_header-ok header hash ((height + 1) % 2 ^ 64) parts.0 in
      (own.0, own.1, (text_beq_iff _ _).0 (ensure-ok _ _ parts.1))

  module _ (json : (h k : BlockHeader) → header_json h ≡ header_json k → h ≡ k) where
    -- Equal hashes are those of equal headers, or two texts have one hash.
    hashed_once :
        (h k : BlockHeader) (a b : Text)
        → sha256_hex (header_json h) ≡ a
        → sha256_hex (header_json k) ≡ b
        → a ≡ b
        → (h ≡ k) ⊎ Collision x
    hashed_once h k a b ha kb e = elim (same_or_Collision x _ _ (ha ∙ e ∙ sym kb)) [
      | inl same ↦ inl (json h k same)
      | inr c ↦ inr c
    ]

    link_unique :
        (m n : ℕ) (p q : Text) (h k : BlockHeader) (a b : Text)
        → verify_link x m p h a ≡ ok tt
        → verify_link x n q k b ≡ ok tt
        → a ≡ b
        → ((h ≡ k) × (p ≡ q)) ⊎ Collision x
    link_unique m n p q h k a b ht hu e =
        let left = verify_link-ok m p h a ht in
        let right = verify_link-ok n q k b hu in
        elim (hashed_once h k a b left.0 right.0 e) [
          | inr c ↦ inr c
          | inl same ↦ inl (same, sym left.2 ∙ ap (λ c. c.prev_hash) same ∙ right.2)
        ]

    -- Two accepted chains of one length that end in one hash are the same, from one hash on.
    verify_links_unique :
        (m n : ℕ) (p q : Text) (t u : BlockHeader × Text) (ts us : List (BlockHeader × Text))
        → verify_links x m p (t ∷ ts) ≡ ok tt
        → verify_links x n q (u ∷ us) ≡ ok tt
        → length ts ≡ length us
        → last_hash (last (t ∷ ts)) ≡ last_hash (last (u ∷ us))
        → ((t ∷ ts ≡ u ∷ us) × (p ≡ q)) ⊎ Collision x
    unfolding verify_links
    verify_links_unique m n p q (h, a) (k, b) [] [] ht hu same end =
        let e : a ≡ b = cc end in
        elim (link_unique m n p q h k a b (then-ok _ _ tt ht).0 (then-ok _ _ tt hu).0 e) [
          | inr c ↦ inr c
          | inl (heads, before) ↦ inl (cc (heads, e), before)
        ]
    verify_links_unique m n p q (h, a) (k, b) [] (u ∷ us) ht hu same end = ground (arith, same)
    verify_links_unique m n p q (h, a) (k, b) (t ∷ ts) [] ht hu same end = ground (arith, same)
    verify_links_unique m n p q (h, a) (k, b) (t ∷ ts) (u ∷ us) ht hu same end =
        elim (verify_links_unique h.height k.height a b t u ts us (then-ok _ _ tt ht).1
          (then-ok _ _ tt hu).1 (omega (arith, same)) end) [
            | inr c ↦ inr c
            | inl (tails, e) ↦
                elim (link_unique m n p q h k a b (then-ok _ _ tt ht).0 (then-ok _ _ tt hu).0 e) [
                  | inr c ↦ inr c
                  | inl (heads, before) ↦ inl (cc (tails, heads, e), before)
                ]
          ]

  -- The last of the accepted headers, with its hash and its height.
  last-ok :
      (m : ℕ) (p : Text) (t : BlockHeader × Text) (ts : List (BlockHeader × Text))
      → verify_links x m p (t ∷ ts) ≡ ok tt
      → (h : BlockHeader) × (a : Text) × (last (t ∷ ts) ≡ some (h, a))
        × (sha256_hex (header_json h) ≡ a)
        × (h.height ≡ (m + suc (length ts)) % 2 ^ 64)
  unfolding verify_links
  last-ok m p (h, a) [] ok_t =
      let own = verify_link-ok m p h a (then-ok _ _ tt ok_t).0 in (h, a, refl, own.0, own.1)
  last-ok m p (h, a) (t ∷ ts) ok_t =
      let own = verify_link-ok m p h a (then-ok (verify_link x m p h a) _ tt ok_t).0 in
      let (k, b, at, hashed, height) =
        last-ok h.height a t ts (then-ok (verify_link x m p h a) _ tt ok_t).1 in
      (k, b, at, hashed, omega (arith, height, own.1))

  -- Two header chains that are accepted from one checkpoint and end in one hash are the same, where
  -- neither is empty or has 2 ^ 64 headers, or two texts have one hash.
  pub verify_header_chain_unique :
      (json : (h k : BlockHeader) → header_json h ≡ header_json k → h ≡ k) (c : Checkpoint)
      (t u : BlockHeader × Text) (ts us : List (BlockHeader × Text))
      → verify_header_chain x (t ∷ ts) c ≡ ok tt
      → verify_header_chain x (u ∷ us) c ≡ ok tt
      → length (t ∷ ts) < 2 ^ 64
      → length (u ∷ us) < 2 ^ 64
      → last_hash (last (t ∷ ts)) ≡ last_hash (last (u ∷ us))
      → (t ∷ ts ≡ u ∷ us) ⊎ Collision x
  unfolding verify_header_chain
  verify_header_chain_unique json c t u ts us ht hu lt lu end =
      let (h, a, at_t, hashed_t, height_t) = last-ok c.height c.hash t ts ht in
      let (k, b, at_u, hashed_u, height_u) = last-ok c.height c.hash u us hu in
      let e : a ≡ b = cc (ap last_hash at_t, ap last_hash at_u, end) in
      elim (hashed_once json h k a b hashed_t hashed_u e) [
        | inr r ↦ inr r
        | inl same ↦
            let heights : h.height ≡ k.height = ap (λ g. g.height) same in
            elim (verify_links_unique json c.height c.height c.hash c.hash t u ts us ht hu
              (omega (arith, heights, height_t, height_u, lt, lu)) end) [
                | inl both ↦ inl both.0
                | inr r ↦ inr r
              ]
      ]
