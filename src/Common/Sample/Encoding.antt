-- ===== src/Common/Sample/Encoding.antt =====
-- Functions that stand for the outside packages in tests where these must tell headers apart or make
-- hashes of 64 characters.
use chain_registry_core.Prelude.{
  ℕ, zero, suc, ◌≤◌, Option, none, some, [], ◌∷◌, ◌++◌, Text, length, take, length-append, ◌≡◌,
  refl, ap, arith,
}
use chain_registry_core.Common.Package.{canonical}
use chain_registry_core.Common.Block.{BlockHeader, Transaction, publish}
use chain_registry_core.Common.External.{External}
use chain_registry_core.Common.Sample.{sample}

abbrev zeros : ℕ → Text
zeros zero = []
zeros (suc n) = 48 ∷ zeros n

-- The first 64 characters, with zeros after a shorter text.
abbrev pub fixed : Text → Text
fixed t = take 64 (t ++ zeros 64)

length-take : (n : ℕ) (t : Text) → n ≤ length t → length (take n t) ≡ n
length-take zero t h = refl
length-take (suc n) [] h = ground arith
length-take (suc n) (a ∷ t) h = omega (arith, length-take n t (omega (arith, h)))

pub length-fixed : (t : Text) → length (fixed t) ≡ 64
length-fixed t = length-take 64 (t ++ zeros 64) (omega (arith, length-append t (zeros 64)))

-- A text after its length.
abbrev sized : Text → Text
sized t = length t ∷ t

abbrev sized_option : Option Text → Text
sized_option none = 0 ∷ []
sized_option (some t) = 1 ∷ sized t

abbrev after_prev_hash : BlockHeader → Text
after_prev_hash h =
    sized h.merkle_root
    ++ (sized h.proposer_id
        ++ (sized h.validator_set_hash
            ++ (sized_option h.vrf_output ++ (sized_option h.vrf_proof ++ []))))

abbrev pub header_fields : BlockHeader → Text
header_fields h = h.height ∷ h.timestamp ∷ (sized h.prev_hash ++ after_prev_hash h)

abbrev pub transaction_name : Transaction → Text
transaction_name (publish r) = canonical r.id
transaction_name tx = []

abbrev pub encoded : External
encoded = record sample {
  sha256_hex = fixed;
  header_json = header_fields;
  transaction_json = transaction_name;
}

prefix_cancel : (s t u v : Text) → length s ≡ length t → s ++ u ≡ t ++ v → (s ≡ t) × (u ≡ v)
prefix_cancel [] [] u v l h = (refl, h)
prefix_cancel [] (b ∷ t) u v l h = ground (arith, l)
prefix_cancel (a ∷ s) [] u v l h = ground (arith, l)
prefix_cancel (a ∷ s) (b ∷ t) u v l h =
    let rest = prefix_cancel s t u v (omega (arith, l)) (cc h) in (cc (h, rest.0), rest.1)

sized_cancel : (s t u v : Text) → sized s ++ u ≡ sized t ++ v → (s ≡ t) × (u ≡ v)
sized_cancel s t u v h = prefix_cancel s t u v (cc h) (cc h)

sized_option_cancel :
    (s t : Option Text) (u v : Text) → sized_option s ++ u ≡ sized_option t ++ v → (s ≡ t) × (u ≡ v)
sized_option_cancel none none u v h = (refl, cc h)
sized_option_cancel none (some t) u v h = ground (arith, h)
sized_option_cancel (some s) none u v h = ground (arith, h)
sized_option_cancel (some s) (some t) u v h =
    let rest = sized_cancel s t u v (cc h) in (ap some rest.0, rest.1)

pub header_fields_injective : (h k : BlockHeader) → header_fields h ≡ header_fields k → h ≡ k
header_fields_injective h k e =
    let height : h.height ≡ k.height = cc e in
    let timestamp : h.timestamp ≡ k.timestamp = cc e in
    let body : sized h.prev_hash ++ after_prev_hash h ≡ sized k.prev_hash ++ after_prev_hash k =
      cc e in
    let p = sized_cancel h.prev_hash k.prev_hash (after_prev_hash h) (after_prev_hash k) body in
    let m = sized_cancel h.merkle_root k.merkle_root _ _ p.1 in
    let q = sized_cancel h.proposer_id k.proposer_id _ _ m.1 in
    let s = sized_cancel h.validator_set_hash k.validator_set_hash _ _ q.1 in
    let o = sized_option_cancel h.vrf_output k.vrf_output _ _ s.1 in
    let r = sized_option_cancel h.vrf_proof k.vrf_proof [] [] o.1 in
    cc (height, timestamp, p.0, m.0, q.0, s.0, o.0, r.0)
