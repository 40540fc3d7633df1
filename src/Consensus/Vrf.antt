-- ===== src/Consensus/Vrf.antt =====
-- crates/consensus/src/vrf.rs: which validators review a package, and who proposes a block.
pub mod Ranking
pub mod Primary
pub mod Committee
mod Tests
use chain_registry_core.Prelude.{
  ℕ, zero, suc, ◌+◌, ◌/◌, ◌%◌, Bool, true, false, ◌&&◌, not, Option, none, some, List, [], ◌∷◌,
  ◌++◌, map, Text, txt, text_beq, text_leb, ltb, nat_beq, if◌then◌else◌, length, get_elem?, take,
  Result, ok, err, ◌>>=◌, ◌>>◌,
}
use chain_registry_core.Prelude.Sort.{sort_by, min_by}
use chain_registry_core.Common.External.{External}

pub data VrfError : Type 0 where
  too_few_active bad_hex bad_seed invalid_key invalid_signature proof_failed : VrfError
  output_mismatch : VrfError

abbrev pub require : Bool → VrfError → Result VrfError (Unit {0})
require true e = ok tt
require false e = err e

abbrev pub or_error : {A : Type 0} → Option A → VrfError → Result VrfError A
or_error none e = err e
or_error (some a) e = ok a

decimal_from : ℕ → ℕ → Text → Text
decimal_from zero n acc = acc
decimal_from (suc fuel) n acc =
    let digit = (n % 10) + 48 in
    let rest = decimal_from fuel (n / 10) (digit ∷ acc) in if ltb n 10 then digit ∷ acc else rest

-- The decimal form of a number. Twenty digits are enough for a `u64`.
unfoldable pub decimal : ℕ → Text
unfolding decimal_from
decimal n = decimal_from 20 n []

-- `(0..n).collect()`
unfoldable pub indices : ℕ → List ℕ
indices zero = []
indices (suc n) = indices n ++ n ∷ []

-- `active_validators[i]` for each index that the shuffle put in front.
unfoldable pub pick : List Text → List ℕ → List Text
pick vs [] = []
pick vs (i ∷ is) = elim (get_elem? vs i) [ none ↦ pick vs is | some v ↦ v ∷ pick vs is ]

pub record VrfValidator : Type 0 where
  pub id : Text
  pub pubkey : Text
  pub vrf_output : Option Text
  pub vrf_proof : Option Text

-- The order by score alone, and by score and then id, of pairs of an id and a score.
abbrev pub score_leb : Text × Text → Text × Text → Bool
score_leb a b = text_leb a.1 b.1

abbrev pub score_id_leb : Text × Text → Text × Text → Bool
score_id_leb a b = if text_beq a.1 b.1 then text_leb a.0 b.0 else text_leb a.1 b.1

abbrev position : Text → List Text → Option ℕ
position id [] = none
position id (j ∷ js) =
    if text_beq j id then some 0 else elim (position id js) [ none ↦ none | some n ↦ some (suc n) ]

abbrev pub first_id : Option (Text × Text) → Option Text
first_id none = none
first_id (some (id, score)) = some id

module _ (x : External) where
  open x use {hex_decode, is_verifying_key, is_signature, ed25519_verify, sha256_hex}

  unfoldable pub seed_of : Option Text → ℕ → Text → Text
  unfolding decimal
  seed_of none height canonical = sha256_hex (decimal height ++ (txt ":" ++ canonical))
  seed_of (some output) height canonical =
      sha256_hex (output ++ (txt ":" ++ (decimal height ++ (txt ":" ++ canonical))))

  -- `shuffle` is `indices.shuffle(&mut StdRng::from_seed(seed))` of the `rand` crate.
  unfoldable pub select_validators :
      (Text → List ℕ → List ℕ)
      → List Text
      → Text
      → ℕ
      → ℕ
      → Option Text
      → Result VrfError (List Text)
  unfolding seed_of pick indices
  select_validators shuffle actives canonical height n vrf_output = do
    require (not (ltb (length actives) n)) too_few_active
    seed ← or_error (hex_decode (seed_of vrf_output height canonical)) bad_hex
    require (nat_beq (length seed) 32) bad_seed
    ok (pick actives (take n (shuffle seed (indices (length actives)))))

  unfoldable pub verify : Text → Text → Text → Text → Result VrfError (Unit {0})
  verify seed pubkey_hex output_hex proof_hex = do
    pk ← or_error (hex_decode pubkey_hex) bad_hex
    require (is_verifying_key pk) invalid_key
    sig ← or_error (hex_decode proof_hex) bad_hex
    require (is_signature sig) invalid_signature
    require (ed25519_verify pk seed sig) proof_failed
    require (text_beq (sha256_hex sig) output_hex) output_mismatch

  -- An id with its public score.
  unfoldable pub scored : Text → VrfValidator → Text × Text
  scored epoch_seed v = (v.id, sha256_hex (v.pubkey ++ (txt ":" ++ epoch_seed)))

  unfoldable pub select_proposer_deterministic : List VrfValidator → Text → Option Text
  unfolding scored
  select_proposer_deterministic vs epoch_seed =
      first_id (min_by score_leb (map (scored epoch_seed) vs))

  unfoldable pub rank_proposers : List VrfValidator → Text → List Text
  unfolding scored
  rank_proposers vs epoch_seed =
      map (λ (p : Text × Text). p.0) (sort_by score_id_leb (map (scored epoch_seed) vs))

  unfoldable pub proposer_rank : List VrfValidator → Text → Text → Option ℕ
  unfolding rank_proposers
  proposer_rank vs epoch_seed id = position id (rank_proposers vs epoch_seed)

  -- Both an output and a proof, which verifies.
  unfoldable pub has_valid_proof : Text → VrfValidator → Bool
  unfolding verify
  has_valid_proof epoch_seed v = elim v.vrf_output [
    | none ↦ false
    | some output ↦ elim v.vrf_proof [
      | none ↦ false
      | some proof ↦ elim (verify epoch_seed v.pubkey output proof) [ ok _ ↦ true | err _ ↦ false ]
    ]
  ]

  all_valid : Text → List VrfValidator → Bool
  all_valid epoch_seed [] = true
  all_valid epoch_seed (v ∷ vs) = has_valid_proof epoch_seed v && all_valid epoch_seed vs

  -- `filter_map` over the outputs that decode.
  vrf_scores : List VrfValidator → List (Text × Text)
  vrf_scores [] = []
  vrf_scores (v ∷ vs) =
      let rest = vrf_scores vs in
      elim v.vrf_output [
        | none ↦ rest
        | some output ↦ elim (hex_decode output) [
          | none ↦ rest
          | some bytes ↦ (v.id, sha256_hex bytes) ∷ rest
        ]
      ]

  unfoldable pub select_proposer : List VrfValidator → Text → Option Text
  unfolding all_valid vrf_scores has_valid_proof select_proposer_deterministic
  select_proposer [] epoch_seed = select_proposer_deterministic [] epoch_seed
  select_proposer (v ∷ vs) epoch_seed =
      if all_valid epoch_seed (v ∷ vs)
      then first_id (min_by score_leb (vrf_scores (v ∷ vs)))
      else select_proposer_deterministic (v ∷ vs) epoch_seed
