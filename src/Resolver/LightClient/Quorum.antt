-- ===== src/Resolver/LightClient/Quorum.antt =====
-- crates/resolver/src/light_client.rs: an accepted block has the signatures of a quorum.
use chain_registry_core.Prelude.{
  ℕ, ◌+◌, ◌*◌, ◌/◌, ◌≤◌, ◌<◌, Bool, true, false, not, ◌&&◌, ◌||◌, Option, none, some, List, [], ◌∷◌,
  map, Text, text_eq, text_beq_iff, nat_beq, ◌==◌, length, length-map, All, All-map, Result, ok,
  err, ◌>>◌, trim_start_0x, ◌≡◌, inl, inr, refl, sym, ◌∙◌, subst, ap, arith, Bool-cases,
  Option-cases,
}
use chain_registry_core.Prelude.Map.{Map, lookup, insert, lookup-insert}
use chain_registry_core.Prelude.Keys.{holds, Distinct, length-le-count, count-le-length}
use chain_registry_core.Prelude.Count.{count, count-and}
use chain_registry_core.Common.Block.{BlockHeader, BlockSignature}
use chain_registry_core.Common.External.{External}
use chain_registry_core.Consensus.ValidatorSet.{Validator}
use chain_registry_core.Resolver.LightClient.{
  LightError, ensure, found, clean, collect_keys, quorum_for, commit_message,
  check_commit_signature, set_hash_mismatch, empty_set, see, tally_signatures,
  compute_validator_set_hash, verify_pbft_consensus,
}
use chain_registry_core.Resolver.LightClient.Chain.{ensure-ok, then-ok, bind-ok}

abbrev pub ids : List Validator → List Text
ids vs = map (λ v. v.id) vs

found-ok : {A : Type 0} (o : Option A) (e : LightError) (a : A) → found o e ≡ ok a → o ≡ some a
found-ok none e a h = ground (arith, h)
found-ok (some b) e a h = cc h

ok-injective : {A : Type 0} (a b : A) → ◌≡◌ {A = Result LightError A} (ok a) (ok b) → a ≡ b
ok-injective {A} a b h = ap (λ (r : Result LightError A). elim r [ ok c ↦ c | err e ↦ a ]) h

quorum_for-false : (n : ℕ) → quorum_for false n ≡ 2 * n / 3 + 1
unfolding quorum_for
quorum_for-false n = ground arith

lookup-collect_keys :
    (id : Text) (vs : List Validator) (m : Map Text Text)
    → holds id (ids vs) ≡ false
    → lookup id (collect_keys vs m) ≡ lookup id m
unfolding collect_keys
lookup-collect_keys id [] m h = refl
lookup-collect_keys id (v ∷ vs) m h = ground (
  arith,
  h,
  lookup-collect_keys id vs (insert v.id (clean v.pubkey) m),
  lookup-insert v.id id (clean v.pubkey) m,
)

module _ (x : External) where
  open x use {hex_decode, is_verifying_key, is_signature, ed25519_verify}

  -- One of the validators, with a signature of the message under its key.
  abbrev pub IsSigned : List Validator → Text → Text → Type 0
  IsSigned vs message id =
      (key : Text) × (key_bytes : Text) × (signature : Text) × (holds id (ids vs) ≡ true)
      × (lookup id (collect_keys vs []) ≡ some key)
      × (hex_decode key ≡ some key_bytes)
      × (is_verifying_key key_bytes ≡ true)
      × (ed25519_verify key_bytes message signature ≡ true)

  check_commit_signature-ok :
      (key message signature : Text)
      → check_commit_signature x key message signature ≡ ok tt
      → (key_bytes : Text) × (bytes : Text) × (hex_decode key ≡ some key_bytes)
        × (is_verifying_key key_bytes ≡ true)
        × (ed25519_verify key_bytes message bytes ≡ true)
  unfolding check_commit_signature
  check_commit_signature-ok key message signature h =
      let (kb, key_found, rest) = bind-ok (found (hex_decode key) _) _ tt h in
      let after_key = then-ok (ensure (is_verifying_key kb) _) _ tt rest in
      let (sb, sig_found, last) =
        bind-ok (found (hex_decode (trim_start_0x signature)) _) _ tt after_key.1 in
      let parts = then-ok (ensure (is_signature sb) _) _ tt last in
      (kb, sb, found-ok _ _ kb key_found, ensure-ok _ _ after_key.0, ensure-ok _ _ parts.1)

  IsSigned-key :
      (vs : List Validator) (message id key : Text)
      → lookup id (collect_keys vs []) ≡ some key
      → (signature : Text) → check_commit_signature x key message signature ≡ ok tt
      → IsSigned vs message id
  IsSigned-key vs message id key at signature h =
      let (kb, sb, decoded, valid, signed) = check_commit_signature-ok key message signature h in
      elim (Bool-cases (holds id (ids vs))) [
        | inl member ↦ (key, kb, sb, member, at, decoded, valid, signed)
        | inr other ↦
            let bad : none ≡ some key = sym (lookup-collect_keys id vs [] other) ∙ at in
            ground (arith, bad)
      ]

  abbrev IsQuorate : List Validator → Text → List Text → Type 0
  IsQuorate vs message seen = Distinct seen × All (IsSigned vs message) seen

  see-IsQuorate :
      (vs : List Validator) (message : Text) (sig : BlockSignature) (seen after : List Text)
      → see x message sig seen (lookup sig.validator_id (collect_keys vs [])) ≡ ok after
      → IsQuorate vs message seen
      → IsQuorate vs message after
  see-IsQuorate vs message sig seen after h q =
      elim (Option-cases (lookup sig.validator_id (collect_keys vs []))) [
        | inl missing ↦
            let e : ok seen ≡ ok after = rw missing at h in
            subst (IsQuorate vs message) (ok-injective seen after e) q
        | inr (key, at) ↦
            let e : see x message sig seen (some key) ≡ ok after = rw at at h in
            elim (Bool-cases (not (clean sig.pubkey == key) || holds sig.validator_id seen)) [
              | inl skip ↦
                  let same : ok seen ≡ ok after = rw skip at e in
                  subst (IsQuorate vs message) (ok-injective seen after same) q
              | inr fresh ↦
                  let checked : check_commit_signature x key message sig.signature
                        >> ok (sig.validator_id ∷ seen)
                      ≡ ok after =
                    rw fresh at e in
                  let parts =
                    then-ok (check_commit_signature x key message sig.signature) _ after checked in
                  let unseen : holds sig.validator_id seen ≡ false = ground (arith, fresh) in
                  subst (IsQuorate vs message)
                    (ok-injective (sig.validator_id ∷ seen) after parts.1)
                    (
                      (unseen, q.0),
                      (IsSigned-key vs message sig.validator_id key at sig.signature parts.0, q.1),
                    )
            ]
      ]

  tally_signatures-IsQuorate :
      (vs : List Validator) (message : Text) (sigs : List BlockSignature) (seen after : List Text)
      → tally_signatures x (collect_keys vs []) message sigs seen ≡ ok after
      → IsQuorate vs message seen
      → IsQuorate vs message after
  unfolding tally_signatures
  tally_signatures-IsQuorate vs message [] seen after h q =
      subst (IsQuorate vs message) (ok-injective seen after h) q
  tally_signatures-IsQuorate vs message (sig ∷ sigs) seen after h q =
      let (next, seen_next, rest) = bind-ok (see x message sig seen _) _ after h in
      tally_signatures-IsQuorate vs message sigs next after rest
        (see-IsQuorate vs message sig seen next seen_next q)

  -- A block that is accepted names the set of the validators, and distinct validators of it, as many
  -- as a quorum, signed its commit message.
  pub verify_pbft_consensus_sound :
      (small : Bool) (hash : Text) (header : BlockHeader) (vs : List Validator)
      (sigs : List BlockSignature)
      → verify_pbft_consensus x small hash header vs sigs ≡ ok tt
      → (header.validator_set_hash ≡ compute_validator_set_hash x vs)
        × ((signers : List Text) × Distinct signers
            × (quorum_for small (length vs) ≤ length signers)
            × All (IsSigned vs (commit_message hash)) signers)
  unfolding verify_pbft_consensus
  verify_pbft_consensus_sound small hash header vs sigs h =
      let outer =
        then-ok
          (ensure (compute_validator_set_hash x vs == header.validator_set_hash) set_hash_mismatch
            >> ensure (not (nat_beq (length vs) 0)) empty_set)
          _ tt h in
      let set =
        then-ok
          (ensure (compute_validator_set_hash x vs == header.validator_set_hash) set_hash_mismatch)
          _ tt outer.0 in
      let (signers, tallied, enough) =
        bind-ok (tally_signatures x (collect_keys vs []) (commit_message hash) sigs []) _ tt
          outer.1 in
      let (one, signed) =
        tally_signatures-IsQuorate vs (commit_message hash) sigs [] signers tallied (tt, tt) in
      let size : quorum_for small (length vs) ≤ length signers =
        ground (arith, ensure-ok _ _ enough) in
      (sym ((text_beq_iff _ _).0 (ensure-ok _ _ set.0)), (signers, one, size, signed))

  overlap :
      (vs : List Validator) (a b : Text) (s t : List Text)
      → Distinct s
      → Distinct t
      → All (IsSigned vs a) s
      → All (IsSigned vs b) t
      → quorum_for false (length vs) ≤ length s
      → quorum_for false (length vs) ≤ length t
      → length vs < 3 * count (λ id. holds id s && holds id t) (ids vs)
  overlap vs a b s t s_one t_one s_signed t_signed s_size t_size =
      let quorum : quorum_for false (length vs) ≡ 2 * length vs / 3 + 1 =
        quorum_for-false (length vs) in
      omega (
        arith,
        s_size,
        t_size,
        quorum,
        length-le-count s (ids vs) s_one (All-map (IsSigned vs a) _ (λ id h. h.3) s s_signed),
        length-le-count t (ids vs) t_one (All-map (IsSigned vs b) _ (λ id h. h.3) t t_signed),
        count-and (λ id. holds id s) (λ id. holds id t) (λ id. true) (λ id h. refl) (λ id h. refl)
            (ids vs),
        count-le-length (λ id. true) (ids vs),
        length-map (λ (v : Validator). v.id) vs,
      )

  -- Where two blocks are accepted for the same validators, without the small quorum, more than a third
  -- of the entries of the list have an id that signed both.
  pub verify_pbft_consensus_overlap :
      (a b : Text) (h k : BlockHeader) (vs : List Validator) (ss ts : List BlockSignature)
      → verify_pbft_consensus x false a h vs ss ≡ ok tt
      → verify_pbft_consensus x false b k vs ts ≡ ok tt
      → (s : List Text) × (t : List Text) × All (IsSigned vs (commit_message a)) s
        × All (IsSigned vs (commit_message b)) t
        × (length vs < 3 * count (λ id. holds id s && holds id t) (ids vs))
  verify_pbft_consensus_overlap a b h k vs ss ts ha kb =
      let (s, s_one, s_size, s_signed) = (verify_pbft_consensus_sound false a h vs ss ha).1 in
      let (t, t_one, t_size, t_signed) = (verify_pbft_consensus_sound false b k vs ts kb).1 in
      (
        s,
        t,
        s_signed,
        t_signed,
        overlap vs (commit_message a) (commit_message b) s t s_one t_one s_signed t_signed s_size
            t_size,
      )
