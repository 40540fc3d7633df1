-- ===== src/Consensus/Evidence/Tally.antt =====
-- The loop over the unique votes, as a selection among them: crates/consensus/src/evidence_votes.rs.
use chain_registry_core.Prelude.{
  ℕ, ◌+◌, ◌≤◌, ◌<◌, ◌≡◌, refl, sym, ap, ◌∙◌, subst, inl, inr, ◌⊎◌, Bool, true, false, ◌&&◌, none,
  some, List, [], ◌∷◌, ◌++◌, Text, text_eq, text_beq_iff, if◌then◌else◌, length, length-append,
  arith, Bool-cases, ◌==◌, filterb, append_assoc, leb,
}
use chain_registry_core.Prelude.Map.{Map, insert, lookup-insert}
use chain_registry_core.Prelude.Count.{count}
use chain_registry_core.Common.Package.{ValidatorSignature, ValidatorVote, approve, reject}
use chain_registry_core.Common.External.{External}
use chain_registry_core.Consensus.Evidence.{
  is_graded, profile_key, consensus_profile_key, approvals_of, tally,
}

abbrev Votes : Type 0
Votes = List ValidatorSignature

abbrev pub is_approval : ValidatorSignature → Bool
is_approval s = elim s.vote [ approve ↦ true | reject _ ↦ false ]

abbrev pub is_rejection : ValidatorSignature → Bool
is_rejection s = elim s.vote [ approve ↦ false | reject _ ↦ true ]

module _ (x : External) where
  -- A consensus-grade approval under a profile.
  abbrev pub approves_under : Text → ValidatorSignature → Bool
  approves_under key s = is_graded s && (is_approval s && (profile_key x s == key))

  abbrev pub counts_against : ValidatorSignature → Bool
  counts_against s = is_graded s && is_rejection s

  -- A profile's approvals in a list of votes.
  abbrev pub approvals_under : Text → Votes → Votes
  approvals_under key = filterb (approves_under key)

  -- The approvals of a profile: those the loop has, and those to come.
  abbrev pub collected : Text → Map Text Votes → Votes → Votes
  collected key m vs = approvals_of key m ++ approvals_under key vs

  collected-approve :
      (key : Text) (s : ValidatorSignature) (vs : Votes) (m : Map Text Votes)
      → is_graded s && is_approval s ≡ true
      → collected key (insert (profile_key x s) (approvals_of (profile_key x s) m ++ s ∷ []) m) vs
        ≡ collected key m (s ∷ vs)
  collected-approve key s vs m h = ground (
    arith,
    lookup-insert (profile_key x s) key (approvals_of (profile_key x s) m ++ s ∷ []) m,
    append_assoc (approvals_of key m) (s ∷ []) (approvals_under key vs),
    text_beq_iff key (profile_key x s),
    text_beq_iff (profile_key x s) key,
  )

  collected-skip :
      (key : Text) (s : ValidatorSignature) (vs : Votes) (m : Map Text Votes)
      → is_graded s && is_approval s ≡ false
      → collected key m (s ∷ vs) ≡ collected key m vs
  collected-skip key s vs m h = ground arith

  abbrev reasons_with : ValidatorSignature → List Text → List Text
  reasons_with s reasons =
      if is_graded s
      then elim s.vote [ approve ↦ reasons | reject reason ↦ reasons ++ reason ∷ [] ]
      else reasons

  abbrev approvals_with : ValidatorSignature → Map Text Votes → Votes
  approvals_with s m = approvals_of (profile_key x s) m ++ s ∷ []

  tally-skip :
      (quorum : ℕ) (s : ValidatorSignature) (vs : Votes) (m : Map Text Votes) (reasons : List Text)
      → is_graded s && is_approval s ≡ false
      → tally x quorum (s ∷ vs) m reasons ≡ tally x quorum vs m (reasons_with s reasons)
  unfolding tally consensus_profile_key
  tally-skip quorum s vs m reasons h = ground arith

  tally-approve :
      (quorum : ℕ) (s : ValidatorSignature) (vs : Votes) (m : Map Text Votes) (reasons : List Text)
      → is_graded s && is_approval s ≡ true
      → tally x quorum (s ∷ vs) m reasons ≡ (
          if leb quorum (length (approvals_with s m))
          then (some (approvals_with s m), reasons)
          else tally x quorum vs (insert (profile_key x s) (approvals_with s m) m) reasons)
  unfolding tally consensus_profile_key
  tally-approve quorum s vs m reasons h = ground arith

  collected_here :
      (s : ValidatorSignature) (vs : Votes) (m : Map Text Votes)
      → is_graded s && is_approval s ≡ true
      → collected (profile_key x s) m (s ∷ vs)
        ≡ approvals_with s m ++ approvals_under (profile_key x s) vs
  collected_here s vs m h = ground (
    arith,
    append_assoc (approvals_of (profile_key x s) m) (s ∷ []) (approvals_under (profile_key x s) vs),
    text_beq_iff (profile_key x s) (profile_key x s),
  )

  -- A loop that meets a quorum hands out the first approvals of one profile.
  pub tally-some :
      (quorum : ℕ) (vs : Votes) (m : Map Text Votes) (reasons out : List Text) (sigs : Votes)
      → tally x quorum vs m reasons ≡ (some sigs, out)
      → (key : Text) × (rest : Votes) × (quorum ≤ length sigs) × (collected key m vs ≡ sigs ++ rest)
  unfolding tally
  tally-some quorum [] m reasons out sigs h = ground arith
  tally-some quorum (s ∷ vs) m reasons out sigs h =
      elim (Bool-cases (is_graded s && is_approval s)) [
        | inl approves ↦ elim (Bool-cases (leb quorum (length (approvals_with s m)))) [
          | inl enough ↦
              let stops : (some (approvals_with s m), reasons) ≡ (some sigs, out) =
                sym (tally-approve quorum s vs m reasons approves ∙ rw enough) ∙ h in
              let handed : approvals_with s m ≡ sigs = ground (arith, stops) in
              (
                profile_key x s,
                approvals_under (profile_key x s) vs,
                ground (arith, ap length handed),
                collected_here s vs m approves
                    ∙ ap (λ l. l ++ approvals_under (profile_key x s) vs) handed,
              )
          | inr short ↦
              let goes : tally x quorum vs (insert (profile_key x s) (approvals_with s m) m) reasons
                  ≡ (some sigs, out) =
                sym (tally-approve quorum s vs m reasons approves ∙ rw short) ∙ h in
              let (key, rest, enough, made) = tally-some quorum vs _ reasons out sigs goes in
              (key, rest, enough, sym (collected-approve key s vs m approves) ∙ made)
        ]
        | inr not_approves ↦
            let goes = sym (tally-skip quorum s vs m reasons not_approves) ∙ h in
            let (key, rest, enough, made) = tally-some quorum vs m _ out sigs goes in
            (key, rest, enough, collected-skip key s vs m not_approves ∙ made)
      ]

  -- The profiles' approvals so far are below the quorum.
  abbrev pub Below : ℕ → Map Text Votes → Type 0
  Below quorum m = (key : Text) → length (approvals_of key m) < quorum

  Below-insert :
      (quorum : ℕ) (key : Text) (l : Votes) (m : Map Text Votes)
      → Below quorum m
      → length l < quorum
      → Below quorum (insert key l m)
  Below-insert quorum key l m b h k = ground (arith, lookup-insert key k l m, b k)

  vote-cases : (v : ValidatorVote) → (v ≡ approve) ⊎ ((reason : Text) × (v ≡ reject reason))
  vote-cases approve = inl refl
  vote-cases (reject reason) = inr (reason, refl)

  length-reasons_with :
      (s : ValidatorSignature) (vs : Votes) (reasons : List Text)
      → length (reasons_with s reasons) + count counts_against vs
        ≡ length reasons + count counts_against (s ∷ vs)
  length-reasons_with s vs reasons = elim (vote-cases s.vote) [
    | inl yea ↦ ground arith
    | inr (reason, nay) ↦ ground (arith, length-append reasons (reason ∷ []))
  ]

  -- A loop that meets no quorum has seen every approval and every rejection.
  pub tally-none :
      (quorum : ℕ) (vs : Votes) (m : Map Text Votes) (reasons out : List Text)
      → Below quorum m
      → tally x quorum vs m reasons ≡ (none, out)
      → ((key : Text) → length (collected key m vs) < quorum)
        × (length out ≡ length reasons + count counts_against vs)
  unfolding tally
  tally-none quorum [] m reasons out b h =
      (λ key. ground (arith, b key, length-append (approvals_of key m) []), ground arith)
  tally-none quorum (s ∷ vs) m reasons out b h = elim (Bool-cases (is_graded s && is_approval s)) [
    | inl approves ↦ elim (Bool-cases (leb quorum (length (approvals_with s m)))) [
      | inl enough ↦
          let stops : (some (approvals_with s m), reasons) ≡ (none, out) =
            sym (tally-approve quorum s vs m reasons approves ∙ rw enough) ∙ h in
          ground (arith, stops)
      | inr short ↦
          let goes : tally x quorum vs (insert (profile_key x s) (approvals_with s m) m) reasons
              ≡ (none, out) =
            sym (tally-approve quorum s vs m reasons approves ∙ rw short) ∙ h in
          let (few, counted) =
            tally-none quorum vs _ reasons out
              (Below-insert quorum (profile_key x s) (approvals_with s m) m b (ground arith))
              goes in
          (
            λ key. subst (λ l. length l < quorum) (collected-approve key s vs m approves) (few key),
            counted ∙ ground arith,
          )
    ]
    | inr not_approves ↦
        let goes = sym (tally-skip quorum s vs m reasons not_approves) ∙ h in
        let (few, counted) = tally-none quorum vs m _ out b goes in
        (
          λ key.
              subst (λ l. length l < quorum) (sym (collected-skip key s vs m not_approves))
                (few key),
          counted ∙ length-reasons_with s vs reasons,
        )
  ]
