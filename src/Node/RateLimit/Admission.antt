-- ===== src/Node/RateLimit/Admission.antt =====
-- How many requests an address gets through: crates/node/src/rate_limit.rs.
use chain_registry_core.Prelude.{
  ℕ, ◌-◌, ◌≤◌, ◌≡◌, refl, sym, ap, ◌∙◌, subst, subst₂, inl, inr, Bool, true, false, ◌&&◌, Option,
  none, some, List, [], ◌∷◌, Text, text_eq, text_beq_iff, ltb, if◌then◌else◌, length, filterb,
  arith, ◌==◌, Bool-cases,
}
use chain_registry_core.Prelude.Map.{Map, lookup, lookup-insert, IsMap, insert-IsMap}
use chain_registry_core.Prelude.Count.{count}
use chain_registry_core.Node.RateLimit.{
  RateLimitConfig, Bucket, new_bucket, is_allowed, RateLimiter, new_limiter, bucket_or_new, check,
  check_general, check_publish, check_vote, purge, purge_expired, Endpoint, to_general, to_publish,
  to_vote, check_request,
}
use chain_registry_core.Node.RateLimit.Window.{
  in_window, Times, IsLimited, IsLimited-later, IsLimited-dropped, young_kept, IsLimited-is_allowed,
}

nil_of_length : (ts : Times) → length ts ≡ 0 → ts ≡ []
nil_of_length [] h = refl
nil_of_length (t ∷ ts) h = absurd (omega arith)

-- The times that an address has in the table of an endpoint.
abbrev table_of : Endpoint → RateLimiter → Map Text Bucket
table_of to_general l = l.general
table_of to_publish l = l.publish
table_of to_vote l = l.vote

abbrev pub limit_of : Endpoint → RateLimitConfig → ℕ
limit_of to_general c = c.general_limit
limit_of to_publish c = c.publish_limit
limit_of to_vote c = c.vote_limit

abbrev times_at : Text → Map Text Bucket → Times
times_at ip m = elim (lookup ip m) [ none ↦ [] | some b ↦ b.timestamps ]

lookup-purge :
    (w now : ℕ) (ip : Text) (m : Map Text Bucket)
    → IsMap m
    → (times_at ip (purge w now m) ≡ filterb (λ t. ltb (now - t) w) (times_at ip m))
      × (lookup ip m ≡ none → lookup ip (purge w now m) ≡ none)
unfolding purge
lookup-purge w now ip [] once = (refl, λ h. refl)
lookup-purge w now ip ((k, b) ∷ m) once = ground (
  arith,
  lookup-purge w now ip m once.1,
  once.0,
  text_beq_iff ip k,
  nil_of_length (filterb (λ t. ltb (now - t) w) b.timestamps),
)

purge-IsMap : (w now : ℕ) (m : Map Text Bucket) → IsMap m → IsMap (purge w now m)
unfolding purge
purge-IsMap w now [] once = tt
purge-IsMap w now ((k, b) ∷ m) once =
    ground (arith, purge-IsMap w now m once.1, lookup-purge w now k m once.1, once.0)

-- Each table has one bucket for an address.
record IsLimiter (l : RateLimiter) : Type 0 where
  general_once : IsMap l.general
  publish_once : IsMap l.publish
  vote_once : IsMap l.vote

pub data Event : Type 0 where
  request : Endpoint → Text → ℕ → Event
  purged : ℕ → Event

abbrev pub time_of : Event → ℕ
time_of (request endpoint ip now) = now
time_of (purged now) = now

unfoldable pub step : Event → RateLimiter → Bool × RateLimiter
step (request endpoint ip now) l = check_request now endpoint ip l
step (purged now) l = (false, purge_expired now l)

-- The clock does not go back.
abbrev pub Monotone : ℕ → List Event → Type 0
Monotone since [] = Unit {0}
Monotone since (e ∷ es) = (since ≤ time_of e) × Monotone (time_of e) es

abbrev same_endpoint : Endpoint → Endpoint → Bool
same_endpoint to_general to_general = true
same_endpoint to_publish to_publish = true
same_endpoint to_vote to_vote = true
same_endpoint c d = false

bucket_or_new_times :
    (found : Option Bucket)
    → bucket_or_new found ≡ record { timestamps = elim found [ none ↦ [] | some b ↦ b.timestamps ] }
unfolding new_bucket
bucket_or_new_times none = refl
bucket_or_new_times (some b) = refl

bucket_of :
    (ip : Text) (m : Map Text Bucket)
    → bucket_or_new (lookup ip m) ≡ record { timestamps = times_at ip m }
bucket_of ip m = bucket_or_new_times (lookup ip m)

check-times_at :
    (w limit now : ℕ) (ip other : Text) (m : Map Text Bucket)
    → ((check w limit now ip m).0
        ≡ (is_allowed w limit now (record { timestamps = times_at ip m })).0)
      × (times_at ip (check w limit now ip m).1
          ≡ (is_allowed w limit now (record { timestamps = times_at ip m })).1.timestamps)
      × ((ip == other) ≡ false → times_at ip (check w limit now other m).1 ≡ times_at ip m)
unfolding check new_bucket
check-times_at w limit now ip other m = ground (
  arith,
  bucket_of ip m,
  lookup-insert ip ip (is_allowed w limit now (bucket_or_new (lookup ip m))).1 m,
  lookup-insert other ip (is_allowed w limit now (bucket_or_new (lookup other m))).1 m,
  text_beq_iff ip ip,
)

request_table :
    (c d : Endpoint) (now : ℕ) (ip : Text) (l : RateLimiter)
    → (same_endpoint c d ≡ true
        → ((check_request now d ip l).0
            ≡ (check l.config.window (limit_of c l.config) now ip (table_of c l)).0)
          × (table_of c (check_request now d ip l).1
              ≡ (check l.config.window (limit_of c l.config) now ip (table_of c l)).1))
      × (same_endpoint c d ≡ false → table_of c (check_request now d ip l).1 ≡ table_of c l)
unfolding check_request check_general check_publish check_vote
request_table c d now ip l = ground arith

purged_table :
    (c : Endpoint) (now : ℕ) (l : RateLimiter)
    → table_of c (purge_expired now l) ≡ purge l.config.window now (table_of c l)
unfolding purge_expired
purged_table c now l = ground arith

step_config : (e : Event) (l : RateLimiter) → (step e l).1.config ≡ l.config
unfolding step check_request check_general check_publish check_vote purge_expired
step_config e l = ground arith

IsMap-table_of : (c : Endpoint) (l : RateLimiter) → IsLimiter l → IsMap (table_of c l)
IsMap-table_of to_general l v = v.general_once
IsMap-table_of to_publish l v = v.publish_once
IsMap-table_of to_vote l v = v.vote_once

step-IsLimiter : (e : Event) (l : RateLimiter) → IsLimiter l → IsLimiter (step e l).1
unfolding step check_request check_general check_publish check_vote check purge_expired
step-IsLimiter (request to_general ip now) l v = record {
  general_once = insert-IsMap ip _ l.general v.general_once;
  publish_once = v.publish_once;
  vote_once = v.vote_once;
}
step-IsLimiter (request to_publish ip now) l v = record {
  general_once = v.general_once;
  publish_once = insert-IsMap ip _ l.publish v.publish_once;
  vote_once = v.vote_once;
}
step-IsLimiter (request to_vote ip now) l v = record {
  general_once = v.general_once;
  publish_once = v.publish_once;
  vote_once = insert-IsMap ip _ l.vote v.vote_once;
}
step-IsLimiter (purged now) l v = record {
  general_once = purge-IsMap l.config.window now l.general v.general_once;
  publish_once = purge-IsMap l.config.window now l.publish v.publish_once;
  vote_once = purge-IsMap l.config.window now l.vote v.vote_once;
}

-- The times at which an address's requests to an endpoint are let through, the last first.
abbrev log_step : Endpoint → Text → Event → Bool → Times → Times
log_step c ip (request d other now) allowed log =
    if same_endpoint c d && ((ip == other) && allowed) then now ∷ log else log
log_step c ip (purged now) allowed log = log

abbrev pub admitted : Endpoint → Text → List Event → RateLimiter → Times → Times
admitted c ip [] l log = log
admitted c ip (e ∷ es) l log = admitted c ip es (step e l).1 (log_step c ip e (step e l).0 log)

step-IsLimited :
    (c : Endpoint) (ip : Text) (e : Event) (l : RateLimiter) (since : ℕ) (log : Times)
    → IsLimiter l
    → since ≤ time_of e
    → IsLimited l.config.window (limit_of c l.config) since log (times_at ip (table_of c l))
    → IsLimited l.config.window
        (limit_of c l.config)
        (time_of e)
        (log_step c ip e (step e l).0 log)
        (times_at ip (table_of c (step e l).1))
unfolding step
step-IsLimited c ip (purged now) l since log v le g =
    let w = l.config.window in
    let m = table_of c l in
    let left : times_at ip (table_of c (purge_expired now l))
        ≡ filterb (λ t. ltb (now - t) w) (times_at ip m) =
      ap (times_at ip) (purged_table c now l)
      ∙ (lookup-purge w now ip m (IsMap-table_of c l v)).0 in
    subst (IsLimited w (limit_of c l.config) now log) (sym left) (
      IsLimited-dropped w (limit_of c l.config) since now log (times_at ip m) _ le
        (young_kept w now) g)
step-IsLimited c ip (request d other now) l since log v le g =
    let w = l.config.window in
    let limit = limit_of c l.config in
    let times = times_at ip (table_of c l) in
    let b : Bucket = record { timestamps = times } in
    let facts = request_table c d now other l in
    let checked = check-times_at w limit now ip other (table_of c l) in
    let aside : same_endpoint c d ≡ false
        → times_at ip (table_of c (check_request now d other l).1) ≡ times =
      λ h. ap (times_at ip) (facts.1 h) in
    elim (Bool-cases (same_endpoint c d && (ip == other))) [
      | inl own ↦
          let e : ip ≡ other = (text_beq_iff ip other).0 (ground arith) in
          subst₂ (IsLimited w limit now) (ground (arith, checked.0)) (ground arith)
            (IsLimited-is_allowed w limit since now log b le g)
      | inr others ↦
          subst₂ (IsLimited w limit now) (ground arith) (ground (arith, aside))
            (IsLimited-later w limit since now log times le g)
    ]

empty_log :
    (c : Endpoint) (ip : Text) (config : RateLimitConfig)
    → IsLimited config.window
        (limit_of c config)
        0
        []
        (times_at ip (table_of c (new_limiter config)))
unfolding new_limiter
empty_log c ip config = record { covered = λ T h. omega arith; bounded = λ T. omega arith }

admitted-IsLimited :
    (c : Endpoint) (ip : Text) (es : List Event) (l : RateLimiter) (since : ℕ) (log : Times) (T : ℕ)
    → IsLimiter l
    → Monotone since es
    → IsLimited l.config.window (limit_of c l.config) since log (times_at ip (table_of c l))
    → count (in_window l.config.window T) (admitted c ip es l log) ≤ limit_of c l.config
admitted-IsLimited c ip [] l since log T v mono g = g.bounded T
admitted-IsLimited c ip (e ∷ es) l since log T v mono g =
    let l' = (step e l).1 in
    let log' = log_step c ip e (step e l).0 log in
    let next = step-IsLimited c ip e l since log v mono.0 g in
    subst
      (λ (config : RateLimitConfig).
        count (in_window config.window T) (admitted c ip es l' log') ≤ limit_of c config)
      (step_config e l)
      (admitted-IsLimited c ip es l' (time_of e) log' T (step-IsLimiter e l v) mono.1 (
        subst
          (λ (config : RateLimitConfig).
            IsLimited config.window (limit_of c config) (time_of e) log'
              (times_at ip (table_of c l')))
          (sym (step_config e l)) next))

-- In every window, however the requests and the purges come, an address gets at most as many
-- requests through to an endpoint as the endpoint's limit.
pub admitted_bounded :
    (config : RateLimitConfig) (c : Endpoint) (ip : Text) (es : List Event) (T : ℕ)
    → Monotone 0 es
    → count (in_window config.window T) (admitted c ip es (new_limiter config) [])
      ≤ limit_of c config
unfolding new_limiter
admitted_bounded config c ip es T mono =
    admitted-IsLimited c ip es (new_limiter config) 0 [] T
      (record { general_once = tt; publish_once = tt; vote_once = tt }) mono (empty_log c ip config)
