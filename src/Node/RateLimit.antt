-- ===== src/Node/RateLimit.antt =====
-- crates/node/src/rate_limit.rs: the limit on the requests of an address. A time is a number of
-- ticks; the lock around each table is left out, since each operation holds it throughout.
pub mod Window
pub mod Admission
mod Tests
use chain_registry_core.Prelude.{
  ℕ, ◌+◌, ◌-◌, Bool, true, false, ◌&&◌, ◌||◌, Option, none, some, List, [], ◌∷◌, ◌++◌, Text, txt,
  text_eq, ltb, nat_beq, if◌then◌else◌, length, filterb, ◌==◌,
}
use chain_registry_core.Prelude.Map.{Map, lookup, insert}

pub record RateLimitConfig : Type 0 where
  pub general_limit : ℕ
  pub publish_limit : ℕ
  pub vote_limit : ℕ
  pub window : ℕ

-- The default, in ticks of a second.
unfoldable pub default_config : RateLimitConfig
default_config = record { general_limit = 3000; publish_limit = 10; vote_limit = 60; window = 60 }

pub record Bucket : Type 0 where
  pub timestamps : List ℕ

unfoldable pub new_bucket : Bucket
new_bucket = record { timestamps = [] }

-- `t > now - window`, as `now < t + window`.
abbrev pub is_recent : ℕ → ℕ → ℕ → Bool
is_recent window now t = ltb now (t + window)

unfoldable pub is_allowed : ℕ → ℕ → ℕ → Bucket → Bool × Bucket
is_allowed window limit now b =
    let recent = filterb (is_recent window now) b.timestamps in
    if ltb (length recent) limit
    then (true, record { timestamps = recent ++ now ∷ [] })
    else (false, record { timestamps = recent })

-- An address, by its text.
pub record RateLimiter : Type 0 where
  pub general : Map Text Bucket
  pub publish : Map Text Bucket
  pub vote : Map Text Bucket
  pub config : RateLimitConfig

unfoldable pub new_limiter : RateLimitConfig → RateLimiter
new_limiter config = record { general = []; publish = []; vote = []; config = config }

abbrev pub bucket_or_new : Option Bucket → Bucket
bucket_or_new none = new_bucket
bucket_or_new (some b) = b

unfoldable pub check : ℕ → ℕ → ℕ → Text → Map Text Bucket → Bool × Map Text Bucket
unfolding new_bucket
check window limit now ip buckets =
    let r = is_allowed window limit now (bucket_or_new (lookup ip buckets)) in
    (r.0, insert ip r.1 buckets)

unfoldable pub check_general : ℕ → Text → RateLimiter → Bool × RateLimiter
check_general now ip l =
    let r = check l.config.window l.config.general_limit now ip l.general in
    (r.0, record l { general = r.1 })

unfoldable pub check_publish : ℕ → Text → RateLimiter → Bool × RateLimiter
check_publish now ip l =
    let r = check l.config.window l.config.publish_limit now ip l.publish in
    (r.0, record l { publish = r.1 })

unfoldable pub check_vote : ℕ → Text → RateLimiter → Bool × RateLimiter
check_vote now ip l =
    let r = check l.config.window l.config.vote_limit now ip l.vote in
    (r.0, record l { vote = r.1 })

-- A purge of one table: old times go, and then the buckets without any.
unfoldable pub purge : ℕ → ℕ → Map Text Bucket → Map Text Bucket
purge window now [] = []
purge window now ((ip, b) ∷ m) =
    let recent = filterb (λ t. ltb (now - t) window) b.timestamps in
    let rest = purge window now m in
    if nat_beq (length recent) 0 then rest else (ip, record { timestamps = recent }) ∷ rest

unfoldable pub purge_expired : ℕ → RateLimiter → RateLimiter
purge_expired now l = record l {
  general = purge l.config.window now l.general;
  publish = purge l.config.window now l.publish;
  vote = purge l.config.window now l.vote;
}

-- Which limit a request falls under.
pub data Endpoint : Type 0 where
  to_general to_publish to_vote : Endpoint

unfoldable pub is_publish_submit : Text → Text → Bool
is_publish_submit path method =
    (method == txt "POST")
    && ((path == txt "/v1/packages") || (path == txt "/v1/publisher/packages"))

unfoldable pub is_consensus_vote : Text → Text → Bool
is_consensus_vote path method =
    (method == txt "POST")
    && ((path == txt "/v1/consensus/vote") || (path == txt "/v1/validator/consensus/vote"))

unfoldable pub endpoint_of : Text → Text → Endpoint
unfolding is_publish_submit is_consensus_vote
endpoint_of path method =
    if is_publish_submit path method
    then to_publish
    else if is_consensus_vote path method
    then to_vote
    else to_general

-- The middleware's decision on a request of an address.
unfoldable pub check_request : ℕ → Endpoint → Text → RateLimiter → Bool × RateLimiter
check_request now to_general ip l = check_general now ip l
check_request now to_publish ip l = check_publish now ip l
check_request now to_vote ip l = check_vote now ip l
