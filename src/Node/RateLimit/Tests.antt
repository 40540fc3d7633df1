-- ===== src/Node/RateLimit/Tests.antt =====
-- A limit of two requests, and the theorem on it.
use chain_registry_core.Prelude.{◌≤◌, List, [], ◌∷◌, Text, txt, text_eq, arith}
use chain_registry_core.Prelude.Count.{count}
use chain_registry_core.Node.RateLimit.{RateLimitConfig, new_limiter, to_publish}
use chain_registry_core.Node.RateLimit.Window.{in_window}
use chain_registry_core.Node.RateLimit.Admission.{
  Event, request, purged, admitted, admitted_bounded,
}

abbrev two : RateLimitConfig
two = record { general_limit = 9; publish_limit = 2; vote_limit = 9; window = 60 }

abbrev publish_at : Text → List Event → List Event
publish_at ip es =
    request to_publish ip 1
    ∷ request to_publish ip 2
    ∷ request to_publish ip 3
    ∷ purged 61
    ∷ request to_publish ip 62
    ∷ es

abbrev events : List Event
events = publish_at (txt "10.0.0.1") []

admitted_bounded_example :
    count (in_window 60 62) (admitted to_publish (txt "10.0.0.1") events (new_limiter two) []) ≤ 2
admitted_bounded_example =
    admitted_bounded two to_publish (txt "10.0.0.1") events 62
      (omega arith, (omega arith, (omega arith, (omega arith, (omega arith, tt)))))
