-- ===== src/Ratelimiter/Examples.antt =====
-- Runs of ratelimiter/ratelimiter.go, and its theorems at concrete inputs.
use wgservermgr.Prelude.{◌≡◌, ◌≤◌, ◌*◌, ◌+◌, ◌-◌, arith, List, [], ◌∷◌}
use wgservermgr.Ratelimiter.Rate.{Event, allows, collects, allowed, rate_bound}
use wgservermgr.Ratelimiter.Collect.{outcome, allow-cleanup, Buckets, init-Buckets, allow-Buckets}
use wgservermgr.Ratelimiter.{init, allow, cleanup, packet_cost, max_tokens}

-- Six packets at once, one 50 ms later, another address, a collection after two seconds.
abbrev trace : List Event
trace =
    allows 7 1000
    ∷ allows 7 1000
    ∷ allows 7 1000
    ∷ allows 7 1000
    ∷ allows 7 1000
    ∷ allows 8 1000
    ∷ allows 7 60_000_000
    ∷ collects (λ _. 2_000_000_000) 2_000_000_000
    ∷ allows 7 2_000_000_000
    ∷ []

rate_bound_example : allowed 7 init trace * packet_cost ≤ max_tokens + (2_000_000_000 - 1000)
rate_bound_example = rate_bound 7 1000 2_000_000_000 trace (
  omega arith,
  omega arith,
  (
    omega arith,
    omega arith,
    (
      omega arith,
      omega arith,
      (
        omega arith,
        omega arith,
        (
          omega arith,
          omega arith,
          (
            omega arith,
            omega arith,
            (
              omega arith,
              omega arith,
              ((λ ip. (omega arith, omega arith)), omega arith, omega arith),
            ),
          ),
        ),
      ),
    ),
  ),
)

allow-cleanup_example :
    outcome 7 (allow 7 30 (cleanup (λ _. 20) init).0) ≡ outcome 7 (allow 7 30 init)
allow-cleanup_example =
    allow-cleanup 7 30 (λ _. 20) init 10 (init-Buckets 10) (omega arith) (omega arith) (omega arith)

allow-Buckets_example : Buckets (allow 7 30 init).0.table 30
allow-Buckets_example = allow-Buckets 7 30 init 10 (init-Buckets 10) (omega arith) (omega arith)
