-- ===== src/Ratelimiter/Bucket.antt =====
-- ratelimiter/ratelimiter.go: one entry, when the clock does not run backwards.
use Prim.Native.Nat.{min}
use wgservermgr.Prelude.{
  ℕ, ◌+◌, ◌-◌, ◌^◌, ◌≤◌, ◌<◌, ◌≡◌, Bool, true, false, if◌then◌else◌, ltb, leb, arith,
}
use wgservermgr.Prelude.Int.{pos, ltb_ℤ, add_int64-pos, sub_int64-pos, sub_time_ordered}
use wgservermgr.Ratelimiter.{
  RatelimiterEntry, new_entry, spend, stays, packet_cost, max_tokens, garbage_collect_time,
}

-- Clock readings stay below 2 ^ 62 nanoseconds, some 146 years, so no sum wraps.
abbrev pub clock_limit : ℕ
clock_limit = 2 ^ 62

-- The entry holds `n` tokens, at most `max_tokens`, and was last used at `t` or before.
pub record Bucket (e : RatelimiterEntry) (n t : ℕ) : Type 0 where
  pub tokens_are : e.tokens ≡ pos n
  pub capped : n ≤ max_tokens
  pub used : e.last_time ≤ t

pub Bucket-later : {e : RatelimiterEntry} {n t t' : ℕ} → Bucket e n t → t ≤ t' → Bucket e n t'
Bucket-later b h = record {
  tokens_are = b.tokens_are;
  capped = b.capped;
  used = omega (arith, b.used);
}

-- What an entry that held `n` tokens at `last` holds at `now`, before the packet.
abbrev pub refill : ℕ → ℕ → ℕ → ℕ
refill n last now = min max_tokens (n + (now - last))

abbrev pub bucket_step : ℕ → ℕ → RatelimiterEntry × Bool
bucket_step now c =
    if ltb packet_cost c
    then (record { last_time = now; tokens = pos (c - packet_cost) }, true)
    else (record { last_time = now; tokens = pos c }, false)

cap_lem :
    (c : ℕ)
    → (if ltb_ℤ (pos max_tokens) (pos c) then pos max_tokens else pos c) ≡ pos (min max_tokens c)
cap_lem c = ground arith

pub spend-eq :
    (now n : ℕ) (e : RatelimiterEntry)
    → Bucket e n now
    → now < clock_limit
    → spend now e ≡ bucket_step now (refill n e.last_time now)
unfolding spend
spend-eq now n e b s =
    rw
      (
        b.tokens_are,
        sub_time_ordered now e.last_time b.used (omega arith),
        add_int64-pos n (now - e.last_time) (omega (arith, b.capped)),
        cap_lem (n + (now - e.last_time)),
      )
      (ground (arith, sub_int64-pos (refill n e.last_time now) packet_cost))

pub new_entry-eq :
    (now : ℕ) → new_entry now ≡ record { last_time = now; tokens = pos (max_tokens - packet_cost) }
unfolding new_entry
new_entry-eq now = rw (sub_int64-pos max_tokens packet_cost (omega arith) (omega arith))

-- `stays` is the test of an idle time of at most a second.
pub stays-eq :
    (now : ℕ → ℕ) (ip : ℕ) (e : RatelimiterEntry)
    → e.last_time ≤ now ip
    → now ip < clock_limit
    → stays now ip e ≡ leb (now ip - e.last_time) garbage_collect_time
unfolding stays
stays-eq now ip e p s = rw (sub_time_ordered (now ip) e.last_time p (omega arith)) (ground arith)
