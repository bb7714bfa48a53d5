-- ===== src/Ratelimiter.antt =====
-- ratelimiter/ratelimiter.go: a token bucket for each address, and the collection of idle ones.
-- Clock readings are nanoseconds; durations and tokens are `int64`. An address is a number that
-- names it, since addresses are only compared.
pub mod Bucket
pub mod Rate
pub mod Collect
mod Examples
use wgservermgr.Prelude.{
  ℕ, ◌+◌, ◌*◌, ◌/◌, Bool, true, false, not, if◌then◌else◌, Option, none, some, List, [], ◌∷◌,
  length, ◌==◌,
}
use wgservermgr.Prelude.Int.{ℤ, pos, ltb_ℤ, add_int64, sub_int64, sub_time}
use wgservermgr.Prelude.Maps.{nat_key, lookup, insert, retain}

abbrev pub packets_per_second : ℕ
packets_per_second = 20

abbrev pub packets_burstable : ℕ
packets_burstable = 5

abbrev pub garbage_collect_time : ℕ
garbage_collect_time = 1_000_000_000

abbrev pub packet_cost : ℕ
packet_cost = 1_000_000_000 / packets_per_second

abbrev pub max_tokens : ℕ
max_tokens = packet_cost * packets_burstable

pub record RatelimiterEntry : Type 0 where
  pub last_time : ℕ
  pub tokens : ℤ

abbrev pub Table : Type 0
Table = List (ℕ × RatelimiterEntry)

-- `signals` counts what was sent on `stopReset`, which starts the collection's ticker.
pub record Ratelimiter : Type 0 where
  pub table : Table
  pub signals : ℕ

abbrev pub init : Ratelimiter
init = record { table = []; signals = 0 }

-- One round of the loop of `cleanup`: whether the entry stays. The clock is read in each round, and
-- `now ip` is what it says in the round of the address `ip`.
pub stays : (ℕ → ℕ) → ℕ → RatelimiterEntry → Bool
stays now ip entry = not (ltb_ℤ (pos garbage_collect_time) (sub_time (now ip) entry.last_time))

-- The result says whether the table is empty.
pub cleanup : (ℕ → ℕ) → Ratelimiter → Ratelimiter × Bool
cleanup now rate =
    let table = retain (stays now) rate.table in (record rate { table = table }, length table == 0)

pub new_entry : ℕ → RatelimiterEntry
new_entry now = record { last_time = now; tokens = sub_int64 (pos max_tokens) (pos packet_cost) }

-- The part of `Allow` for an entry that is there: add tokens, cap them, subtract the cost.
pub spend : ℕ → RatelimiterEntry → RatelimiterEntry × Bool
spend now entry =
    let added = add_int64 entry.tokens (sub_time now entry.last_time) in
    let capped = (if ltb_ℤ (pos max_tokens) added then pos max_tokens else added) in
    if ltb_ℤ (pos packet_cost) capped
    then (record { last_time = now; tokens = sub_int64 capped (pos packet_cost) }, true)
    else (record { last_time = now; tokens = capped }, false)

pub allow_found : ℕ → ℕ → Ratelimiter → Option RatelimiterEntry → Ratelimiter × Bool
allow_found ip now rate none =
    let table = insert ip (new_entry now) rate.table in
    (
      record {
        table = table;
        signals = if length table == 1 then rate.signals + 1 else rate.signals;
      },
      true,
    )
allow_found ip now rate (some entry) =
    let (entry', answer) = spend now entry in
    (record rate { table = insert ip entry' rate.table }, answer)

pub allow : ℕ → ℕ → Ratelimiter → Ratelimiter × Bool
unfolding allow_found
allow ip now rate = allow_found ip now rate (lookup ip rate.table)
