-- ===== src/Ratelimiter/Rate.antt =====
-- ratelimiter/ratelimiter.go: how many packets of one address a sequence of calls lets through.
use wgservermgr.Prelude.{
  ℕ, ◌+◌, ◌-◌, ◌*◌, ◌≤◌, ◌<◌, ◌≡◌, refl, ◌∙◌, Bool, true, false, ◌&&◌, if◌then◌else◌, ltb, ◌==◌,
  arith, inl, inr, Bool-cases, Option, none, some, List, [], ◌∷◌, ==_iff,
}
use wgservermgr.Prelude.Maps.{
  nat_key, lookup, insert, Distinct, keep_if, lookup-insert, insert-Distinct, lookup-retain,
  retain-Distinct,
}
use wgservermgr.Ratelimiter.Bucket.{
  Bucket, Bucket-later, refill, bucket_step, spend-eq, new_entry-eq, stays-eq, clock_limit,
}
use wgservermgr.Ratelimiter.{
  Ratelimiter, RatelimiterEntry, Table, init, allow, allow_found, cleanup, stays, new_entry, spend,
  packet_cost, max_tokens,
}

-- A call of `Allow` with the clock's reading, or a call of `cleanup` with the readings of its
-- rounds and a time by which it is over.
pub data Event : Type 0 where
  allows : ℕ → ℕ → Event
  collects : (ℕ → ℕ) → ℕ → Event

-- How many of the calls of `Allow` for `ip` answer yes.
pub allowed : ℕ → Ratelimiter → List Event → ℕ
allowed ip rate [] = 0
allowed ip rate (allows i now ∷ es) =
    let (rate', answer) = allow i now rate in
    (if answer && i == ip then 1 else 0) + allowed ip rate' es
allowed ip rate (collects now till ∷ es) = allowed ip (cleanup now rate).0 es

-- The clock does not run backwards from `start` to `end`.
abbrev pub Timed : ℕ → ℕ → List Event → Type 0
Timed start end [] = start ≤ end
Timed start end (allows i now ∷ es) = (start ≤ now) × (now < clock_limit) × Timed now end es
Timed start end (collects now till ∷ es) =
    ((ip : ℕ) → (start ≤ now ip) × (now ip ≤ till)) × (till < clock_limit) × Timed till end es

Timed-le : (start end : ℕ) (es : List Event) → Timed start end es → start ≤ end
Timed-le start end [] h = h
Timed-le start end (allows i now ∷ es) h = omega (arith, Timed-le now end es h.2)
Timed-le start end (collects now till ∷ es) h =
    omega (arith, (h.0 0).0, (h.0 0).1, Timed-le till end es h.2)

-- What the address may spend at time `t`.
pub data Credit (o : Option RatelimiterEntry) (t c : ℕ) : Type 0 where
  fresh : o ≡ none → c ≡ max_tokens → Credit o t c
  held :
      (e : RatelimiterEntry) (n : ℕ)
      → o ≡ some e
      → Bucket e n t
      → c ≡ refill n e.last_time t
      → Credit o t c

-- The credit grows by at most a token each nanosecond.
Credit-later :
    {o : Option RatelimiterEntry} {t c : ℕ} (t' : ℕ)
    → Credit o t c
    → t ≤ t'
    → (c' : ℕ) × Credit o t' c' × (c' ≤ c + (t' - t))
Credit-later {c = c} t' (fresh e f) h = (c, fresh e f, omega arith)
Credit-later t' (held e n p b f) h =
    (refill n e.last_time t', held e n p (Bucket-later b h) refl, omega (arith, b.used))

-- One packet spends its cost of the credit if it is let through.
abbrev pub paid : Bool → ℕ
paid answer = if answer then packet_cost else 0

-- What `spend` leaves of the credit `c`.
pub record Spent (now c : ℕ) (r : RatelimiterEntry × Bool) : Type 0 where
  pub left : ℕ
  pub bucket : Bucket r.0 left now
  pub stamped : r.0.last_time ≡ now
  pub balance : paid r.1 + left ≡ c

pub bucket_step-Spent : (now c : ℕ) → c ≤ max_tokens → Spent now c (bucket_step now c)
bucket_step-Spent now c h = elim (Bool-cases (ltb packet_cost c)) [
  | inl enough ↦ rw enough (record {
    left = c - packet_cost;
    bucket = record { tokens_are = refl; capped = omega arith; used = omega arith };
    stamped = refl;
    balance = ground arith;
  })
  | inr short ↦ rw short (record {
    left = c;
    bucket = record { tokens_are = refl; capped = h; used = omega arith };
    stamped = refl;
    balance = omega arith;
  })
]

Spent-Credit :
    (now c : ℕ) (r : RatelimiterEntry × Bool) {o : Option RatelimiterEntry}
    → Spent now c r
    → o ≡ some r.0
    → (c' : ℕ) × Credit o now c' × (paid r.1 + c' ≤ c)
Spent-Credit now c r s p =
    (s.left, held r.0 s.left p s.bucket (omega (arith, s.bucket.capped)), omega (arith, s.balance))

pub lookup-insert_same :
    (ip : ℕ) (e : RatelimiterEntry) (m : Table) → lookup ip (insert ip e m) ≡ some e
lookup-insert_same ip e m = lookup-insert ip ip e m ∙ ground arith

module _ (ip now : ℕ) (small : now < clock_limit) where
  pub new_entry-Spent : Spent now max_tokens (new_entry now, true)
  new_entry-Spent = rw (new_entry-eq now) (record {
    left = max_tokens - packet_cost;
    bucket = record { tokens_are = refl; capped = omega arith; used = omega arith };
    stamped = refl;
    balance = refl;
  })

  -- `Allow` with the entry of the address at hand.
  allow_found-Credit :
      (rate : Ratelimiter) (o : Option RatelimiterEntry) (c : ℕ)
      → Credit o now c
      → let (rate', answer) = allow_found ip now rate o in
        (c' : ℕ) × Credit (lookup ip rate'.table) now c' × (paid answer + c' ≤ c)
  unfolding allow_found
  allow_found-Credit rate none c (fresh e f) = rw f (
      Spent-Credit now max_tokens (new_entry now, true) new_entry-Spent
        (lookup-insert_same ip (new_entry now) rate.table))
  allow_found-Credit rate none c (held e n p b f) = cc
  allow_found-Credit rate (some e) c (fresh p f) = cc
  allow_found-Credit rate (some e) c (held e' n p b f) =
      let same : e ≡ e' = cc in
      Spent-Credit now c (spend now e)
        (rw (same, spend-eq now n e' b small, f)
          (bucket_step-Spent now (refill n e'.last_time now) (omega arith)))
        (lookup-insert_same ip (spend now e).0 rate.table)

  allow-Credit :
      (rate : Ratelimiter) (t c : ℕ)
      → Credit (lookup ip rate.table) t c
      → t ≤ now
      → let (rate', answer) = allow ip now rate in
        (c' : ℕ) × Credit (lookup ip rate'.table) now c' × (paid answer + c' ≤ c + (now - t))
  unfolding allow
  allow-Credit rate t c k h =
      let (c', k', p) = Credit-later now k h in
      let (c'', k'', q) = allow_found-Credit rate (lookup ip rate.table) c' k' in
      (c'', k'', omega arith)

-- Packets of another address leave the entry alone.
allow_found_other :
    (i ip now : ℕ) (rate : Ratelimiter) (o : Option RatelimiterEntry)
    → (i == ip) ≡ false
    → lookup ip (allow_found i now rate o).0.table ≡ lookup ip rate.table
unfolding allow_found
allow_found_other i ip now rate none h = lookup-insert i ip _ rate.table ∙ rw h
allow_found_other i ip now rate (some e) h = lookup-insert i ip _ rate.table ∙ rw h

pub allow-other :
    (i ip now : ℕ) (rate : Ratelimiter)
    → (i == ip) ≡ false
    → lookup ip (allow i now rate).0.table ≡ lookup ip rate.table
unfolding allow
allow-other i ip now rate h = allow_found_other i ip now rate (lookup i rate.table) h

allow_found-Distinct :
    (i now : ℕ) (rate : Ratelimiter) (o : Option RatelimiterEntry)
    → Distinct rate.table
    → Distinct (allow_found i now rate o).0.table
unfolding allow_found
allow_found-Distinct i now rate none d = insert-Distinct i (new_entry now) rate.table d
allow_found-Distinct i now rate (some e) d = insert-Distinct i (spend now e).0 rate.table d

pub allow-Distinct :
    (i now : ℕ) (rate : Ratelimiter) → Distinct rate.table → Distinct (allow i now rate).0.table
unfolding allow
allow-Distinct i now rate d = allow_found-Distinct i now rate (lookup i rate.table) d

-- An entry is collected when its address has all its credit again.
collect-Credit :
    (now : ℕ → ℕ) (ip till : ℕ) {o : Option RatelimiterEntry} {t c : ℕ}
    → Credit o t c
    → t ≤ now ip
    → now ip ≤ till
    → till < clock_limit
    → (c' : ℕ) × Credit (keep_if (stays now ip) o) till c' × (c' ≤ c + (till - t))
collect-Credit now ip till {c = c} (fresh e f) p q s = (c, fresh (rw e) f, omega arith)
collect-Credit now ip till {t = t} (held e n o_is b f) p q s = elim (Bool-cases (stays now ip e)) [
  | inl kept ↦
      let (c', k, h) = Credit-later till (held e n (rw (o_is, kept)) b f) (omega arith) in
      (c', k, h)
  | inr gone ↦ (
    max_tokens,
    fresh (rw (o_is, gone)) refl,
    ground (arith, stays-eq now ip e (omega (arith, b.used)) (omega arith), b.used),
  )
]

-- One call of `Allow`, for this or another address.
allow_any-Credit :
    (ip i now : ℕ) (rate : Ratelimiter) (t c : ℕ)
    → Credit (lookup ip rate.table) t c
    → t ≤ now
    → now < clock_limit
    → let (rate', answer) = allow i now rate in
      (c' : ℕ) × Credit (lookup ip rate'.table) now c'
      × ((if answer && i == ip then 1 else 0) * packet_cost + c' ≤ c + (now - t))
allow_any-Credit ip i now rate t c k p s = elim (Bool-cases (i == ip)) [
  | inl same ↦ here ((==_iff i ip).0 same)
  | inr other ↦ there other
]
  where
    here :
        i ≡ ip
        → (c' : ℕ) × Credit (lookup ip (allow i now rate).0.table) now c'
          × ((if (allow i now rate).1 && i == ip then 1 else 0) * packet_cost + c' ≤ c + (now - t))
    here e = let (c', k', q) = allow-Credit ip now s rate t c k p in rw e (c', k', ground arith)

    there :
        (i == ip) ≡ false
        → (c' : ℕ) × Credit (lookup ip (allow i now rate).0.table) now c'
          × ((if (allow i now rate).1 && i == ip then 1 else 0) * packet_cost + c' ≤ c + (now - t))
    there e =
        let (c', k', q) = Credit-later now k p in
        (c', rw (allow-other i ip now rate e) k', ground arith)

-- Any sequence of calls.
allowed-le :
    (ip : ℕ) (rate : Ratelimiter) (es : List Event) (t end c : ℕ)
    → Credit (lookup ip rate.table) t c
    → Distinct rate.table
    → Timed t end es
    → allowed ip rate es * packet_cost ≤ c + (end - t)
unfolding allowed cleanup
allowed-le ip rate [] t end c k d h = omega arith
allowed-le ip rate (allows i now ∷ es) t end c k d h =
    let (c', k', q) = allow_any-Credit ip i now rate t c k h.0 h.1 in
    omega (
      arith,
      Timed-le now end es h.2,
      allowed-le ip (allow i now rate).0 es now end c' k' (allow-Distinct i now rate d) h.2,
    )
allowed-le ip rate (collects now till ∷ es) t end c k d h =
    let (c', k', q) = collect-Credit now ip till k (h.0 ip).0 (h.0 ip).1 h.1 in
    omega (
      arith,
      Timed-le till end es h.2,
      (h.0 ip).0,
      (h.0 ip).1,
      allowed-le ip (cleanup now rate).0 es till end c'
          (rw (lookup-retain (stays now) ip rate.table d) k')
          (retain-Distinct (stays now) rate.table d) h.2,
    )

-- From the empty table and with a clock that does not run backwards and stays below 2 ^ 62 ns,
-- the calls for one address in a span of time let through at most the burst of 5 packets and one
-- for each 50 ms of the span, whatever calls for other addresses and collections are among them.
pub rate_bound :
    (ip start end : ℕ) (es : List Event)
    → Timed start end es
    → allowed ip init es * packet_cost ≤ max_tokens + (end - start)
rate_bound ip start end es h = allowed-le ip init es start end max_tokens (fresh refl refl) tt h
