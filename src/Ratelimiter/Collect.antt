-- ===== src/Ratelimiter/Collect.antt =====
-- ratelimiter/ratelimiter.go: the collection of idle entries cannot be noticed.
use wgservermgr.Prelude.{
  ℕ, ◌-◌, ◌≤◌, ◌<◌, ◌≡◌, refl, sym, ◌∙◌, ap, subst, Bool, true, ◌==◌, arith, inl, inr, Bool-cases,
  Option, none, some, ==_iff,
}
use wgservermgr.Prelude.Maps.{nat_key, lookup, Distinct, keep_if, lookup-retain, retain-Distinct}
use wgservermgr.Ratelimiter.Bucket.{
  Bucket, Bucket-later, refill, spend-eq, new_entry-eq, stays-eq, clock_limit,
}
use wgservermgr.Ratelimiter.Rate.{
  lookup-insert_same, Spent, bucket_step-Spent, new_entry-Spent, allow-Distinct, allow-other,
}
use wgservermgr.Ratelimiter.{
  init, Ratelimiter, RatelimiterEntry, Table, allow, allow_found, cleanup, stays, new_entry, spend,
}

-- The entries of the table are buckets, last used by `t`.
pub record Buckets (m : Table) (t : ℕ) : Type 0 where
  pub distinct : Distinct m
  pub bucket : (ip : ℕ) (e : RatelimiterEntry) → lookup ip m ≡ some e → (n : ℕ) × Bucket e n t

-- What a call of `Allow` shows: its answer, and the entry that it leaves.
abbrev pub Outcome : Type 0
Outcome = Bool × Option RatelimiterEntry

pub outcome : ℕ → Ratelimiter × Bool → Outcome
outcome ip r = (r.1, lookup ip r.0.table)

entry_outcome : ℕ → Option RatelimiterEntry → Outcome
entry_outcome now none = (true, some (new_entry now))
entry_outcome now (some e) = let (e', answer) = spend now e in (answer, some e')

outcome-allow :
    (ip now : ℕ) (rate : Ratelimiter)
    → outcome ip (allow ip now rate) ≡ entry_outcome now (lookup ip rate.table)
unfolding outcome allow entry_outcome
outcome-allow ip now rate = go (lookup ip rate.table)
  where
    go :
        (o : Option RatelimiterEntry) → outcome ip (allow_found ip now rate o) ≡ entry_outcome now o
    go none = ap (λ o. (true, o)) (lookup-insert_same ip (new_entry now) rate.table)
    go (some e) = ap (λ o. ((spend now e).1, o)) (lookup-insert_same ip (spend now e).0 rate.table)

after_outcome :
    (ip now : ℕ) (rate : Ratelimiter)
    → lookup ip (allow ip now rate).0.table ≡ (entry_outcome now (lookup ip rate.table)).1
unfolding outcome
after_outcome ip now rate = ap (λ (r : Outcome). r.1) (outcome-allow ip now rate)

some_injective : {x y : RatelimiterEntry} → some x ≡ some y → x ≡ y
some_injective h = cc

-- An entry that has been idle for more than a second is as good as none.
idle_outcome :
    (now : ℕ) (e : RatelimiterEntry) (n : ℕ)
    → Bucket e n now
    → now < clock_limit
    → 1_000_000_000 < now - e.last_time
    → entry_outcome now (some e) ≡ entry_outcome now none
unfolding entry_outcome
idle_outcome now e n b s h =
    rw (spend-eq now n e b s, new_entry-eq now) (ground (arith, b.capped, b.used))

collect_outcome :
    (now : ℕ → ℕ) (ip later : ℕ) (o : Option RatelimiterEntry)
    → ((e : RatelimiterEntry) → o ≡ some e → (n : ℕ) × Bucket e n (now ip))
    → now ip ≤ later
    → later < clock_limit
    → entry_outcome later (keep_if (stays now ip) o) ≡ entry_outcome later o
collect_outcome now ip later none v q s = refl
collect_outcome now ip later (some e) v q s = elim (Bool-cases (stays now ip e)) [
  | inl kept ↦ rw kept
  | inr gone ↦
      let (n, b) = v e refl in
      rw gone (
        sym (
          idle_outcome later e n (Bucket-later b q) s
            (ground (arith, stays-eq now ip e b.used (omega arith), b.used))))
]

-- Where the table holds buckets and the clock does not run backwards and stays below 2 ^ 62 ns, a
-- collection before a call of `Allow` changes neither the call's answer nor the entry that it
-- leaves.
pub allow-cleanup :
    (ip later : ℕ) (now : ℕ → ℕ) (rate : Ratelimiter) (t : ℕ)
    → Buckets rate.table t
    → t ≤ now ip
    → now ip ≤ later
    → later < clock_limit
    → outcome ip (allow ip later (cleanup now rate).0) ≡ outcome ip (allow ip later rate)
unfolding cleanup
allow-cleanup ip later now rate t v p q s =
    outcome-allow ip later (cleanup now rate).0
    ∙ ap (entry_outcome later) (lookup-retain (stays now) ip rate.table v.distinct)
    ∙ collect_outcome now ip later (lookup ip rate.table) bucket q s
    ∙ sym (outcome-allow ip later rate)
  where
    bucket : (e : RatelimiterEntry) → lookup ip rate.table ≡ some e → (n : ℕ) × Bucket e n (now ip)
    bucket e h = let (n, b) = v.bucket ip e h in (n, Bucket-later b p)

pub init-Buckets : (t : ℕ) → Buckets init.table t
init-Buckets t = record { distinct = tt; bucket = λ ip e h. cc }

entry_outcome-Bucket :
    (ip now : ℕ) (o : Option RatelimiterEntry)
    → ((e : RatelimiterEntry) → o ≡ some e → (n : ℕ) × Bucket e n now)
    → now < clock_limit
    → (e : RatelimiterEntry) → (entry_outcome now o).1 ≡ some e
    → (n : ℕ) × Bucket e n now
unfolding entry_outcome
entry_outcome-Bucket ip now none v s e h =
    let b = new_entry-Spent ip now s in
    (b.left, subst (λ x. Bucket x b.left now) (some_injective h) b.bucket)
entry_outcome-Bucket ip now (some e') v s e h =
    let (n, b) = v e' refl in
    let c = refill n e'.last_time now in
    let r : Spent now c (spend now e') =
      rw (spend-eq now n e' b s) (bucket_step-Spent now c (omega arith)) in
    (r.left, subst (λ x. Bucket x r.left now) (some_injective h) r.bucket)

-- `Allow` keeps every entry of the table a bucket, and each address at most once in it: no entry
-- ever holds fewer than 0 or more than 5 packets' tokens, where the clock does not run backwards
-- and stays below 2 ^ 62 ns.
pub allow-Buckets :
    (i now : ℕ) (rate : Ratelimiter) (t : ℕ)
    → Buckets rate.table t
    → t ≤ now
    → now < clock_limit
    → Buckets (allow i now rate).0.table now
allow-Buckets i now rate t v p s = record {
  distinct = allow-Distinct i now rate v.distinct;
  bucket = λ ip e h. elim (Bool-cases (i == ip)) [
    | inl same ↦ here ip e ((==_iff i ip).0 same) h
    | inr other ↦
        let (n, b) = v.bucket ip e (sym (allow-other i ip now rate other) ∙ h) in
        (n, Bucket-later b p)
  ];
}
  where
    before : (e : RatelimiterEntry) → lookup i rate.table ≡ some e → (n : ℕ) × Bucket e n now
    before e h = let (n, b) = v.bucket i e h in (n, Bucket-later b p)

    left_at_i : lookup i (allow i now rate).0.table ≡ (entry_outcome now (lookup i rate.table)).1
    left_at_i = after_outcome i now rate

    here :
        (ip : ℕ) (e : RatelimiterEntry)
        → i ≡ ip
        → lookup ip (allow i now rate).0.table ≡ some e
        → (n : ℕ) × Bucket e n now
    here ip e same h =
        entry_outcome-Bucket i now (lookup i rate.table) before s e
          (sym left_at_i ∙ ap (λ j. lookup j (allow i now rate).0.table) same ∙ h)

-- `cleanup`, which only removes entries, keeps every entry of the table a bucket of 0 to 5
-- packets' tokens, and each address at most once in it.
pub cleanup-Buckets :
    (now : ℕ → ℕ) (rate : Ratelimiter) (t : ℕ)
    → Buckets rate.table t
    → Buckets (cleanup now rate).0.table t
unfolding cleanup
cleanup-Buckets now rate t v = record {
  distinct = retain-Distinct (stays now) rate.table v.distinct;
  bucket = λ ip e h. v.bucket ip e (
      kept (stays now ip) (lookup ip rate.table) e
        (sym (lookup-retain (stays now) ip rate.table v.distinct) ∙ h));
}
  where
    kept :
        (p : RatelimiterEntry → Bool) (o : Option RatelimiterEntry) (e : RatelimiterEntry)
        → keep_if p o ≡ some e
        → o ≡ some e
    kept p none e h = h
    kept p (some x) e h = ground arith
