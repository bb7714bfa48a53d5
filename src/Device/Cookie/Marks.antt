-- ===== src/Device/Cookie/Marks.antt =====
-- device/cookie.go: what `AddMacs` writes into a message.
use wgservermgr.Prelude.{
  ◌+◌, ◌-◌, ◌≤◌, ◌≡◌, refl, sym, ap, ◌∙◌, true, false, Option, none, some, ltb, length, subst, inl,
  inr, Bool-cases, arith,
}
use wgservermgr.Prelude.Bytes.{Bytes, take, drop, copy_at}
use wgservermgr.Prelude.Slices.{
  length-copy_at, take-copy_at, field-copy_at, copy_at-written, copy_at-last,
}
use wgservermgr.Mgmt.Time.{Time}
use wgservermgr.Device.Cookie.{
  CookiePrimitives, size128, is_stale, CookieChecker, CookieGenerator, init_checker, init_generator,
  add_macs,
}

-- The bytes before the MACs, and the first of them.
unfoldable pub body : Bytes → Bytes
body msg = take (length msg - size128 - size128) msg

unfoldable pub first_mac : Bytes → Bytes
first_mac msg = take size128 (drop (length msg - size128 - size128) msg)

-- The two sides of a public key.
pub record Matches (gen : CookieGenerator) (ck : CookieChecker) : Type 0 where
  pub mac1 : ck.mac1_key ≡ gen.mac1_key
  pub encryption : ck.encryption_key ≡ gen.encryption_key

module _ (c : CookiePrimitives) where
  pub init-Matches :
      (pk : Bytes) (gen : CookieGenerator) (ck : CookieChecker)
      → Matches (init_generator c pk gen) (init_checker c pk ck)
  unfolding init_generator init_checker
  init-Matches pk gen ck = record { mac1 = refl; encryption = refl }

  -- What `AddMacs` makes of a message that is long enough.
  pub record Marked (now : Time) (msg : Bytes) (gen gen' : CookieGenerator) (msg' : Bytes)
      : Type 0 where
    pub size : length msg' ≡ length msg
    pub same_body : body msg' ≡ body msg
    pub own_mac : first_mac msg' ≡ c.mac128 gen.mac1_key (body msg)
    pub next : gen' ≡ record gen { last_mac1 = first_mac msg'; has_last_mac1 = true }
    pub second_mac :
        is_stale now gen.cookie_set ≡ false
        → drop (length msg - size128) msg' ≡ c.mac128 gen.cookie (take (length msg - size128) msg')

  -- The message with its first MAC.
  with_mac : Bytes → CookieGenerator → Bytes
  with_mac msg gen = copy_at (length msg - size128 - size128) (c.mac128 gen.mac1_key (body msg)) msg

  length-with_mac : (msg : Bytes) (gen : CookieGenerator) → length (with_mac msg gen) ≡ length msg
  unfolding with_mac
  length-with_mac msg gen = length-copy_at _ _ msg

  with_mac-first_mac :
      (msg : Bytes) (gen : CookieGenerator)
      → 32 ≤ length msg
      → first_mac (with_mac msg gen) ≡ c.mac128 gen.mac1_key (body msg)
  unfolding first_mac with_mac
  with_mac-first_mac msg gen h =
      let n = length msg - size128 - size128 in
      let mac = c.mac128 gen.mac1_key (body msg) in
      let size = c.length-mac128 gen.mac1_key (body msg) in
      ap (λ k. take size128 (drop (k - size128 - size128) (copy_at n mac msg)))
        (length-copy_at n mac msg)
      ∙ ap (λ k. take k (drop n (copy_at n mac msg))) (sym size)
      ∙ copy_at-written n mac msg (omega (arith, size))

  with_mac-body : (msg : Bytes) (gen : CookieGenerator) → body (with_mac msg gen) ≡ body msg
  unfolding body with_mac
  with_mac-body msg gen =
      let n = length msg - size128 - size128 in
      let mac = c.mac128 gen.mac1_key (body msg) in
      ap (λ k. take (k - size128 - size128) (copy_at n mac msg)) (length-copy_at n mac msg)
      ∙ take-copy_at n n mac msg (omega arith)

  one_mac :
      (now : Time) (msg : Bytes) (gen : CookieGenerator)
      → 32 ≤ length msg
      → is_stale now gen.cookie_set ≡ true
      → Marked now msg gen
          (record gen { last_mac1 = c.mac128 gen.mac1_key (body msg); has_last_mac1 = true })
          (with_mac msg gen)
  unfolding with_mac
  one_mac now msg gen h stale = record {
    size = length-copy_at _ _ msg;
    same_body = with_mac-body msg gen;
    own_mac = with_mac-first_mac msg gen h;
    next = cc (with_mac-first_mac msg gen h);
    second_mac = λ fresh. absurd (ground arith);
  }

  two_macs :
      (now : Time) (msg : Bytes) (gen : CookieGenerator)
      → 32 ≤ length msg
      → Marked now msg gen
          (record gen { last_mac1 = c.mac128 gen.mac1_key (body msg); has_last_mac1 = true })
          (copy_at
            (length msg - size128)
            (c.mac128 gen.cookie (take (length msg - size128) (with_mac msg gen)))
            (with_mac msg gen))
  unfolding body first_mac
  two_macs now msg gen h =
      let m = length msg - size128 in
      let n = length msg - size128 - size128 in
      let one = with_mac msg gen in
      let mac = c.mac128 gen.cookie (take m one) in
      let width = c.length-mac128 gen.cookie (take m one) in
      let one_size : length one ≡ length msg = length-with_mac msg gen in
      let two_size : length (copy_at m mac one) ≡ length msg =
        length-copy_at m mac one ∙ one_size in
      let first : first_mac (copy_at m mac one) ≡ c.mac128 gen.mac1_key (body msg) =
        ap (λ k. take size128 (drop (k - size128 - size128) (copy_at m mac one))) two_size
        ∙ field-copy_at size128 n m mac one (omega arith)
        ∙ ap (λ k. take size128 (drop (k - size128 - size128) one)) (sym one_size)
        ∙ with_mac-first_mac msg gen h in
      record {
        size = two_size;
        same_body =
            ap (λ k. take (k - size128 - size128) (copy_at m mac one)) two_size
            ∙ take-copy_at n m mac one (omega arith)
            ∙ ap (λ k. take (k - size128 - size128) one) (sym one_size)
            ∙ with_mac-body msg gen;
        own_mac = first;
        next = cc first;
        second_mac = λ fresh.
            copy_at-last m mac one (omega (arith, width, one_size, h))
            ∙ ap (c.mac128 gen.cookie) (sym (take-copy_at m m mac one (omega arith)));
      }

  pub add_macs-Marked :
      (now : Time) (msg : Bytes) (gen : CookieGenerator)
      → 32 ≤ length msg
      → (gen' : CookieGenerator) × (msg' : Bytes) × (add_macs c now msg gen ≡ some (gen', msg'))
        × Marked now msg gen gen' msg'
  unfolding add_macs body with_mac
  add_macs-Marked now msg gen h =
      let long : ltb (length msg) (size128 + size128) ≡ false = ground arith in
      elim (Bool-cases (is_stale now gen.cookie_set)) [
        | inl stale ↦ (_, _, rw (add_macs, long, stale) refl, one_mac now msg gen h stale)
        | inr fresh ↦ (_, _, rw (add_macs, long, fresh) refl, two_macs now msg gen h)
      ]

  -- The same of a result that is at hand.
  unfoldable IsMarked : Time → Bytes → CookieGenerator → Option (CookieGenerator × Bytes) → Type 0
  IsMarked now msg gen none = Unit
  IsMarked now msg gen (some (gen', msg')) = Marked now msg gen gen' msg'

  pub add_macs-made :
      (now : Time) (msg : Bytes) (gen gen' : CookieGenerator) (msg' : Bytes)
      → 32 ≤ length msg
      → add_macs c now msg gen ≡ some (gen', msg')
      → Marked now msg gen gen' msg'
  unfolding IsMarked
  add_macs-made now msg gen gen' msg' h made =
      let (g, m, made', marked) = add_macs-Marked now msg gen h in
      subst (IsMarked now msg gen) (sym made' ∙ made) marked
