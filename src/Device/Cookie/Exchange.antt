-- ===== src/Device/Cookie/Exchange.antt =====
-- device/cookie.go: the MACs that one side adds the other accepts, and with a cookie both.
use wgservermgr.Prelude.{
  ℕ, ◌+◌, ◌-◌, ◌≤◌, ◌≡◌, refl, sym, ap, ◌∙◌, Bool, true, false, Option, none, some, ltb, length,
  subst, inl, inr, Bool-cases, arith,
}
use wgservermgr.Prelude.Bytes.{Bytes, take, drop, bytes_eq_iff}
use wgservermgr.Mgmt.Time.{Time}
use wgservermgr.Device.Noise.Messages.{MessageCookieReply}
use wgservermgr.Device.Cookie.{
  CookiePrimitives, size128, is_stale, CookieChecker, CookieGenerator, check_mac1, check_mac2,
  ReplyDraws, create_reply, seal_reply, consume_reply, add_macs,
}
use wgservermgr.Device.Cookie.Marks.{
  body, first_mac, Matches, Marked, add_macs-Marked, add_macs-made,
}

module _ (c : CookiePrimitives) where
  check_mac1-Marked :
      (now : Time) (msg msg' : Bytes) (gen gen' : CookieGenerator) (ck : CookieChecker)
      → 32 ≤ length msg
      → ck.mac1_key ≡ gen.mac1_key
      → Marked c now msg gen gen' msg'
      → check_mac1 c ck msg' ≡ some true
  unfolding check_mac1 body first_mac
  check_mac1-Marked now msg msg' gen gen' ck h key m =
      let size = m.size in
      let long : ltb (length msg') (size128 + size128) ≡ false = ground arith in
      let same : c.mac128 ck.mac1_key (body msg') ≡ first_mac msg' =
        ap (λ k. c.mac128 k (body msg')) key
        ∙ ap (c.mac128 gen.mac1_key) m.same_body
        ∙ sym m.own_mac in
      rw (check_mac1, long) (ap some ((bytes_eq_iff _ _).1 same))

  check_mac2-Marked :
      (now at : Time) (msg msg' src : Bytes) (gen gen' : CookieGenerator) (ck : CookieChecker)
      → 32 ≤ length msg
      → is_stale now gen.cookie_set ≡ false
      → is_stale at ck.secret_set ≡ false
      → gen.cookie ≡ c.mac128 ck.secret src
      → Marked c now msg gen gen' msg'
      → check_mac2 c at ck msg' src ≡ some true
  unfolding check_mac2
  check_mac2-Marked now at msg msg' src gen gen' ck h fresh fresh' cookie m =
      let size = m.size in
      let long : ltb (length msg') size128 ≡ false = ground arith in
      let same : c.mac128 (c.mac128 ck.secret src) (take (length msg' - size128) msg')
          ≡ drop (length msg' - size128) msg' =
        ap (λ k. c.mac128 k (take (length msg' - size128) msg')) (sym cookie)
        ∙ ap (λ k. c.mac128 gen.cookie (take (k - size128) msg')) size
        ∙ sym (m.second_mac fresh)
        ∙ ap (λ k. drop (k - size128) msg') (sym size) in
      rw (check_mac2, fresh', long) (ap some ((bytes_eq_iff _ _).1 same))

  -- `AddMacs` into a message of at least 32 bytes succeeds, keeps its length and all but the last
  -- 32 bytes, and a checker for the same public key accepts its first mac.
  pub add_macs-check_mac1 :
      (now : Time) (msg : Bytes) (gen : CookieGenerator) (ck : CookieChecker)
      → 32 ≤ length msg
      → Matches gen ck
      → (gen' : CookieGenerator) × (msg' : Bytes) × (add_macs c now msg gen ≡ some (gen', msg'))
        × (length msg' ≡ length msg)
        × (body msg' ≡ body msg)
        × (check_mac1 c ck msg' ≡ some true)
  add_macs-check_mac1 now msg gen ck h matches =
      let (gen', msg', made, m) = add_macs-Marked c now msg gen h in
      (
        gen',
        msg',
        made,
        m.size,
        m.same_body,
        check_mac1-Marked now msg msg' gen gen' ck h matches.mac1 m,
      )

  -- What a reply has, where there is one.
  unfoldable pub Replied :
      Bytes → Bytes → CookieChecker → Option (CookieChecker × Option MessageCookieReply) → Type 0
  Replied msg src ck none = Unit
  Replied msg src ck (some (ck', none)) = Unit
  Replied msg src ck (some (ck', some reply)) =
      (ck'.mac1_key ≡ ck.mac1_key)
      × (reply.cookie
          ≡ c.seal_x ck.encryption_key reply.nonce (c.mac128 ck'.secret src) (first_mac msg))

  seal_reply-Replied :
      (draws : ReplyDraws) (msg : Bytes) (recv : ℕ) (src : Bytes) (ck ck₀ : CookieChecker)
      → ck.mac1_key ≡ ck₀.mac1_key
      → ck.encryption_key ≡ ck₀.encryption_key
      → Replied msg src ck₀ (seal_reply c draws msg recv src ck)
  unfolding Replied seal_reply first_mac
  seal_reply-Replied draws msg recv src ck ck₀ mac1 encryption = elim (Bool-cases draws.nonce_ok) [
    | inr bad ↦ rw bad tt
    | inl ok ↦ elim (Bool-cases (ltb (length msg) (size128 + size128))) [
      | inl short ↦ rw (ok, short) tt
      | inr long ↦ rw (ok, long) (mac1, cc encryption)
    ]
  ]

  create_reply-Replied :
      (draws : ReplyDraws) (msg : Bytes) (recv : ℕ) (src : Bytes) (ck : CookieChecker)
      → Replied msg src ck (create_reply c draws msg recv src ck)
  unfolding Replied create_reply seal_reply
  create_reply-Replied draws msg recv src ck =
      elim (Bool-cases (is_stale draws.since ck.secret_set)) [
        | inr fresh ↦ rw fresh (seal_reply-Replied draws msg recv src ck ck refl refl)
        | inl stale ↦ elim (Bool-cases draws.secret_ok) [
          | inr bad ↦ rw (stale, bad) tt
          | inl ok ↦ rw (stale, ok) (seal_reply-Replied draws msg recv src _ ck refl refl)
        ]
      ]

  -- The cookie that comes back is the one of the source.
  consume_reply-cookie :
      (now : Time) (reply : MessageCookieReply) (gen : CookieGenerator) (key cookie mac : Bytes)
      → gen.has_last_mac1 ≡ true
      → gen.last_mac1 ≡ mac
      → gen.encryption_key ≡ key
      → reply.cookie ≡ c.seal_x key reply.nonce cookie mac
      → consume_reply c now reply gen ≡ (record gen { cookie_set = now; cookie = cookie }, true)
  unfolding consume_reply
  consume_reply-cookie now reply gen key cookie mac has last same sealed =
      let opened : c.unseal_x gen.encryption_key reply.nonce reply.cookie gen.last_mac1
          ≡ some cookie =
        rw (sealed, last, same) (c.unseal_x-seal_x key reply.nonce cookie mac) in
      rw (has, opened) (cc has)

  reply-Replied :
      (msg src : Bytes) (ck ck' : CookieChecker) (reply : MessageCookieReply)
      → Replied msg src ck (some (ck', some reply))
      → (ck'.mac1_key ≡ ck.mac1_key)
        × (reply.cookie
            ≡ c.seal_x ck.encryption_key reply.nonce (c.mac128 ck'.secret src) (first_mac msg))
  unfolding Replied
  reply-Replied msg src ck ck' reply h = h

  -- Let the generator and the checker stand for one public key. When the macs of a message of at
  -- least 32 bytes lead to a reply, `ConsumeReply` accepts it; while the cookie and the secret
  -- are fresh, `AddMacs` then writes into any next such message the two macs that `CheckMAC1`
  -- and, for the same source, `CheckMAC2` accept.
  pub cookie-exchange :
      (gen gen' : CookieGenerator) (ck ck' : CookieChecker) (msg msg' msg2 src : Bytes) (recv : ℕ)
      (draws : ReplyDraws) (reply : MessageCookieReply) (first taken second at : Time)
      → Matches gen ck
      → 32 ≤ length msg
      → 32 ≤ length msg2
      → add_macs c first msg gen ≡ some (gen', msg')
      → create_reply c draws msg' recv src ck ≡ some (ck', some reply)
      → is_stale second taken ≡ false
      → is_stale at ck'.secret_set ≡ false
      → (let (gen2, accepted) = consume_reply c taken reply gen' in
          (accepted ≡ true)
          × (gen3 : CookieGenerator) × (msg3 : Bytes) × (add_macs c second msg2 gen2
              ≡ some (gen3, msg3))
          × (check_mac1 c ck' msg3 ≡ some true)
          × (check_mac2 c at ck' msg3 src ≡ some true))
  cookie-exchange gen gen' ck ck' msg msg' msg2 src recv draws reply first taken second at matches h
        h2 made replied fresh fresh' =
      let m = add_macs-made c first msg gen gen' msg' h made in
      let (mac1, cookie) =
        reply-Replied msg' src ck ck' reply
          (subst (Replied msg' src ck) replied (create_reply-Replied draws msg' recv src ck)) in
      let consumed =
        consume_reply-cookie taken reply gen' ck.encryption_key (c.mac128 ck'.secret src)
          (first_mac msg') (ap (λ (g : CookieGenerator). g.has_last_mac1) m.next)
          (ap (λ (g : CookieGenerator). g.last_mac1) m.next)
          (ap (λ (g : CookieGenerator). g.encryption_key) m.next ∙ sym matches.encryption) cookie in
      let gen2 = (consume_reply c taken reply gen').0 in
      let (gen3, msg3, made3, m3) = add_macs-Marked c second msg2 gen2 h2 in
      (
        ap (λ r. r.1) consumed,
        gen3,
        msg3,
        made3,
        check_mac1-Marked second msg2 msg3 gen2 gen3 ck' h2
            (mac1
              ∙ matches.mac1
              ∙ sym (ap (λ (g : CookieGenerator). g.mac1_key) m.next)
              ∙ sym (ap (λ (r : CookieGenerator × Bool). r.0.mac1_key) consumed))
            m3,
        check_mac2-Marked second at msg2 msg3 src gen2 gen3 ck' h2
            (ap (λ (r : CookieGenerator × Bool). is_stale second r.0.cookie_set) consumed ∙ fresh)
            fresh' (ap (λ (r : CookieGenerator × Bool). r.0.cookie) consumed) m3,
      )
