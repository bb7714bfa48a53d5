-- ===== src/Device/Transport/Guarded.antt =====
-- device/receive.go: which messages of a handshake the device takes up.
use wgservermgr.Prelude.{
  ℕ, suc, ◌/◌, ◌≤◌, ◌≡◌, ◌⊎◌, refl, ap, ◌∙◌, Bool, true, false, not, ◌&&◌, Option, none, some, List,
  [], ◌∷◌, ◌++◌, ◌==◌, leb, length, arith, inl, inr, Bool-cases, if◌then◌else◌, subst,
}
use wgservermgr.Prelude.Bytes.{Bytes}
use wgservermgr.Ratelimiter.{allow}
use wgservermgr.Device.Cookie.{CookieChecker, check_mac1, check_mac2}
use wgservermgr.Device.Noise.Messages.{
  MessageCookieReply, message_initiation_type, message_response_type, message_cookie_reply_type,
}
use wgservermgr.Device.Transport.State.{Host, Outside}
use wgservermgr.Device.Transport.Handshaking.{
  Node, Arrival, queue_handshake_size, is_under_load, reply_with, send_handshake_cookie, limit,
  guard_load, guard_mac1, admitted, handle_handshake,
}

-- The device and its peers are as they were, and at most one cookie was sent.
pub record Untaken (n n' : Node) : Type 0 where
  pub device : n'.device ≡ n.device
  pub links : n'.links ≡ n.links
  pub replies : length n'.replies ≤ suc (length n.replies)

length-snoc : (rs : List (ℕ × Bytes)) (r : ℕ × Bytes) → length (rs ++ (r ∷ [])) ≡ suc (length rs)
length-snoc [] r = refl
length-snoc (q ∷ rs) r = ap suc (length-snoc rs r)

module _ (h : Host) (o : Outside) (a : Arrival) where
  -- Both MACs are right for the source, whom the limiter lets through.
  pub Passes : Node → Type 0
  Passes n =
      (check_mac2 h.cookies o.now n.checker a.packet a.dst_bytes ≡ some true)
      × ((allow a.dst_ip a.limiter_now n.limiter).1 ≡ true)

  reply_with-Untaken :
      (r : Option (CookieChecker × Option MessageCookieReply)) (n : Node)
      → Untaken n (reply_with h o a r n)
  unfolding reply_with
  reply_with-Untaken none n = record { device = refl; links = refl; replies = omega arith }
  reply_with-Untaken (some (checker, none)) n = record {
    device = refl;
    links = refl;
    replies = omega arith;
  }
  reply_with-Untaken (some (checker, some reply)) n = record {
    device = refl;
    links = refl;
    replies = omega (arith, length-snoc n.replies _);
  }

  -- The message is refused, or the second MAC and the limiter let it through.
  guard_load-cases :
      (m : Option Bool) (n : Node)
      → (let (n', go_on) = guard_load h o a m n in
          ((go_on ≡ false) × Untaken n n')
          ⊎ ((m ≡ some true) × ((allow a.dst_ip a.limiter_now n.limiter).1 ≡ true)))
  unfolding guard_load limit send_handshake_cookie
  guard_load-cases (some true) n = elim (Bool-cases (allow a.dst_ip a.limiter_now n.limiter).1) [
    | inl let_through ↦ inr (refl, let_through)
    | inr held ↦ inl (held, record { device = refl; links = refl; replies = omega arith })
  ]
  guard_load-cases (some false) n = inl (refl, reply_with-Untaken _ n)
  guard_load-cases none n =
      inl (refl, record { device = refl; links = refl; replies = omega arith })

  -- The nodes differ in `under_load_until` alone.
  record Alike (n n1 : Node) : Type 0 where
    device : n1.device ≡ n.device
    links : n1.links ≡ n.links
    replies : n1.replies ≡ n.replies
    checker : n1.checker ≡ n.checker
    limiter : n1.limiter ≡ n.limiter

  if-Alike :
      (b : Bool) (n : Node) (x y : Node × Bool)
      → Alike n x.0
      → Alike n y.0
      → Alike n (if◌then◌else◌ {A = Node × Bool} b x y).0
  if-Alike true n x y s t = s
  if-Alike false n x y s t = t

  is_under_load-Alike : (n : Node) → Alike n (is_under_load h o a.queued n).0
  unfolding is_under_load
  is_under_load-Alike n =
      if-Alike (leb (queue_handshake_size / 8) a.queued) n _ _
        (record { device = refl; links = refl; replies = refl; checker = refl; limiter = refl })
        (record { device = refl; links = refl; replies = refl; checker = refl; limiter = refl })

  -- The checks under load, and none without.
  loaded-cases :
      (loaded : Bool) (n n1 : Node)
      → Alike n n1
      → (let r =
            if◌then◌else◌ {A = Node × Bool} loaded
              (guard_load h o a (check_mac2 h.cookies o.now n1.checker a.packet a.dst_bytes) n1)
              (n1, true) in
          ((r.1 ≡ false) × Untaken n r.0) ⊎ ((loaded ≡ false) ⊎ Passes n))
  unfolding Passes
  loaded-cases false n n1 same = inr (inl refl)
  loaded-cases true n n1 same =
      elim (guard_load-cases (check_mac2 h.cookies o.now n1.checker a.packet a.dst_bytes) n1) [
        | inl (held, u) ↦ inl (
          held,
          record {
            device = u.device ∙ same.device;
            links = u.links ∙ same.links;
            replies =
                subst
                  (λ rs.
                    length
                      (guard_load h o a (check_mac2 h.cookies o.now n1.checker a.packet a.dst_bytes)
                        n1).0.replies
                    ≤ suc (length rs))
                  same.replies u.replies;
          },
        )
        | inr (mac2, let_through) ↦ inr (
            inr (
              subst (λ c. check_mac2 h.cookies o.now c a.packet a.dst_bytes ≡ some true)
                  same.checker mac2,
              subst (λ r. (allow a.dst_ip a.limiter_now r).1 ≡ true) same.limiter let_through,
            ))
      ]

  -- What a check of the first MAC leads to.
  Guards : Option Bool → Node → Node × Bool → Type 0
  Guards m n (n', go_on) =
      ((go_on ≡ false) × Untaken n n')
      ⊎ ((m ≡ some true) × (((is_under_load h o a.queued n).1 ≡ false) ⊎ Passes n))

  guard_mac1-Guards : (m : Option Bool) (n : Node) → Guards m n (guard_mac1 h o a m n)
  unfolding guard_mac1 Guards
  guard_mac1-Guards (some true) n =
      let u = is_under_load h o a.queued n in
      elim (loaded-cases u.1 n u.0 (is_under_load-Alike n)) [
        | inl refused ↦ inl refused
        | inr taken ↦ inr (refl, taken)
      ]
  guard_mac1-Guards (some false) n =
      inl (refl, record { device = refl; links = refl; replies = omega arith })
  guard_mac1-Guards none n =
      inl (refl, record { device = refl; links = refl; replies = omega arith })

  -- What the device does with the message.
  pub Handled : Node → Node → Type 0
  Handled n n' =
      Untaken n n'
      ⊎ ((check_mac1 h.cookies n.checker a.packet ≡ some true)
          × (((is_under_load h o a.queued n).1 ≡ false) ⊎ Passes n))

  admitted-Handled :
      (n : Node) (r : Node × Bool)
      → Guards (check_mac1 h.cookies n.checker a.packet) n r
      → Handled n (admitted h o a r)
  unfolding Guards Handled admitted
  admitted-Handled n (n', false) (inl (held, u)) = inl u
  admitted-Handled n (n', true) (inl (held, u)) = ground (arith, held)
  admitted-Handled n r (inr taken) = inr taken

  if-Handled :
      (b : Bool) (n x y : Node)
      → Handled n x
      → Handled n y
      → Handled n (if◌then◌else◌ {A = Node} b x y)
  if-Handled true n x y s t = s
  if-Handled false n x y s t = t

  -- A message that is not a cookie reply changes the device or a peer only if its first MAC is
  -- right and, under load, also its second one for its source, whom the limiter lets through
  -- then. Else at most one cookie is sent.
  pub handle_handshake-Handled :
      (n : Node)
      → (a.msg_type == message_cookie_reply_type) ≡ false
      → Handled n (handle_handshake h o a n)
  unfolding handle_handshake Handled
  handle_handshake-Handled n other =
      rw (handle_handshake, other)
        (if-Handled
          (not (a.msg_type == message_initiation_type) && not (a.msg_type == message_response_type))
          n n _ (inl (record { device = refl; links = refl; replies = omega arith }))
          (admitted-Handled n _ (guard_mac1-Guards _ n)))
