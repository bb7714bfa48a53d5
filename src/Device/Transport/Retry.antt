-- ===== src/Device/Transport/Retry.antt =====
-- device/timers.go: a handshake that gets no answer is tried again, and given up in the end.
use wgservermgr.Prelude.{
  ℕ, suc, ◌+◌, ◌-◌, ◌*◌, ◌%◌, ◌^◌, ◌≤◌, ◌≡◌, refl, sym, ap, ◌∙◌, Bool, true, false, not, ◌&&◌, ltb,
  Option, none, some, List, [], ◌∷◌, ◌++◌, length, arith, inl, inr, ◌⊎◌, if◌then◌else◌, subst,
  Bool-cases,
}
use wgservermgr.Prelude.Int.{pos, ltb_ℤ}
use wgservermgr.Prelude.Bytes.{Bytes}
use wgservermgr.Mgmt.Time
use wgservermgr.Device.Cookie.{CookieGenerator}
use wgservermgr.Device.Noise.Messages.{MessageInitiation}
use wgservermgr.Device.Noise.State.{Sent, sent, failed, waiting}
use wgservermgr.Device.Noise.Initiation.{create_message_initiation}
use wgservermgr.Device.Transport.Timers.{
  TimerName, set_timer, max_timer_handshakes, rekey_timeout, reject_after_time,
}
use wgservermgr.Device.Transport.State.{Transmission, Link, Host, Outside, timers_active, is_closed}
use wgservermgr.Device.Transport.Events.{
  del_of, mod_of, set_attempts, timers_any_authenticated_packet_sent,
  timers_any_authenticated_packet_traversal, timers_handshake_initiated,
}
use wgservermgr.Device.Transport.Send.{
  send_to, send_buffers, transmit_packet, transmit_initiation, initiate, send_handshake_initiation,
  mark_endpoint_src_for_clearing, flush_staged_packets,
}
use wgservermgr.Device.Transport.Expire.{expired_retransmit_handshake, expired, fire}
use wgservermgr.Device.Transport.Quiet.Steps.{Step}

abbrev attempts : Link → ℕ
attempts l = l.timers.handshake_attempts

abbrev pub retransmits : Link → Bool
retransmits l = l.timers.retransmit_handshake.is_pending

-- The attempts stay as they are, and at most `n` transmissions are made.
record Tried (n : ℕ) (l l' : Link) : Type 0 where
  same : attempts l' ≡ attempts l
  few : length l'.wire ≤ length l.wire + n

Tried-trans : (m n : ℕ) (a b c : Link) → Tried m a b → Tried n b c → Tried (m + n) a c
Tried-trans m n a b c s t = record { same = t.same ∙ s.same; few = omega (arith, s.few, t.few) }

silent : (l l' : Link) → attempts l' ≡ attempts l → l'.wire ≡ l.wire → Tried 0 l l'
silent l l' a w = record {
  same = a;
  few = subst (λ q. length q ≤ length l.wire + 0) (sym w) (omega arith);
}

if-Tried :
    (n : ℕ) (b : Bool) (l x y : Link) → Tried n l x → Tried n l y → Tried n l (if b then x else y)
if-Tried n true l x y s t = s
if-Tried n false l x y s t = t

Tried-widen : (m n : ℕ) (l l' : Link) → m ≤ n → Tried m l l' → Tried n l l'
Tried-widen m n l l' le t = record { same = t.same; few = omega (arith, t.few) }

length-snoc : (w : List Transmission) (x : Transmission) → length (w ++ (x ∷ [])) ≡ length w + 1
length-snoc [] x = refl
length-snoc (y ∷ w) x = omega (arith, length-snoc w x)

module _ (h : Host) (o : Outside) where
  send_to-Tried : (bs : List Bytes) (l : Link) (e : Option ℕ) → Tried 1 l (send_to o bs l e).0
  unfolding send_to
  send_to-Tried bs l none = Tried-widen 0 1 l l (omega arith) (silent l l refl refl)
  send_to-Tried bs l (some e) = record { same = refl; few = omega (arith, length-snoc l.wire _) }

  send_buffers-Tried : (bs : List Bytes) (l : Link) → Tried 1 l (send_buffers o bs l).0
  unfolding send_buffers
  send_buffers-Tried bs l = elim (Bool-cases (is_closed l.state)) [
    | inl e ↦ rw (send_buffers, e) (Tried-widen 0 1 l l (omega arith) (silent l l refl refl))
    | inr e ↦ rw (send_buffers, e) (send_to-Tried bs l l.endpoint)
  ]

  transmit_packet-Tried :
      (p : Option (CookieGenerator × Bytes)) (l : Link) → Tried 1 l (transmit_packet h o p l)
  unfolding transmit_packet timers_any_authenticated_packet_traversal
      timers_any_authenticated_packet_sent timers_handshake_initiated
  transmit_packet-Tried none l = Tried-widen 0 1 l l (omega arith) (silent l l refl refl)
  transmit_packet-Tried (some (generator, packet)) l =
      let l1 : Link = record l { cookie_generator = generator } in
      let l2 = timers_any_authenticated_packet_traversal h o l1 in
      let l3 = timers_any_authenticated_packet_sent h o l2 in
      let l4 = (send_buffers o (packet ∷ []) l3).0 in
      Tried-trans 0 1 l l1 _ (silent l l1 refl refl) (
        Tried-trans 0 1 l1 l2 _
          (if-Tried 0 (ltb 0 l1.persistent_keepalive_interval && timers_active h l1) l1 _ l1
            (silent l1 _ refl refl) (silent l1 l1 refl refl))
          (Tried-trans 0 1 l2 l3 _
            (if-Tried 0 (timers_active h l2) l2 _ l2 (silent l2 _ refl refl)
              (silent l2 l2 refl refl))
            (Tried-trans 1 0 l3 l4 _ (send_buffers-Tried (packet ∷ []) l3) (
              if-Tried 0 (timers_active h l4) l4 _ l4 (silent l4 _ refl refl)
                (silent l4 l4 refl refl)))))

  transmit_initiation-Tried :
      (made : Sent MessageInitiation) (l : Link) → Tried 1 l (transmit_initiation h o made l)
  unfolding transmit_initiation
  transmit_initiation-Tried (sent msg) l = transmit_packet-Tried _ l
  transmit_initiation-Tried failed l = Tried-widen 0 1 l l (omega arith) (silent l l refl refl)
  transmit_initiation-Tried waiting l = Tried-widen 0 1 l l (omega arith) (silent l l refl refl)

  retry-Tried : (l : Link) → Tried 1 l (send_handshake_initiation h o true l)
  unfolding send_handshake_initiation initiate
  retry-Tried l =
      let made = create_message_initiation h.primitives h.peer o.timestamp o.draws l.device in
      if-Tried 1 (ltb_ℤ (Time.sub o.now l.last_sent_handshake) (pos rekey_timeout)) l l _
        (Tried-widen 0 1 l l (omega arith) (silent l l refl refl))
        (Tried-trans 0 1 l (record l { last_sent_handshake = o.now; device = made.0 }) _
          (silent l _ refl refl) (transmit_initiation-Tried made.1 _))

  mark-Tried : (l : Link) → Tried 0 l (mark_endpoint_src_for_clearing l)
  unfolding mark_endpoint_src_for_clearing
  mark-Tried l = marked l l.endpoint
    where
      marked :
          (l : Link) (e : Option ℕ)
          → Tried 0 l
              (elim e as (λ x. Link) [ none ↦ l | some e ↦ record l { clear_src_on_tx = true } ])
      marked l none = silent l l refl refl
      marked l (some e) = silent l _ refl refl

  -- The callback gives up, or has made one more attempt with at most one transmission.
  Progress : Link → Link → Type 0
  Progress l l' =
      ((retransmits l' ≡ false) × (l'.wire ≡ l.wire))
      ⊎ ((attempts l' ≡ suc (attempts l))
          × (attempts l ≤ max_timer_handshakes)
          × (length l'.wire ≤ length l.wire + 1))

  if-Progress :
      (b : Bool) (l x y : Link)
      → (b ≡ true → Progress l x)
      → (b ≡ false → Progress l y)
      → Progress l (if b then x else y)
  if-Progress true l x y s t = s refl
  if-Progress false l x y s t = t refl

  given_up :
      (l : Link)
      → retransmits l ≡ false
      → (let l1 = if timers_active h l then del_of TimerName.send_keepalive l else l in
          let l2 = flush_staged_packets l1 in
          Progress l (
            if timers_active h l2 && not l2.timers.zero_key_material.is_pending
            then mod_of TimerName.zero_key_material o (reject_after_time * 3) l2
            else l2))
  unfolding Progress flush_staged_packets
  given_up l low = ground (arith, low)

  retransmit-Progress :
      (l : Link) → retransmits l ≡ false → Progress l (expired_retransmit_handshake h o l)
  unfolding expired_retransmit_handshake Progress
  retransmit-Progress l low =
      let l1 = set_attempts ((attempts l + 1) % 2 ^ 32) l in
      let l2 = mark_endpoint_src_for_clearing l1 in
      if-Progress (ltb max_timer_handshakes (attempts l)) l _ _ (λ e. given_up l low)
        (λ e.
          let t = Tried-trans 0 1 l1 l2 _ (mark-Tried l1) (retry-Tried l2) in
          inr (t.same ∙ ground (arith, e), ground (arith, e), omega (arith, t.few)))

  fire-Progress : (l : Link) → Progress l (fire h o TimerName.retransmit_handshake l)
  unfolding fire expired Progress
  fire-Progress l =
      if-Progress (not (retransmits l)) l l _ (λ e. inl (ground (arith, e), refl))
        (λ e.
          retransmit-Progress
            (record l {
              timers =
                  set_timer TimerName.retransmit_handshake
                    (record l.timers.retransmit_handshake { is_pending = false }) l.timers;
            })
            refl)

  fire_idle : (l : Link) → retransmits l ≡ false → fire h o TimerName.retransmit_handshake l ≡ l
  unfolding fire
  fire_idle l low = low_skips (retransmits l) l _ low
    where
      low_skips : (b : Bool) (x y : Link) → b ≡ false → (if not b then x else y) ≡ x
      low_skips true x y e = ground (arith, e)
      low_skips false x y e = refl

-- The event starts no handshake anew: it neither lowers the number of attempts nor sets the timer.
-- `SendHandshakeInitiation(false)`, which a queued packet may lead to, sets that number to 0.
pub record Apart (l l' : Link) : Type 0 where
  pub counted : attempts l ≤ attempts l'
  pub unset : retransmits l ≡ false → retransmits l' ≡ false

-- What a peer goes through up to some state, with the number of expiries of the timer and the
-- number of transmissions that they make. Other steps, the expiries of other timers among them, may
-- come between, where they start no handshake anew.
pub data Tries (h : Host) (end : Link) : ℕ → ℕ → Link → Type 0 where
  ends : Tries h end 0 0 end
  tries :
      (o : Outside) (n m : ℕ) (l : Link)
      → Tries h end n m (fire h o TimerName.retransmit_handshake l)
      → Tries h end
          (suc n)
          (length (fire h o TimerName.retransmit_handshake l).wire - length l.wire + m)
          l
  meets :
      (n m : ℕ) (l l' : Link) → Step h l l' → Apart l l' → Tries h end n m l' → Tries h end n m l
  expires :
      (o : Outside) (name : TimerName) (n m : ℕ) (l : Link)
      → (name ≡ TimerName.retransmit_handshake → ⊥)
      → Apart l (fire h o name l)
      → Tries h end n m (fire h o name l)
      → Tries h end n m l

module _ (h : Host) (end : Link) where
  Tries-idle :
      (n m : ℕ) (l : Link)
      → Tries h end n m l
      → retransmits l ≡ false
      → (retransmits end ≡ false) × (m ≡ 0)
  Tries-idle _ _ _ Tries.ends low = (low, refl)
  Tries-idle _ _ _ (Tries.tries o n m l t) low =
      let idle = fire_idle h o l low in
      let (low', none_more) = Tries-idle n m _ t (ap (λ (x : Link). retransmits x) idle ∙ low) in
      let same = ap (λ (x : Link). length x.wire) idle in (low', omega (arith, same, none_more))
  Tries-idle _ _ _ (Tries.meets n m l l' step apart t) low = Tries-idle n m l' t (apart.unset low)
  Tries-idle _ _ _ (Tries.expires o name n m l other apart t) low =
      Tries-idle n m _ t (apart.unset low)

  Tries-few :
      (n m : ℕ) (l : Link)
      → Tries h end n m l
      → 20 ≤ attempts l + n
      → 1 ≤ n
      → (retransmits end ≡ false) × (m ≤ 19 - attempts l)
  unfolding Progress
  Tries-few _ _ _ Tries.ends enough some_left = ground (arith, some_left)
  Tries-few _ _ _ (Tries.tries o n m l t) enough some_left =
      let l1 = fire h o TimerName.retransmit_handshake l in
      elim (fire-Progress h o l) [
        | inl (low, same) ↦
            let (low', none_more) = Tries-idle n m l1 t low in
            let wire = ap (λ (w : List Transmission). length w) same in
            (low', omega (arith, none_more, wire))
        | inr (more, few, once) ↦
            let (low', left) =
              Tries-few n m l1 t (omega (arith, more)) (omega (arith, more, few)) in
            (low', omega (arith, left, once, more, few))
      ]
  Tries-few _ _ _ (Tries.meets n m l l' step apart t) enough some_left =
      let counted = apart.counted in
      let (low, left) = Tries-few n m l' t (omega (arith, counted)) some_left in
      (low, omega (arith, counted, left))
  Tries-few _ _ _ (Tries.expires o name n m l other apart t) enough some_left =
      let counted = apart.counted in
      let (low, left) = Tries-few n m _ t (omega (arith, counted)) some_left in
      (low, omega (arith, counted, left))

-- A handshake is not tried for ever unless it is started anew: let its timer expire twenty times
-- or more, however late and whatever becomes of the messages, and let each step of the peer and
-- each expiry of another timer in between neither lower the number of attempts nor set that
-- timer. Then at the end the timer is not pending, and its expiries have made at most nineteen
-- transmissions.
pub fire-gives_up :
    (h : Host) (l end : Link) (n m : ℕ)
    → Tries h end n m l
    → 20 ≤ n
    → (retransmits end ≡ false) × (m ≤ 19)
fire-gives_up h l end n m t enough =
    let (low, left) = Tries-few h end n m l t (omega arith) (omega arith) in
    (low, omega (arith, left))
