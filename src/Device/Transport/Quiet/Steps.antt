-- ===== src/Device/Transport/Quiet/Steps.antt =====
-- device/timers.go and peer.go: the steps of a peer, and how quiet a stopped peer stays.
use wgservermgr.Prelude.{
  ℕ, suc, ◌+◌, ◌≤◌, ◌%◌, ◌^◌, ◌≡◌, refl, sym, ap, ◌∙◌, Bool, true, false, not, ◌&&◌, ltb, Option,
  none, some, List, arith, inl, inr, Bool-cases, if◌then◌else◌,
}
use wgservermgr.Prelude.Bytes.{Bytes}
use wgservermgr.Device.Noise.State.{Peer, Device}
use wgservermgr.Device.Noise.Agreement.{update_self}
use wgservermgr.Device.Transport.Timers.{
  Timers, TimerName, timer_of, set_timer, max_timer_handshakes,
}
use wgservermgr.Device.Transport.State.{
  Element, DeviceState, Link, Host, Outside, is_running, timers_active, is_closed,
}
use wgservermgr.Device.Transport.Events.{del_of, mod_of, set_attempts}
use wgservermgr.Device.Transport.Cipher.{Inbound}
use wgservermgr.Device.Transport.Packets.{AllowedIps}
use wgservermgr.Device.Transport.Send.{
  send_keepalive, send_staged_packets, mark_endpoint_src_for_clearing, flush_staged_packets,
}
use wgservermgr.Device.Transport.Expire.{
  zero_and_flush_link, expired_retransmit_handshake, expired_send_keepalive, expired_new_handshake,
  expired_zero_key_material, expired_persistent_keepalive, expired, fire,
}
use wgservermgr.Device.Transport.Life.{
  start, stop, read_packets, send_container, sequential_send, set_running,
}
use wgservermgr.Device.Transport.Receive.{receive_container}
use wgservermgr.Device.Transport.Handshaking.{Arrival, answer_initiation, take_response}
use wgservermgr.Device.Transport.Quiet.Handshakes.{answer_initiation-Tame, take_response-Tame}
use wgservermgr.Device.Transport.Steady.{Idle, bit_of, pending_count}
use wgservermgr.Device.Transport.Quiet.{
  Tame, Tame-refl, Tame-trans, untimed-Tame, if-Tame, active-Tame, send_keepalive-Tame,
  send_staged_packets-Tame,
}
use wgservermgr.Device.Transport.Quiet.Packets.{
  initiation, zero_and_flush_link-Tame, flags-Tame, read_packets-Tame, next_container-Tame,
  send_container-Tame, receive_container-Tame,
}

module _ (h : Host) (o : Outside) where
  mark-Tame : (l : Link) → Tame h l (mark_endpoint_src_for_clearing l)
  unfolding mark_endpoint_src_for_clearing
  mark-Tame l = marked l l.endpoint
    where
      marked :
          (l : Link) (e : Option ℕ)
          → Tame h l
              (elim e as (λ x. Link) [ none ↦ l | some e ↦ record l { clear_src_on_tx = true } ])
      marked l none = Tame-refl h l
      marked l (some e) = untimed-Tame h l _ refl refl

  attempts-Tame : (n : ℕ) (l : Link) → Tame h l (set_attempts n l)
  attempts-Tame n l =
      flags-Tame h o l n l.timers.need_another_keepalive l.timers.sent_last_minute_handshake

  retransmit-Tame : (l : Link) → Tame h l (expired_retransmit_handshake h o l)
  unfolding expired_retransmit_handshake flush_staged_packets
  retransmit-Tame l =
      let l1 = if timers_active h l then del_of TimerName.send_keepalive l else l in
      let l2 = flush_staged_packets l1 in
      let l3 = set_attempts ((l.timers.handshake_attempts + 1) % 2 ^ 32) l in
      let l4 = mark_endpoint_src_for_clearing l3 in
      if-Tame h (ltb max_timer_handshakes l.timers.handshake_attempts) l _ _
        (Tame-trans h l l1 _ (active-Tame h (timers_active h l) _ l (λ e. e)) (
          Tame-trans h l1 l2 _ (untimed-Tame h l1 l2 refl refl) (
            active-Tame h (timers_active h l2 && not l2.timers.zero_key_material.is_pending) _ l2
              (λ e. ground (arith, e)))))
        (Tame-trans h l l3 _ (attempts-Tame _ l)
          (Tame-trans h l3 l4 _ (mark-Tame l3) (initiation h o true l4)))

  send_keepalive-expired : (l : Link) → Tame h l (expired_send_keepalive h o l)
  unfolding expired_send_keepalive
  send_keepalive-expired l =
      let l1 = send_keepalive h o l in
      let l2 : Link = record l1 { timers = record l1.timers { need_another_keepalive = false } } in
      Tame-trans h l l1 _ (send_keepalive-Tame h o l) (
        if-Tame h l1.timers.need_another_keepalive l1 _ l1
          (Tame-trans h l1 l2 _
            (flags-Tame h o l1 l1.timers.handshake_attempts false
              l1.timers.sent_last_minute_handshake)
            (active-Tame h (timers_active h l2) _ l2 (λ e. e)))
          (Tame-refl h l1))

  expired-Tame : (name : TimerName) (l : Link) → Tame h l (expired h o name l)
  unfolding expired expired_new_handshake expired_zero_key_material expired_persistent_keepalive
  expired-Tame TimerName.retransmit_handshake l = retransmit-Tame l
  expired-Tame TimerName.send_keepalive l = send_keepalive-expired l
  expired-Tame TimerName.new_handshake l = Tame-trans h l _ _ (mark-Tame l) (initiation h o false _)
  expired-Tame TimerName.zero_key_material l = zero_and_flush_link-Tame h o l
  expired-Tame TimerName.persistent_keepalive l =
      if-Tame h (ltb 0 l.persistent_keepalive_interval) l _ l (send_keepalive-Tame h o l)
        (Tame-refl h l)

  -- A pending timer that no longer is.
  lowered :
      (name : TimerName) (t : Timers)
      → (timer_of name t).is_pending ≡ true
      → 1 + pending_count (set_timer name (record (timer_of name t) { is_pending = false }) t)
        ≤ pending_count t
  lowered TimerName.retransmit_handshake t e = ground (arith, e)
  lowered TimerName.send_keepalive t e = ground (arith, e)
  lowered TimerName.new_handshake t e = ground (arith, e)
  lowered TimerName.zero_key_material t e = ground (arith, e)
  lowered TimerName.persistent_keepalive t e = ground (arith, e)

  set_late :
      (name : TimerName) (d : ℕ) (l : Link)
      → pending_count (mod_of name o d l).timers ≤ suc (pending_count l.timers)
  set_late TimerName.retransmit_handshake d l = ground arith
  set_late TimerName.send_keepalive d l = ground arith
  set_late TimerName.new_handshake d l = ground arith
  set_late TimerName.zero_key_material d l = ground arith
  set_late TimerName.persistent_keepalive d l = ground arith

  -- The expiry of a timer of a stopped peer uses it up.
  expired-fewer :
      (name : TimerName) (l : Link)
      → is_running h l ≡ false
      → bit_of (timer_of name l.timers).is_pending + pending_count (fire h o name l).timers
        ≤ pending_count l.timers
  unfolding fire
  expired-fewer name l r = elim (Bool-cases (timer_of name l.timers).is_pending) [
    | inr low ↦ rw (fire, low) (omega arith)
    | inl high ↦
        let l1 : Link = record l {
          timers = set_timer name (record (timer_of name l.timers) { is_pending = false }) l.timers;
        } in
        let few = (expired-Tame name l1).idle r in
        let one = lowered name l.timers high in rw (fire, high) (omega (arith, few, one))
  ]

  pub fire-running : (name : TimerName) (l : Link) → is_running h (fire h o name l) ≡ is_running h l
  unfolding fire
  fire-running name l = kept (not (timer_of name l.timers).is_pending)
    where
      kept :
          (b : Bool)
          → is_running h (
              if b
              then l
              else expired h o name (record l {
                timers =
                    set_timer name
                      (record (timer_of name l.timers) { is_pending = false })
                      l.timers;
              }))
            ≡ is_running h l
      kept true = refl
      kept false = (expired-Tame name _).running

-- A step of the peer: its start and its stop, packets from the TUN device and from the socket, the
-- sender, the messages of a handshake, and the changes that the device makes. The sender may have
-- found the peer running before a stop, and the same goes for packets that were staged. Of what
-- the handshake of another peer or of this one does to the device, it only matters that the peer
-- runs if it did.
pub data Step (h : Host) : Link → Link → Type 0 where
  starts : (o : Outside) (l : Link) → Step h l (start h o l)
  stops : (o : Outside) (l : Link) → Step h l (stop h o l)
  reads : (o : Outside) (packets : List Bytes) (l : Link) → Step h l (read_packets h o packets l)
  sends : (o : Outside) (l : Link) → Step h l (sequential_send h o l)
  sends_late :
      (o : Outside) (elems : List Element) (l : Link) → Step h l (send_container h o elems l)
  goes_on : (o : Outside) (l : Link) → Step h l (send_staged_packets h o l)
  receives :
      (o : Outside) (table : AllowedIps) (elems : List (ℕ × Inbound)) (l : Link)
      → Step h l (receive_container h o table elems l).0
  keeps_alive : (o : Outside) (l : Link) → Step h l (send_keepalive h o l)
  answers : (o : Outside) (a : Arrival) (l : Link) → Step h l (answer_initiation h o a h l)
  takes : (o : Outside) (a : Arrival) (l : Link) → Step h l (take_response h o a h l)
  becomes : (state : DeviceState) (l : Link) → Step h l (record l { state = state })
  configures : (n : ℕ) (l : Link) → Step h l (record l { persistent_keepalive_interval = n })
  shakes_hands :
      (d : Device) (l : Link)
      → (d.peers h.peer).is_running ≡ is_running h l
      → Step h l (record l { device = d })

-- Whether the expiry of a timer runs its callback while the peer is stopped.
abbrev pub runs_stopped : Host → TimerName → Link → ℕ
runs_stopped h name l = if is_running h l then 0 else bit_of (timer_of name l.timers).is_pending

-- The steps of a peer, with the number of timers that are set late, by a call that found the peer
-- active before, and the number of callbacks that run while the peer is stopped.
pub data Steps (h : Host) (a : Link) : ℕ → ℕ → Link → Type 0 where
  new : Steps h a 0 0 a
  next : (n e : ℕ) (b c : Link) → Steps h a n e b → Step h b c → Steps h a n e c
  fires :
      (n e : ℕ) (b : Link) (o : Outside) (name : TimerName)
      → Steps h a n e b
      → Steps h a n (runs_stopped h name b + e) (fire h o name b)
  sets_late :
      (n e : ℕ) (b : Link) (o : Outside) (name : TimerName) (d : ℕ)
      → Steps h a n e b
      → Steps h a (suc n) e (mod_of name o d b)

-- What the late sets account for.
record Quiet (h : Host) (n e : ℕ) (l : Link) : Type 0 where
  ran : e ≤ n
  left : is_running h l ≡ false → pending_count l.timers + e ≤ n

Tame-Quiet : (h : Host) (n e : ℕ) (a b : Link) → Tame h a b → Quiet h n e a → Quiet h n e b
Tame-Quiet h n e a b t q = record {
  ran = q.ran;
  left = λ r.
      let stopped = sym t.running ∙ r in
      let few = t.idle stopped in let before = q.left stopped in omega (arith, few, before);
}

module _ (h : Host) (n e : ℕ) (o : Outside) where
  if-Quiet :
      (b : Bool) (x y : Link) → Quiet h n e x → Quiet h n e y → Quiet h n e (if b then x else y)
  if-Quiet true x y s t = s
  if-Quiet false x y s t = t

  set_running-running : (b : Bool) (l : Link) → is_running h (set_running h b l) ≡ b
  set_running-running b l = ap (λ (p : Peer). p.is_running) (update_self l.device.peers h.peer _)

  start-Quiet : (l : Link) → Quiet h n e l → Quiet h n e (start h o l)
  unfolding start
  start-Quiet l q = if-Quiet (is_closed l.state) l _ q (
      if-Quiet (is_running h l) l _ q (record {
        ran = q.ran;
        left = λ r. absurd (ground (arith, r, set_running-running true l));
      }))

  stop-Quiet : (l : Link) → Quiet h n e l → Quiet h n e (stop h o l)
  unfolding stop zero_and_flush_link flush_staged_packets
  stop-Quiet l q =
      let ran = q.ran in
      if-Quiet (not (is_running h l)) l _ q (record { ran = ran; left = λ r. omega (arith, ran) })

Step-Quiet : (h : Host) (n e : ℕ) (a b : Link) → Step h a b → Quiet h n e a → Quiet h n e b
unfolding sequential_send
Step-Quiet h n e _ _ (Step.starts o l) q = start-Quiet h n e o l q
Step-Quiet h n e _ _ (Step.stops o l) q = stop-Quiet h n e o l q
Step-Quiet h n e _ _ (Step.reads o packets l) q =
    Tame-Quiet h n e l _ (read_packets-Tame h o packets l) q
Step-Quiet h n e _ _ (Step.sends o l) q =
    Tame-Quiet h n e l _ (next_container-Tame h o l.outbound l) q
Step-Quiet h n e _ _ (Step.sends_late o elems l) q =
    Tame-Quiet h n e l _ (send_container-Tame h o elems l) q
Step-Quiet h n e _ _ (Step.goes_on o l) q = Tame-Quiet h n e l _ (send_staged_packets-Tame h o l) q
Step-Quiet h n e _ _ (Step.receives o table elems l) q =
    Tame-Quiet h n e l _ (receive_container-Tame h o table elems l) q
Step-Quiet h n e _ _ (Step.keeps_alive o l) q = Tame-Quiet h n e l _ (send_keepalive-Tame h o l) q
Step-Quiet h n e _ _ (Step.answers o a l) q =
    Tame-Quiet h n e l _ (answer_initiation-Tame h o a l) q
Step-Quiet h n e _ _ (Step.takes o a l) q = Tame-Quiet h n e l _ (take_response-Tame h o a l) q
Step-Quiet h n e _ _ (Step.becomes state l) q = record { ran = q.ran; left = q.left }
Step-Quiet h n e _ _ (Step.configures i l) q = record { ran = q.ran; left = q.left }
Step-Quiet h n e _ _ (Step.shakes_hands d l same) q = record {
  ran = q.ran;
  left = λ r. q.left (sym same ∙ r);
}

fire-Quiet :
    (h : Host) (n e : ℕ) (o : Outside) (name : TimerName) (l : Link)
    → Quiet h n e l
    → Quiet h n (runs_stopped h name l + e) (fire h o name l)
fire-Quiet h n e o name l q = elim (Bool-cases (is_running h l)) [
  | inl runs ↦
      let ran = q.ran in
      let running = fire-running h o name l in
      record {
        ran = rw runs (omega (arith, ran));
        left = λ r. absurd (ground (arith, r, running, runs));
      }
  | inr stopped ↦
      let before = q.left stopped in
      let few = expired-fewer h o name l stopped in
      record {
        ran = rw stopped (omega (arith, before, few));
        left = λ r. rw stopped (omega (arith, before, few));
      }
]

late-Quiet :
    (h : Host) (n e : ℕ) (o : Outside) (name : TimerName) (d : ℕ) (l : Link)
    → Quiet h n e l
    → Quiet h (suc n) e (mod_of name o d l)
late-Quiet h n e o name d l q =
    let ran = q.ran in
    let few = set_late h o name d l in
    record {
      ran = omega (arith, ran);
      left = λ r. let before = q.left r in omega (arith, before, few);
    }

Steps-Quiet : (h : Host) (a b : Link) (n e : ℕ) → Quiet h 0 0 a → Steps h a n e b → Quiet h n e b
Steps-Quiet h a _ _ _ q Steps.new = q
Steps-Quiet h a _ _ _ q (Steps.next n e b c steps step) =
    Step-Quiet h n e b c step (Steps-Quiet h a b n e q steps)
Steps-Quiet h a _ _ _ q (Steps.fires n e b o name steps) =
    fire-Quiet h n e o name b (Steps-Quiet h a b n e q steps)
Steps-Quiet h a _ _ _ q (Steps.sets_late n e b o name d steps) =
    late-Quiet h n e o name d b (Steps-Quiet h a b n e q steps)

-- A `Stop` may come between the check of a call that the peer is active and its `Mod` of a timer,
-- so that the timer is set late, and the sender may go on after a stop. From a peer with no
-- pending timer, whatever steps, each a whole call, expiries and such late sets there are: when
-- the peer is stopped, its pending timers, and the callbacks that have run while it was stopped,
-- are together at most as many as the late sets. Without a late set there are none.
pub fire-stopped :
    (h : Host) (a b : Link) (late ran : ℕ)
    → Idle a.timers
    → Steps h a late ran b
    → is_running h b ≡ false
    → pending_count b.timers + ran ≤ late
fire-stopped h a b late ran idle steps stopped =
    let q =
      Steps-Quiet h a b late ran (record { ran = omega arith; left = λ r. ground (arith, idle) })
        steps in
    q.left stopped
