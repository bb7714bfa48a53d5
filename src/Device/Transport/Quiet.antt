-- ===== src/Device/Transport/Quiet.antt =====
-- device/timers.go and peer.go: the operations of a peer set no timer while it is stopped.
pub mod Packets
pub mod Handshakes
pub mod Steps
use wgservermgr.Prelude.{
  ℕ, zero, suc, ◌+◌, ◌*◌, ◌≤◌, ◌≡◌, refl, sym, ap, ◌∙◌, Bool, true, false, not, ◌&&◌, ◌||◌, ltb,
  Option, none, some, List, [], ◌∷◌, length, ◌==◌, arith, inl, inr, if◌then◌else◌, subst, update,
}
use wgservermgr.Prelude.Bytes.{Bytes}
use wgservermgr.Device.Noise.State.{Peer, Device, set_peer}
use wgservermgr.Device.Noise.Agreement.{update_self}
use wgservermgr.Device.Noise.Session.{set_keypairs, delete_keypair, received_with_keypair, is_next}
use wgservermgr.Device.Noise.Turns.{delete_keypair-peers}
use wgservermgr.Device.Noise.Clear.{zero_and_flush_all, delete_keypairs, delete_keypairs-peers}
use wgservermgr.Device.Transport.Timers.{Timers, TimerName}
use wgservermgr.Device.Transport.State.{
  Element, DeviceState, Link, Host, Outside, is_running, timers_active, is_up,
}
use wgservermgr.Device.Transport.Send.{
  assign_nonces, Place, returned, at_top, in_loop, enqueue, enqueue_some, take_container,
  in_loop_step, choose_keypair, at_top_step, send_staged_from, send_staged_packets, send_keepalive,
  is_spent,
}
use wgservermgr.Device.Transport.Steady.{
  Steady, Steady-refl, pending_count, le_refl, le_trans, same_timers,
}
use wgservermgr.Device.Transport.Steady.Initiation.{send_handshake_initiation-Steady}

module _ (h : Host) where
  -- Whether the peer runs stays as it is, and no more timers of a stopped peer become pending.
  pub record Tame (l l' : Link) : Type 0 where
    pub running : is_running h l' ≡ is_running h l
    pub idle : is_running h l ≡ false → pending_count l'.timers ≤ pending_count l.timers

  pub Steady-Tame : (l l' : Link) → Steady h l l' → Tame l l'
  Steady-Tame l l' s = record { running = s.running; idle = s.idle }

  pub Tame-refl : (l : Link) → Tame l l
  Tame-refl l = record { running = refl; idle = λ r. le_refl _ }

  pub Tame-trans : (a b c : Link) → Tame a b → Tame b c → Tame a c
  Tame-trans a b c s t = record {
    running = t.running ∙ s.running;
    idle = λ r. le_trans _ _ _ (t.idle (s.running ∙ r)) (s.idle r);
  }

  -- The timers stay as they are, and so does whether the peer runs.
  pub untimed-Tame :
      (l l' : Link) → is_running h l' ≡ is_running h l → l'.timers ≡ l.timers → Tame l l'
  untimed-Tame l l' running timers = record {
    running = running;
    idle = λ r. same_timers l.timers l'.timers timers;
  }

  pub if-Tame : (b : Bool) (l x y : Link) → Tame l x → Tame l y → Tame l (if b then x else y)
  if-Tame true l x y s t = s
  if-Tame false l x y s t = t

  -- What only an active peer does.
  pub active-Tame :
      (b : Bool) (t : Timers) (l : Link)
      → (b ≡ true → timers_active h l ≡ true)
      → Tame l (if b then record l { timers = t } else l)
  active-Tame true t l active = record {
    running = refl;
    idle = λ r. absurd (ground (arith, r, active refl));
  }
  active-Tame false t l active = Tame-refl l

  -- The same for a link and a place.
  if_placed-Tame :
      (b : Bool) (l : Link) (x y : Link × Place)
      → Tame l x.0
      → Tame l y.0
      → Tame l (if b then x else y).0
  if_placed-Tame true l x y s t = s
  if_placed-Tame false l x y s t = t

  module _ (o : Outside) where
    enqueue_some-Tame : (kept : List Element) (l : Link) → Tame l (enqueue_some h o kept l)
    unfolding enqueue
    enqueue_some-Tame [] l = Tame-refl l
    enqueue_some-Tame (elem ∷ kept) l =
        if-Tame (is_running h l) l _ l (untimed-Tame l _ refl refl) (Tame-refl l)

    take_container-Tame :
        (k : ℕ) (staged : List (List Element)) (l : Link) → Tame l (take_container h o k staged l).0
    unfolding take_container
    take_container-Tame k [] l = Tame-refl l
    take_container-Tame k (elems ∷ staged) l =
        Tame-trans l _ _ (untimed-Tame l _ refl refl)
          (enqueue_some-Tame (assign_nonces k (l.device.keypairs k).send_nonce elems).1 _)

    choose_keypair-Tame : (current : Option ℕ) (l : Link) → Tame l (choose_keypair h o current l).0
    unfolding choose_keypair
    choose_keypair-Tame none l = Steady-Tame l _ (send_handshake_initiation-Steady h o false l)
    choose_keypair-Tame (some k) l =
        if_placed-Tame (is_spent h o (l.device.keypairs k)) l _ _
          (Steady-Tame l _ (send_handshake_initiation-Steady h o false l)) (Tame-refl l)

    at_top_step-Tame : (l : Link) → Tame l (at_top_step h o l).0
    unfolding at_top_step
    at_top_step-Tame l =
        if_placed-Tame ((length l.staged == 0) || not (is_up l.state)) l _ _ (Tame-refl l)
          (choose_keypair-Tame (l.device.peers h.peer).keypairs.current l)

    -- The link that comes out, or the one that went in.
    abbrev or_else : Link → Option Link → Link
    or_else l none = l
    or_else l (some l') = l'

    send_staged_from-Tame :
        (fuel : ℕ) (l l₀ : Link) (place : Place)
        → Tame l₀ l
        → Tame l₀ (or_else l₀ (send_staged_from h o fuel (l, place)))
    unfolding send_staged_from in_loop_step
    send_staged_from-Tame fuel l l₀ returned t = t
    send_staged_from-Tame zero l l₀ at_top t = Tame-refl l₀
    send_staged_from-Tame zero l l₀ (in_loop k) t = Tame-refl l₀
    send_staged_from-Tame (suc fuel) l l₀ at_top t =
        let r = at_top_step h o l in
        send_staged_from-Tame fuel r.0 l₀ r.1 (Tame-trans l₀ l r.0 t (at_top_step-Tame l))
    send_staged_from-Tame (suc fuel) l l₀ (in_loop k) t =
        let r = take_container h o k l.staged l in
        send_staged_from-Tame fuel r.0 l₀ r.1
          (Tame-trans l₀ l r.0 t (take_container-Tame k l.staged l))

    pub send_staged_packets-Tame : (l : Link) → Tame l (send_staged_packets h o l)
    unfolding send_staged_packets
    send_staged_packets-Tame l =
        send_staged_from-Tame (2 * length l.staged + 2) l l at_top (Tame-refl l)

    pub send_keepalive-Tame : (l : Link) → Tame l (send_keepalive h o l)
    unfolding send_keepalive
    send_keepalive-Tame l =
        Tame-trans l _ _
          (if-Tame ((length l.staged == 0) && is_running h l) l _ l (untimed-Tame l _ refl refl)
            (Tame-refl l))
          (send_staged_packets-Tame _)

  -- The device keeps whether the peer runs.
  pub zero_and_flush_all-running :
      (d : Device)
      → ((zero_and_flush_all h.peer d).peers h.peer).is_running ≡ (d.peers h.peer).is_running
  unfolding zero_and_flush_all
  zero_and_flush_all-running d =
      let pairs = (d.peers h.peer).keypairs in
      let d1 = delete_keypairs pairs d in
      ap (λ (p : Peer). p.is_running) (update_self (update d1.peers h.peer _) h.peer _)
      ∙ ap (λ (p : Peer). p.is_running) (update_self d1.peers h.peer _)
      ∙ ap (λ f. (f h.peer).is_running) (delete_keypairs-peers pairs d)

  if_device :
      (b : Bool) (x y : Device × Bool) (d : Device)
      → (x.0.peers h.peer).is_running ≡ (d.peers h.peer).is_running
      → (y.0.peers h.peer).is_running ≡ (d.peers h.peer).is_running
      → ((if◌then◌else◌ {A = Device × Bool} b x y).0.peers h.peer).is_running
        ≡ (d.peers h.peer).is_running
  if_device true x y d p q = p
  if_device false x y d p q = q

  pub received_with_keypair-running :
      (k : ℕ) (d : Device)
      → ((received_with_keypair h.peer k d).0.peers h.peer).is_running ≡ (d.peers h.peer).is_running
  unfolding received_with_keypair
  received_with_keypair-running k d =
      let pairs = (d.peers h.peer).keypairs in
      if_device (not (is_next pairs.next k)) (d, false) _ d refl
        (ap (λ f. (f h.peer).is_running) (delete_keypair-peers pairs.previous _)
          ∙ ap (λ (p : Peer). p.is_running) (update_self d.peers h.peer _))
