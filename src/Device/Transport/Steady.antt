-- ===== src/Device/Transport/Steady.antt =====
-- device/timers.go: what the timers leave alone in a peer.
pub mod Initiation
use wgservermgr.Prelude.{
  ℕ, ◌+◌, ◌≤◌, ◌≡◌, refl, not, ◌&&◌, ltb, sym, ap, ◌∙◌, Bool, true, false, Option, none, some,
  arith, inl, inr, if◌then◌else◌, Bool-cases, List, [], ◌∷◌, subst,
}
use wgservermgr.Prelude.Int.{pos, ltb_ℤ}
use wgservermgr.Prelude.Bytes.{Bytes}
use wgservermgr.Mgmt.Time
use wgservermgr.Device.Cookie.{CookieGenerator}
use wgservermgr.Device.Noise.Messages.{MessageInitiation}
use wgservermgr.Device.Noise.State.{Device, Sent, sent, failed, waiting}
use wgservermgr.Device.Noise.Initiation.{create_message_initiation}
use wgservermgr.Device.Transport.Timers.{Timers, rekey_timeout}
use wgservermgr.Device.Transport.State.{Link, Host, Outside, is_closed, is_running, timers_active}
use wgservermgr.Device.Transport.Events.{
  set_attempts, timers_data_sent, timers_data_received, timers_any_authenticated_packet_sent,
  timers_any_authenticated_packet_received, timers_handshake_initiated, timers_handshake_complete,
  timers_session_derived, timers_any_authenticated_packet_traversal,
}
use wgservermgr.Device.Transport.Send.{
  send_to, send_buffers, transmit_packet, transmit_initiation, initiate, send_handshake_initiation,
}
use wgservermgr.Device.Transport.Initiating.{SameKeys, create_message_initiation-SameKeys}

-- No timer is pending.
pub record Idle (t : Timers) : Type 0 where
  pub retransmit_handshake : t.retransmit_handshake.is_pending ≡ false
  pub send_keepalive : t.send_keepalive.is_pending ≡ false
  pub new_handshake : t.new_handshake.is_pending ≡ false
  pub zero_key_material : t.zero_key_material.is_pending ≡ false
  pub persistent_keepalive : t.persistent_keepalive.is_pending ≡ false

abbrev pub bit_of : Bool → ℕ
bit_of true = 1
bit_of false = 0

-- How many timers are pending.
abbrev pub pending_count : Timers → ℕ
pending_count t =
    bit_of t.retransmit_handshake.is_pending
    + bit_of t.send_keepalive.is_pending
    + bit_of t.new_handshake.is_pending
    + bit_of t.zero_key_material.is_pending
    + bit_of t.persistent_keepalive.is_pending

pub le_refl : (n : ℕ) → n ≤ n
le_refl n = omega arith

pub le_trans : (a b c : ℕ) → a ≤ b → b ≤ c → a ≤ c
le_trans a b c p q = omega (arith, p, q)

pub same_timers : (t t' : Timers) → t' ≡ t → pending_count t' ≤ pending_count t
same_timers t t' e = subst (λ x. pending_count x ≤ pending_count t) (sym e) (le_refl _)

module _ (h : Host) where
  -- The keypairs, the queue of packets with a nonce, and whether the peer runs stay as they are, and
  -- no more timers of a stopped peer become pending.
  pub record Steady (l l' : Link) : Type 0 where
    pub keypairs : l'.device.keypairs ≡ l.device.keypairs
    pub held : (l'.device.peers h.peer).keypairs ≡ (l.device.peers h.peer).keypairs
    pub running : is_running h l' ≡ is_running h l
    pub state : l'.state ≡ l.state
    pub outbound : l'.outbound ≡ l.outbound
    pub idle : is_running h l ≡ false → pending_count l'.timers ≤ pending_count l.timers

  pub Steady-refl : (l : Link) → Steady l l
  Steady-refl l = record {
    keypairs = refl;
    held = refl;
    running = refl;
    state = refl;
    outbound = refl;
    idle = λ r. le_refl _;
  }

  pub Steady-trans : (a b c : Link) → Steady a b → Steady b c → Steady a c
  Steady-trans a b c s t = record {
    keypairs = t.keypairs ∙ s.keypairs;
    held = t.held ∙ s.held;
    running = t.running ∙ s.running;
    state = t.state ∙ s.state;
    outbound = t.outbound ∙ s.outbound;
    idle = λ r. le_trans _ _ _ (t.idle (s.running ∙ r)) (s.idle r);
  }

  pub if-Steady :
      (b : Bool) (l x y : Link) → Steady l x → Steady l y → Steady l (if b then x else y)
  if-Steady true l x y s t = s
  if-Steady false l x y s t = t

  when-Steady : (b : Bool) (l x : Link) → (b ≡ true → Steady l x) → Steady l (if b then x else l)
  when-Steady true l x s = s refl
  when-Steady false l x s = Steady-refl l

  -- A running peer may set its timers.
  retimed-Steady :
      (t : Timers) (l : Link) → timers_active h l ≡ true → Steady l (record l { timers = t })
  retimed-Steady t l active = record {
    keypairs = refl;
    held = refl;
    running = refl;
    state = refl;
    outbound = refl;
    idle = λ r. absurd (ground (arith, r, active));
  }

  active_only-Steady :
      (t : Timers) (l : Link) → Steady l (if timers_active h l then record l { timers = t } else l)
  active_only-Steady t l = when-Steady (timers_active h l) l _ (retimed-Steady t l)

  -- A change of other fields than those.
  abbrev pub Untouched : Link → Link → Type 0
  Untouched l l' =
      (l'.device ≡ l.device)
      × (l'.state ≡ l.state)
      × (l'.outbound ≡ l.outbound)
      × (l'.timers ≡ l.timers)

  pub Untouched-Steady : (l l' : Link) → Untouched l l' → Steady l l'
  Untouched-Steady l l' (device, state, outbound, timers) = record {
    keypairs = ap (λ (d : Device). d.keypairs) device;
    held = ap (λ (d : Device). (d.peers h.peer).keypairs) device;
    running = ap (λ (d : Device). (d.peers h.peer).is_running) device;
    state = state;
    outbound = outbound;
    idle = λ r. same_timers l.timers l'.timers timers;
  }

  module _ (o : Outside) where
    pub timers_data_sent-Steady : (l : Link) → Steady l (timers_data_sent h o l)
    unfolding timers_data_sent
    timers_data_sent-Steady l =
        when-Steady (timers_active h l && not l.timers.new_handshake.is_pending) l _
          (λ e. retimed-Steady _ l (ground (arith, e)))

    pub timers_data_received-Steady : (l : Link) → Steady l (timers_data_received h o l)
    unfolding timers_data_received
    timers_data_received-Steady l =
        when-Steady _ l _ (λ e. if-Steady _ l _ _ (retimed-Steady _ l e) (retimed-Steady _ l e))

    pub timers_any_authenticated_packet_sent-Steady :
        (l : Link) → Steady l (timers_any_authenticated_packet_sent h o l)
    unfolding timers_any_authenticated_packet_sent
    timers_any_authenticated_packet_sent-Steady l = active_only-Steady _ l

    pub timers_any_authenticated_packet_received-Steady :
        (l : Link) → Steady l (timers_any_authenticated_packet_received h o l)
    unfolding timers_any_authenticated_packet_received
    timers_any_authenticated_packet_received-Steady l = active_only-Steady _ l

    pub timers_handshake_initiated-Steady : (l : Link) → Steady l (timers_handshake_initiated h o l)
    unfolding timers_handshake_initiated
    timers_handshake_initiated-Steady l = active_only-Steady _ l

    pub timers_session_derived-Steady : (l : Link) → Steady l (timers_session_derived h o l)
    unfolding timers_session_derived
    timers_session_derived-Steady l = active_only-Steady _ l

    pub timers_any_authenticated_packet_traversal-Steady :
        (l : Link) → Steady l (timers_any_authenticated_packet_traversal h o l)
    unfolding timers_any_authenticated_packet_traversal
    timers_any_authenticated_packet_traversal-Steady l =
        when-Steady (ltb 0 l.persistent_keepalive_interval && timers_active h l) l _
          (λ e. retimed-Steady _ l (ground (arith, e)))

    -- The last change of `timersHandshakeComplete`.
    completed-Steady :
        (l : Link)
        → Steady l (record l {
          timers = record l.timers { handshake_attempts = 0; sent_last_minute_handshake = false };
          last_handshake_nano = o.now;
        })
    completed-Steady l = record {
      keypairs = refl;
      held = refl;
      running = refl;
      state = refl;
      outbound = refl;
      idle = λ r. le_refl _;
    }

    pub timers_handshake_complete-Steady : (l : Link) → Steady l (timers_handshake_complete h o l)
    unfolding timers_handshake_complete
    timers_handshake_complete-Steady l =
        Steady-trans l _ _ (active_only-Steady _ l) (completed-Steady _)
