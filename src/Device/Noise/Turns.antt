-- ===== src/Device/Noise/Turns.antt =====
-- device/noise-protocol.go and keypair.go: how the keypairs of a peer take turns.
use wgservermgr.Prelude.{
  ℕ, ◌≡◌, refl, ap, ◌∙◌, Bool, true, false, Option, none, some, ◌==◌, subst, inl, inr, Option-cases,
  arith, if◌then◌else◌, [],
}
use wgservermgr.Prelude.Bytes.{Bytes}
use wgservermgr.Mgmt.Time.{Time}
use wgservermgr.Device.Noise.Keys.{Primitives, kdf2}
use wgservermgr.Device.Noise.State.{
  HandshakeState, zeroed, response_created, Keypair, Keypairs, Peer, Device, handshake_of,
}
use wgservermgr.Device.Noise.Session.{
  delete_keypair, rotate_keypairs, install_keypair, begin_symmetric_session, received_with_keypair,
}
use wgservermgr.Device.Noise.Agreement.{update_self}

-- Deleting a keypair takes its index away and nothing else.
pub delete_keypair-peers : (k : Option ℕ) (d : Device) → (delete_keypair k d).peers ≡ d.peers
unfolding delete_keypair
delete_keypair-peers none d = refl
delete_keypair-peers (some k) d = refl

pub delete_keypair-keypairs :
    (k : Option ℕ) (d : Device) → (delete_keypair k d).keypairs ≡ d.keypairs
unfolding delete_keypair
delete_keypair-keypairs none d = refl
delete_keypair-keypairs (some k) d = refl

-- The keypairs of a peer after the new one has taken its place.
unfoldable pub turned : Bool → ℕ → Keypairs → Keypairs
turned true k pairs = record {
  current = some k;
  previous = elim pairs.next [ some j ↦ some j | none ↦ pairs.current ];
  next = none;
}
turned false k pairs = record { current = pairs.current; previous = none; next = some k }

pub rotate_keypairs-keypairs :
    (peer : ℕ) (is_initiator : Bool) (k : ℕ) (d : Device)
    → (rotate_keypairs peer is_initiator k d).keypairs ≡ d.keypairs
unfolding rotate_keypairs
rotate_keypairs-keypairs peer false k d = delete_keypair-keypairs _ _ ∙ delete_keypair-keypairs _ _
rotate_keypairs-keypairs peer true k d = elim (Option-cases (d.peers peer).keypairs.next) [
  | inl e ↦ rw (rotate_keypairs, e) (delete_keypair-keypairs _ _)
  | inr (j, e) ↦ rw (rotate_keypairs, e) (delete_keypair-keypairs _ _ ∙ delete_keypair-keypairs _ _)
]

pub rotate_keypairs-peers :
    (peer : ℕ) (is_initiator : Bool) (k : ℕ) (d : Device)
    → (rotate_keypairs peer is_initiator k d).peers peer
      ≡ record (d.peers peer) { keypairs = turned is_initiator k (d.peers peer).keypairs }
unfolding rotate_keypairs turned
rotate_keypairs-peers peer false k d =
    ap (λ f. f peer) (delete_keypair-peers _ _ ∙ delete_keypair-peers _ _)
    ∙ update_self d.peers peer _
rotate_keypairs-peers peer true k d = elim (Option-cases (d.peers peer).keypairs.next) [
  | inl e ↦
      rw (rotate_keypairs, e)
        (ap (λ f. f peer) (delete_keypair-peers _ _) ∙ update_self d.peers peer _)
  | inr (j, e) ↦
      rw (rotate_keypairs, e)
        (ap (λ f. f peer) (delete_keypair-peers _ _ ∙ delete_keypair-peers _ _)
          ∙ update_self d.peers peer _)
]

-- What a session needs of the handshake, and the side that it makes.
unfoldable pub role : HandshakeState → Option Bool
role HandshakeState.response_consumed = some true
role HandshakeState.response_created = some false
role HandshakeState.zeroed = none
role HandshakeState.initiation_created = none
role HandshakeState.initiation_consumed = none

-- What a new session leaves in its device. The chain key gives the keys, in the order of the side.
pub record Began (c : Primitives) (peer : ℕ) (is_initiator : Bool) (d d' : Device) : Type 0 where
  pub turns : (d'.peers peer).keypairs ≡ turned is_initiator d.next_keypair (d.peers peer).keypairs
  pub forgotten : (handshake_of d' peer).state ≡ zeroed
  pub send : (d'.keypairs d.next_keypair).send ≡ (
      let keys = kdf2 c (handshake_of d peer).chain_key [] in
      if is_initiator then keys.0 else keys.1)
  pub receive : (d'.keypairs d.next_keypair).receive ≡ (
      let keys = kdf2 c (handshake_of d peer).chain_key [] in
      if is_initiator then keys.1 else keys.0)

unfoldable pub BeginsAs : Primitives → ℕ → Device → Option Bool → Device × Bool → Type 0
BeginsAs c peer d none r = r ≡ (d, false)
BeginsAs c peer d (some i) r = (r.1 ≡ true) × Began c peer i d r.0

module _ (c : Primitives) (peer : ℕ) (now : Time) where
  install_keypair-Began :
      (i : Bool) (send receive : Bytes) (d : Device)
      → send
        ≡ (let keys = kdf2 c (handshake_of d peer).chain_key [] in if i then keys.0 else keys.1)
      → receive
        ≡ (let keys = kdf2 c (handshake_of d peer).chain_key [] in if i then keys.1 else keys.0)
      → Began c peer i d (install_keypair peer now i send receive d)
  unfolding install_keypair
  install_keypair-Began i send receive d own other =
      let kept =
        ap (λ f. f d.next_keypair) (rotate_keypairs-keypairs peer i d.next_keypair _)
        ∙ update_self d.keypairs d.next_keypair _ in
      record {
        turns =
            ap (λ (p : Peer). p.keypairs) (rotate_keypairs-peers peer i d.next_keypair _)
            ∙ ap (λ (p : Peer). turned i d.next_keypair p.keypairs) (update_self d.peers peer _);
        forgotten =
            ap (λ (p : Peer). p.handshake.state) (rotate_keypairs-peers peer i d.next_keypair _)
            ∙ ap (λ (p : Peer). p.handshake.state) (update_self d.peers peer _);
        send = ap (λ (k : Keypair). k.send) kept ∙ own;
        receive = ap (λ (k : Keypair). k.receive) kept ∙ other;
      }

  pub begin-in :
      (d : Device) (s : HandshakeState)
      → (handshake_of d peer).state ≡ s
      → BeginsAs c peer d (role s) (begin_symmetric_session c peer now d)
  unfolding BeginsAs begin_symmetric_session role
  begin-in d HandshakeState.response_consumed e =
      rw (begin_symmetric_session, e) (refl, install_keypair-Began true _ _ d refl refl)
  begin-in d HandshakeState.response_created e =
      rw (begin_symmetric_session, e) (refl, install_keypair-Began false _ _ d refl refl)
  begin-in d HandshakeState.zeroed e = rw (begin_symmetric_session, e) refl
  begin-in d HandshakeState.initiation_created e = rw (begin_symmetric_session, e) refl
  begin-in d HandshakeState.initiation_consumed e = rw (begin_symmetric_session, e) refl

  -- `BeginSymmetricSession` fails and changes nothing but in the states response consumed and
  -- response created. There it succeeds, zeroes the state, gives the new keypair the two keys of
  -- the chain key in the order of its side, and rotates the keypairs: an initiator's becomes
  -- current, with the next one, or else the current one, as previous; a responder's becomes next,
  -- with no previous.
  pub begin-BeginsAs :
      (d : Device)
      → BeginsAs c peer d (role (handshake_of d peer).state) (begin_symmetric_session c peer now d)
  begin-BeginsAs d = begin-in d (handshake_of d peer).state refl

  pub keep_refused :
      (d : Device)
      → BeginsAs c peer d none (begin_symmetric_session c peer now d)
      → begin_symmetric_session c peer now d ≡ (d, false)
  unfolding BeginsAs
  keep_refused d h = h

  keep_begun :
      (d : Device) (i : Bool)
      → BeginsAs c peer d (some i) (begin_symmetric_session c peer now d)
      → ((begin_symmetric_session c peer now d).1 ≡ true)
        × Began c peer i d (begin_symmetric_session c peer now d).0
  unfolding BeginsAs
  keep_begun d i h = h

  -- After `BeginSymmetricSession` a second one fails.
  pub begin-once :
      (d : Device)
      → (let d' = (begin_symmetric_session c peer now d).0 in
          (begin_symmetric_session c peer now d').1 ≡ false)
  unfolding role
  begin-once d = elim (Option-cases (role (handshake_of d peer).state)) [
    | inl e ↦
        let kept = keep_refused d (
          subst (λ o. BeginsAs c peer d o (begin_symmetric_session c peer now d)) e
            (begin-BeginsAs d)) in
        ap (λ r. (begin_symmetric_session c peer now r.0).1) kept ∙ ap (λ r. r.1) kept
    | inr (i, e) ↦
        let (_, began) = keep_begun d i (
          subst (λ o. BeginsAs c peer d o (begin_symmetric_session c peer now d)) e
            (begin-BeginsAs d)) in
        ap (λ r. r.1)
          (keep_refused _
            (begin-in (begin_symmetric_session c peer now d).0 zeroed began.forgotten))
  ]

  received-turned :
      (d : Device) (k : ℕ) (pairs : Keypairs)
      → (d.peers peer).keypairs ≡ turned false k pairs
      → (let (d', confirmed) = received_with_keypair peer k d in
          (confirmed ≡ true)
          × ((d'.peers peer).keypairs
              ≡ record { current = some k; previous = pairs.current; next = none }))
  unfolding turned received_with_keypair delete_keypair
  received-turned d k pairs e =
      let own : (k == k) ≡ true = ground arith in
      rw (received_with_keypair, e, own)
        (refl, ap (λ (p : Peer). p.keypairs) (update_self d.peers peer _))

  pub received-refused :
      (d : Device) (k : ℕ)
      → (d.peers peer).keypairs.next ≡ none
      → received_with_keypair peer k d ≡ (d, false)
  unfolding received_with_keypair
  received-refused d k e = rw (received_with_keypair, e) refl

  -- In the state response created, `BeginSymmetricSession` leaves the current keypair.
  -- `ReceivedWithKeypair` for the new one then makes it the current keypair and the one before
  -- the previous, with none next, and a second call for it is refused and changes nothing.
  pub begin-received :
      (d : Device)
      → (handshake_of d peer).state ≡ response_created
      → (let d' = (begin_symmetric_session c peer now d).0 in
          let (d'', confirmed) = received_with_keypair peer d.next_keypair d' in
          ((d'.peers peer).keypairs.current ≡ (d.peers peer).keypairs.current)
          × (confirmed ≡ true)
          × ((d''.peers peer).keypairs ≡ record {
            current = some d.next_keypair;
            previous = (d.peers peer).keypairs.current;
            next = none;
          })
          × (received_with_keypair peer d.next_keypair d'' ≡ (d'', false)))
  unfolding role turned
  begin-received d created =
      let (_, began) = keep_begun d false (begin-in d response_created created) in
      let (confirmed, pairs) =
        received-turned _ d.next_keypair (d.peers peer).keypairs began.turns in
      (
        ap (λ (p : Keypairs). p.current) began.turns,
        confirmed,
        pairs,
        received-refused _ d.next_keypair (ap (λ (p : Keypairs). p.next) pairs),
      )
