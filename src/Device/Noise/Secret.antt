-- ===== src/Device/Noise/Secret.antt =====
-- device/noise-protocol.go: a handshake that ends gives the two sides the same keys.
use wgservermgr.Prelude.{ℕ, ◌≡◌, refl, sym, ap, ◌∙◌, Bool, true, false, some, subst, []}
use wgservermgr.Prelude.Int.{pos, leb_ℤ}
use wgservermgr.Prelude.Maps.{nat_key, lookup}
use wgservermgr.Prelude.Bytes.{Bytes}
use wgservermgr.Mgmt.Time
use wgservermgr.Mgmt.Time.{Time}
use wgservermgr.Tai64n
use wgservermgr.Device.Noise.Messages.{MessageInitiation, MessageResponse}
use wgservermgr.Device.Noise.Keys.{Primitives, kdf2, public_key}
use wgservermgr.Device.Noise.State.{
  Handshake, HandshakeState, response_created, response_consumed, Peer, Device, handshake_of, Draws,
  sent,
}
use wgservermgr.Device.Noise.Initiation.{
  create_message_initiation, consume_message_initiation, handshake_initiation_rate,
}
use wgservermgr.Device.Noise.Response.{create_message_response, consume_message_response}
use wgservermgr.Device.Noise.Session.{begin_symmetric_session}
use wgservermgr.Device.Noise.Agreement.{
  update_self, Paired, initiated, Agrees, Accepted, create-Accepted,
}
use wgservermgr.Device.Noise.Answer.{Synced, answered, Completes, Answered, respond-Answered}
use wgservermgr.Device.Noise.Turns.{role, Began, BeginsAs, begin-in}

module _ (c : Primitives) where
  -- The session of `pa` in `a` and that of `pb` in `b`: each sends with the key the other receives
  -- with.
  pub record Secured (pa pb : ℕ) (now now' : Time) (a b : Device) : Type 0 where
    pub initiator : (begin_symmetric_session c pa now a).1 ≡ true
    pub responder : (begin_symmetric_session c pb now' b).1 ≡ true
    pub forth :
        ((begin_symmetric_session c pa now a).0.keypairs a.next_keypair).send
        ≡ ((begin_symmetric_session c pb now' b).0.keypairs b.next_keypair).receive
    pub back :
        ((begin_symmetric_session c pb now' b).0.keypairs b.next_keypair).send
        ≡ ((begin_symmetric_session c pa now a).0.keypairs a.next_keypair).receive

  begun_in_state :
      (peer : ℕ) (now : Time) (d : Device) (s : HandshakeState) (i : Bool)
      → (handshake_of d peer).state ≡ s
      → role s ≡ some i
      → ((begin_symmetric_session c peer now d).1 ≡ true)
        × Began c peer i d (begin_symmetric_session c peer now d).0
  unfolding BeginsAs
  begun_in_state peer now d s i e f =
      subst (λ o. BeginsAs c peer d o (begin_symmetric_session c peer now d)) f
        (begin-in c peer now d s e)

  -- Two handshakes with one chain key, each at the end of its side.
  begin-Secured :
      (pa pb : ℕ) (now now' : Time) (a b : Device)
      → (handshake_of a pa).state ≡ response_consumed
      → (handshake_of b pb).state ≡ response_created
      → (handshake_of a pa).chain_key ≡ (handshake_of b pb).chain_key
      → Secured pa pb now now' a b
  unfolding role
  begin-Secured pa pb now now' a b consumed created same =
      let (ok, begun) = begun_in_state pa now a response_consumed true consumed refl in
      let (ok', begun') = begun_in_state pb now' b response_created false created refl in
      record {
        initiator = ok;
        responder = ok';
        forth = begun.send ∙ ap (λ k. (kdf2 c k []).0) same ∙ sym begun'.receive;
        back = begun'.send ∙ ap (λ k. (kdf2 c k []).1) (sym same) ∙ sym begun.receive;
      }

  -- The initiator takes the response, and then the two sides have a session.
  complete-Secured :
      (a b : Device) (pa pb : ℕ) (msg : MessageResponse) (now now' : Time)
      → Answered c a pa pb (b, sent msg)
      → ((consume_message_response c msg a).1 ≡ some pa)
        × Secured pa pb now now' (consume_message_response c msg a).0 b
  unfolding Answered Completes answered
  complete-Secured a b pa pb msg now now' (done, created) = (
    ap (λ r. r.1) done,
    begin-Secured pa pb now now' _ b
        (ap (λ r. (handshake_of r.0 pa).state) done
          ∙ ap (λ (p : Peer). p.handshake.state) (update_self a.peers pa _))
        created
        (ap (λ r. (handshake_of r.0 pa).chain_key) done
          ∙ ap (λ (p : Peer). p.handshake.chain_key) (update_self a.peers pa _)),
  )

  module _ (a b : Device) (pa pb : ℕ) (paired : Paired c a b pa pb) (timestamp : Bytes)
      (draws : Draws) (since now : Time)
      (fresh : Tai64n.after timestamp (handshake_of b pb).last_timestamp ≡ true)
      (calm : leb_ℤ
          (Time.sub since (handshake_of b pb).last_initiation_consumption)
          (pos handshake_initiation_rate)
        ≡ false) where
    -- After the first message the two handshakes agree.
    consume-Synced :
        (a' : Device) (msg : MessageInitiation)
        → Accepted c a b pa pb timestamp since now (a', sent msg)
        → ((consume_message_initiation c msg since now b).1 ≡ some pb)
          × Synced c a' pa (handshake_of (consume_message_initiation c msg since now b).0 pb)
    unfolding Accepted Agrees initiated
    consume-Synced a' msg (agrees, initiator, key) =
        let own : handshake_of (consume_message_initiation c msg since now b).0 pb
            ≡ initiated c (handshake_of a' pa) msg timestamp now (handshake_of b pb) =
          ap (λ r. handshake_of r.0 pb) agrees
          ∙ ap (λ (p : Peer). p.handshake) (update_self b.peers pb _) in
        (
          ap (λ r. r.1) agrees,
          record {
            created = initiator.state;
            same_hash = ap (λ (h : Handshake). h.hash) own;
            same_chain_key = ap (λ (h : Handshake). h.chain_key) own;
            same_preshared =
                ap (λ (h : Handshake). h.preshared_key) own
                ∙ sym paired.preshared
                ∙ sym initiator.preshared;
            knows_ephemeral = ap (λ (h : Handshake). h.remote_ephemeral) own ∙ initiator.ephemeral;
            knows_static =
                ap (λ (h : Handshake). h.remote_static) own
                ∙ paired.knows_a
                ∙ paired.a_public
                ∙ ap (public_key c) (sym key);
            indexed =
                ap (λ (h : Handshake). lookup h.remote_index a'.index_table) own
                ∙ initiator.indexed;
          },
        )

    -- Let two devices know each other's public keys, share a preshared and a precomputed key, let
    -- the initiator's timestamp be newer than the last and the responder not be flooded. When
    -- `CreateMessageInitiation` sends a message and `CreateMessageResponse`, once the responder
    -- has consumed it, sends a reply, then each side accepts, both `BeginSymmetricSession`
    -- succeed, and each sends with the key that the other receives with.
    pub handshake-Secured :
        (draws' : Draws) (began began' : Time) (a' b' : Device) (msg : MessageInitiation)
        (reply : MessageResponse)
        → create_message_initiation c pa timestamp draws a ≡ (a', sent msg)
        → create_message_response c pb draws' (consume_message_initiation c msg since now b).0
          ≡ (b', sent reply)
        → ((consume_message_initiation c msg since now b).1 ≡ some pb)
          × ((consume_message_response c reply a').1 ≡ some pa)
          × Secured pa pb began began' (consume_message_response c reply a').0 b'
    handshake-Secured draws' began began' a' b' msg reply created responded =
        let accepted =
          subst (Accepted c a b pa pb timestamp since now) created
            (create-Accepted c a b pa pb paired timestamp draws since now fresh calm) in
        let (from, synced) = consume-Synced a' msg accepted in
        let answered' =
          subst (Answered c a' pa pb) responded (respond-Answered c a' _ pa pb draws' synced) in
        let (to, secured) = complete-Secured a' b' pa pb reply began began' answered' in
        (from, to, secured)
