-- ===== src/Device/Noise/Clear.antt =====
-- device/noise-protocol.go and peer.go: what a peer keeps when its keys are zeroed.
use wgservermgr.Prelude.{
  ℕ, ◌≡◌, refl, sym, ap, ◌∙◌, false, Option, none, some, update, inl, inr, ◌⊎◌, arith, subst,
}
use wgservermgr.Prelude.Maps.{nat_key, lookup, lookup-delete}
use wgservermgr.Mgmt.Time.{Time}
use wgservermgr.Device.IndexTable.{Table, delete_index}
use wgservermgr.Device.Noise.Keys.{Primitives}
use wgservermgr.Device.Noise.State.{
  Handshake, zeroed, Keypairs, Peer, Device, handshake_of, set_handshake, set_zero,
}
use wgservermgr.Device.Noise.Session.{
  delete_keypair, set_keypairs, begin_symmetric_session, received_with_keypair,
}
use wgservermgr.Device.Noise.Agreement.{update_self}
use wgservermgr.Device.Noise.Turns.{
  delete_keypair-peers, delete_keypair-keypairs, role, begin-in, keep_refused, received-refused,
}

-- `Handshake.Clear`
abbrev pub clear_handshake : Handshake → Handshake
clear_handshake h = record h {
  local_ephemeral = set_zero h.local_ephemeral;
  remote_ephemeral = set_zero h.remote_ephemeral;
  chain_key = set_zero h.chain_key;
  hash = set_zero h.hash;
  local_index = 0;
  state = zeroed;
}

-- The three keypairs of a peer, deleted from the table.
unfoldable pub delete_keypairs : Keypairs → Device → Device
delete_keypairs pairs d =
    delete_keypair pairs.next (delete_keypair pairs.current (delete_keypair pairs.previous d))

-- `ZeroAndFlushAll`, less the staged packets.
unfoldable pub zero_and_flush_all : ℕ → Device → Device
zero_and_flush_all peer d =
    let d1 = delete_keypairs (d.peers peer).keypairs d in
    let d2 = set_keypairs peer (record { current = none; previous = none; next = none }) d1 in
    let h = handshake_of d2 peer in
    set_handshake peer (clear_handshake h)
      (record d2 { index_table = delete_index h.local_index d2.index_table })

pub Holds : Keypairs → ℕ → Type 0
Holds pairs k = (pairs.current ≡ some k) ⊎ ((pairs.previous ≡ some k) ⊎ (pairs.next ≡ some k))

delete_index-lookup : (i j : ℕ) (t : Table) → lookup i t ≡ none → lookup i (delete_index j t) ≡ none
unfolding delete_index
delete_index-lookup i j t h = lookup-delete j i t ∙ ground (arith, h)

delete_index-own : (i : ℕ) (t : Table) → lookup i (delete_index i t) ≡ none
unfolding delete_index
delete_index-own i t = lookup-delete i i t ∙ ground arith

delete_keypair-lookup :
    (i : ℕ) (k : Option ℕ) (d : Device)
    → lookup i d.index_table ≡ none
    → lookup i (delete_keypair k d).index_table ≡ none
unfolding delete_keypair
delete_keypair-lookup i none d h = h
delete_keypair-lookup i (some k) d h =
    delete_index-lookup i (d.keypairs k).local_index d.index_table h

delete_keypair-own :
    (o : Option ℕ) (k : ℕ) (d d₀ : Device)
    → o ≡ some k
    → d.keypairs ≡ d₀.keypairs
    → lookup (d₀.keypairs k).local_index (delete_keypair o d).index_table ≡ none
unfolding delete_keypair
delete_keypair-own o k d d₀ e same =
    rw (delete_keypair, e)
      (ap (λ f. lookup (f k).local_index (delete_index (d.keypairs k).local_index d.index_table))
          (sym same)
        ∙ delete_index-own (d.keypairs k).local_index d.index_table)

-- No keypair that the peer held keeps its index.
delete_keypairs-lookup :
    (pairs : Keypairs) (k : ℕ) (d : Device)
    → Holds pairs k
    → lookup (d.keypairs k).local_index (delete_keypairs pairs d).index_table ≡ none
unfolding delete_keypairs Holds
delete_keypairs-lookup pairs k d (inl e) =
    delete_keypair-lookup _ pairs.next _
      (delete_keypair-own pairs.current k _ d e (delete_keypair-keypairs pairs.previous d))
delete_keypairs-lookup pairs k d (inr (inl e)) =
    delete_keypair-lookup _ pairs.next _
      (delete_keypair-lookup _ pairs.current _ (delete_keypair-own pairs.previous k d d e refl))
delete_keypairs-lookup pairs k d (inr (inr e)) =
    delete_keypair-own pairs.next k _ d e
      (delete_keypair-keypairs pairs.current _ ∙ delete_keypair-keypairs pairs.previous d)

zero_and_flush_all-peer :
    (peer : ℕ) (d : Device)
    → ((handshake_of (zero_and_flush_all peer d) peer).state ≡ zeroed)
      × (((zero_and_flush_all peer d).peers peer).keypairs.next ≡ none)
unfolding zero_and_flush_all
zero_and_flush_all-peer peer d =
    let d1 = delete_keypairs (d.peers peer).keypairs d in
    (
      ap (λ (p : Peer). p.handshake.state) (update_self (update d1.peers peer _) peer _),
      ap (λ (p : Peer). p.keypairs.next) (update_self (update d1.peers peer _) peer _)
          ∙ ap (λ (p : Peer). p.keypairs.next) (update_self d1.peers peer _),
    )

zero_and_flush_all-keypairs :
    (peer : ℕ) (d : Device) (k : ℕ)
    → Holds (d.peers peer).keypairs k
    → lookup (d.keypairs k).local_index (zero_and_flush_all peer d).index_table ≡ none
unfolding zero_and_flush_all
zero_and_flush_all-keypairs peer d k h =
    delete_index-lookup (d.keypairs k).local_index _ _
      (delete_keypairs-lookup (d.peers peer).keypairs k d h)

pub delete_keypairs-peers :
    (pairs : Keypairs) (d : Device) → (delete_keypairs pairs d).peers ≡ d.peers
unfolding delete_keypairs
delete_keypairs-peers pairs d =
    delete_keypair-peers pairs.next _
    ∙ delete_keypair-peers pairs.current _
    ∙ delete_keypair-peers pairs.previous d

zero_and_flush_all-handshake :
    (peer : ℕ) (d : Device)
    → lookup (handshake_of d peer).local_index (zero_and_flush_all peer d).index_table ≡ none
unfolding zero_and_flush_all
zero_and_flush_all-handshake peer d =
    let d1 = delete_keypairs (d.peers peer).keypairs d in
    let same : (handshake_of
          (set_keypairs peer (record { current = none; previous = none; next = none }) d1)
          peer).local_index
        ≡ (handshake_of d peer).local_index =
      ap (λ (p : Peer). p.handshake.local_index) (update_self d1.peers peer _)
      ∙ ap (λ f. (f peer).handshake.local_index)
          (delete_keypairs-peers (d.peers peer).keypairs d) in
    subst (λ i. lookup i (zero_and_flush_all peer d).index_table ≡ none) same
      (delete_index-own _ d1.index_table)

begin-zeroed :
    (c : Primitives) (peer : ℕ) (now : Time) (d : Device)
    → (handshake_of d peer).state ≡ zeroed
    → begin_symmetric_session c peer now d ≡ (d, false)
unfolding role
begin-zeroed c peer now d state = keep_refused c peer now d (begin-in c peer now d zeroed state)

-- After `ZeroAndFlushAll` a peer begins no session, no received keypair becomes current, and
-- neither the index of a keypair that it held nor that of its handshake is in the index table.
pub zero_and_flush_all-forgets :
    (c : Primitives) (peer : ℕ) (now : Time) (d : Device)
    → (let d' = zero_and_flush_all peer d in
        (begin_symmetric_session c peer now d' ≡ (d', false))
        × ((k : ℕ) → received_with_keypair peer k d' ≡ (d', false))
        × ((k : ℕ)
            → Holds (d.peers peer).keypairs k
            → lookup (d.keypairs k).local_index d'.index_table ≡ none)
        × (lookup (handshake_of d peer).local_index d'.index_table ≡ none))
zero_and_flush_all-forgets c peer now d =
    let (state, next) = zero_and_flush_all-peer peer d in
    (
      begin-zeroed c peer now (zero_and_flush_all peer d) state,
      λ k. received-refused c peer now (zero_and_flush_all peer d) k next,
      zero_and_flush_all-keypairs peer d,
      zero_and_flush_all-handshake peer d,
    )
