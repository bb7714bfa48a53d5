-- ===== src/Device/Transport/Examples.antt =====
-- device/send.go, receive.go, timers.go: the theorems on a peer and its packets, at concrete ones.
use wgservermgr.Prelude.{
  ℕ, ◌+◌, ◌-◌, ◌%◌, ◌^◌, ◌≤◌, ◌<◌, ◌≡◌, ◌⊎◌, refl, true, false, none, some, List, [], ◌∷◌, ◌++◌,
  length, update, map, arith,
}
use wgservermgr.Prelude.Int.{pos}
use wgservermgr.Prelude.Bytes.{Bytes, zeros, drop, take}
use wgservermgr.Mgmt.Time.{zero_time}
use wgservermgr.Device.IndexTable.{lookup_index}
use wgservermgr.Prelude.Bits.{bit}
use wgservermgr.Device.AllowedIps.Xor.{leading_zeros}
use wgservermgr.Device.AllowedIps.Addresses.{common_bits4, common_bits16, choose}
use wgservermgr.Device.AllowedIps.Trie.{nil, entry}
use wgservermgr.Device.AllowedIps.Trie
use wgservermgr.Device.Cookie.Examples.{
  toy as toy_cookies, generator as toy_generator, checker as toy_checker, sent as sent_hello,
  source, draws,
}
use wgservermgr.Ratelimiter.{init}
use wgservermgr.Device.Transport.Handshaking.{Node, Arrival, handle_handshake}
use wgservermgr.Device.Transport.Guarded.{Handled, handle_handshake-Handled}
use wgservermgr.Device.Noise.Clear.{zero_and_flush_all, delete_keypairs}
use wgservermgr.Device.Noise.Session.{delete_keypair}
use wgservermgr.Device.Noise.Keys.{Primitives}
use wgservermgr.Device.Noise.State.{Keypair, Device}
use wgservermgr.Device.Noise.Examples.{toy, initiator, draws_with}
use wgservermgr.Device.Transport.Timers.{new_timer, TimerName}
use wgservermgr.Device.Transport.State.{device_up, Element, Link, Host, Outside}
use wgservermgr.Device.Transport.Send.{
  flush_staged_packets, reject_after_messages, at_top, send_staged_from, send_staged_packets,
}
use wgservermgr.Device.Transport.Sends.{Sends}
use wgservermgr.Device.Transport.Staged.{send_staged_packets-Sends}
use wgservermgr.Device.Transport.Race.{
  Shared, use_nonce, take_nonce, fresh, Falling, Step, Steps, Steps-Falling,
}
use wgservermgr.Device.Transport.Cipher.{
  calculate_padding_size, encrypt, decrypt, receive_keypair, padded,
}
use wgservermgr.Tun.Checksum.{be_number}
use wgservermgr.Device.Transport.Packets.{AllowedIps, lookup_allowed, accept_packet}
use wgservermgr.Device.Transport.Delivered.{Paired, IsIpv4, encrypt-Delivered}
use wgservermgr.Device.Transport.Accepted.{IsFromPeer, accept_packet-Accepted}
use wgservermgr.Device.Transport.Padding.{calculate_padding_size-bounds}
use wgservermgr.Device.Transport.Events.{mod_of}
use wgservermgr.Device.Transport.Steady.{Idle, pending_count}
use wgservermgr.Device.Transport.Expire.{fire, zero_and_flush_link}
use wgservermgr.Device.Transport.Life.{stop}
use wgservermgr.Device.Transport.Quiet.Steps.{
  Step as PeerStep, Steps as PeerSteps, fire-running, fire-stopped,
}
use wgservermgr.Device.Transport.Retry.{Tries, fire-gives_up, retransmits}

calculate_padding_size-bounds_example :
    (calculate_padding_size 1413 1420 < 16)
    × (◌≡◌ {A = ℕ} 1420 0 → (1413 + calculate_padding_size 1413 1420) % 16 ≡ 0)
    × (0 < 1420
        → 1413 ≤ 1420
        → (1413 + calculate_padding_size 1413 1420 ≤ 1420)
          × (((1413 + calculate_padding_size 1413 1420) % 16 ≡ 0)
              ⊎ (1413 + calculate_padding_size 1413 1420 ≡ 1420)))
calculate_padding_size-bounds_example = calculate_padding_size-bounds 1413 1420

-- Up to the MTU and no further.
padding_at_mtu : calculate_padding_size 1413 1420 ≡ 7
unfolding calculate_padding_size
padding_at_mtu = refl

-- Two goroutines have taken a nonce each.
abbrev two_taken : Shared
two_taken = take_nonce (take_nonce fresh)

Steps-Falling_example :
    Falling two_taken.send_nonce two_taken.given
    × Falling reject_after_messages two_taken.given
    × (two_taken.send_nonce < 2 ^ 64)
unfolding take_nonce
Steps-Falling_example = Steps-Falling two_taken (
    Steps.next fresh (take_nonce fresh) two_taken (Step.takes fresh (omega arith)) (
      Steps.next (take_nonce fresh) two_taken two_taken
        (Step.takes (take_nonce fresh) (omega arith)) (Steps.ends two_taken)))

two_nonces : two_taken.given ≡ 1 ∷ 0 ∷ []
unfolding take_nonce use_nonce
two_nonces = refl

-- A keypair that is two nonces before its limit.
abbrev used_keypair : Keypair
used_keypair = record {
  send_nonce = reject_after_messages - 2;
  send = 8 ∷ [];
  receive = 8 ∷ [];
  replay_filter = (initiator.keypairs 0).replay_filter;
  is_initiator = true;
  created = pos 1_000_000_000;
  local_index = 76;
  remote_index = 77;
}

abbrev ready_device : Device
ready_device = record initiator {
  peers = update initiator.peers 3 (record (initiator.peers 3) {
    keypairs = record { current = some 40; previous = none; next = none };
  });
  keypairs = update initiator.keypairs 40 used_keypair;
  index_table = (77, record { peer = some 4; handshake = none; keypair = some 40 }) ∷ [];
}

abbrev element_of : ℕ → Element
element_of n = record { packet = n ∷ []; nonce = 0; keypair = none }

abbrev busy_link : Link
busy_link = record {
  device = ready_device;
  state = device_up;
  timers = record {
    retransmit_handshake = new_timer;
    send_keepalive = new_timer;
    new_handshake = new_timer;
    zero_key_material = new_timer;
    persistent_keepalive = new_timer;
    handshake_attempts = 0;
    need_another_keepalive = false;
    sent_last_minute_handshake = false;
  };
  persistent_keepalive_interval = 25;
  last_sent_handshake = zero_time;
  last_handshake_nano = zero_time;
  cookie_generator = toy_generator;
  endpoint = some 5;
  clear_src_on_tx = false;
  disable_roaming = false;
  tx_bytes = 0;
  rx_bytes = 0;
  staged = (element_of 1 ∷ []) ∷ (element_of 2 ∷ element_of 3 ∷ []) ∷ [];
  outbound = [];
  wire = [];
}

abbrev host : Host
host = record { primitives = toy; cookies = toy_cookies; peer = 3 }

abbrev outside : Outside
outside = record {
  now = pos 2_000_000_000;
  timestamp = 2 ∷ [];
  draws = draws_with (6 ∷ []) 90;
  jitter = 100;
  mtu = 1420;
  send_ok = true;
  retried_ok = true;
}

send_staged_packets-Sends_example :
    (send_staged_from host outside 6 (busy_link, at_top)
      ≡ some (send_staged_packets host outside busy_link))
    × Sends 40 busy_link (send_staged_packets host outside busy_link)
send_staged_packets-Sends_example = send_staged_packets-Sends host outside 40 busy_link refl

abbrev idle_timers : Idle busy_link.timers
idle_timers = record {
  retransmit_handshake = refl;
  send_keepalive = refl;
  new_handshake = refl;
  zero_key_material = refl;
  persistent_keepalive = refl;
}

abbrev stopped_link : Link
stopped_link = stop host outside busy_link

-- A call that found the peer active sets a timer after the stop, and the timer expires.
abbrev late_link : Link
late_link = mod_of TimerName.send_keepalive outside 10 stopped_link

abbrev expired_link : Link
expired_link = fire host outside TimerName.send_keepalive late_link

fire-stopped_example : pending_count expired_link.timers + 1 ≤ 1
unfolding stop zero_and_flush_link flush_staged_packets zero_and_flush_all delete_keypairs
    delete_keypair
fire-stopped_example =
    fire-stopped host busy_link expired_link 1 1 idle_timers
      (PeerSteps.fires 1 0 late_link outside TimerName.send_keepalive (
        PeerSteps.sets_late 0 0 stopped_link outside TimerName.send_keepalive 10 (
          PeerSteps.next 0 0 busy_link stopped_link PeerSteps.new
            (PeerStep.stops outside busy_link))))
      (fire-running host outside TimerName.send_keepalive late_link)

abbrev twenty : List Outside
twenty =
    map (λ n. record outside { jitter = n })
      (0 ∷ 1 ∷ 2 ∷ 3 ∷ 4 ∷ 5 ∷ 6 ∷ 7 ∷ 8 ∷ 9 ∷ 10 ∷ 11 ∷ 12 ∷ 13 ∷ 14 ∷ 15 ∷ 16 ∷ 17 ∷ 18 ∷ 19 ∷ [])

abbrev waiting_link : Link
waiting_link = record busy_link {
  timers = record busy_link.timers {
    retransmit_handshake = record { alarm = some (pos 7_000_000_000); is_pending = true };
  };
}

abbrev fire_all : List Outside → Link → Link
fire_all [] l = l
fire_all (o ∷ os) l = fire_all os (fire host o TimerName.retransmit_handshake l)

abbrev transmissions : List Outside → Link → ℕ
transmissions [] l = 0
transmissions (o ∷ os) l =
    let l' = fire host o TimerName.retransmit_handshake l in
    length l'.wire - length l.wire + transmissions os l'

all_tried :
    (os : List Outside) (l : Link) → Tries host (fire_all os l) (length os) (transmissions os l) l
all_tried [] l = Tries.ends
all_tried (o ∷ os) l =
    Tries.tries o (length os) (transmissions os (fire host o TimerName.retransmit_handshake l)) l
      (all_tried os (fire host o TimerName.retransmit_handshake l))

-- The interval of the keepalives changes before the timer expires twenty times.
abbrev configured_link : Link
configured_link = record waiting_link { persistent_keepalive_interval = 30 }

fire-gives_up_example :
    (retransmits (fire_all twenty configured_link) ≡ false)
    × (transmissions twenty configured_link ≤ 19)
fire-gives_up_example =
    fire-gives_up host waiting_link (fire_all twenty configured_link) 20
      (transmissions twenty configured_link)
      (Tries.meets 20 (transmissions twenty configured_link) waiting_link configured_link
        (PeerStep.configures 30 waiting_link) (record { counted = omega arith; unset = λ low. low })
        (all_tried twenty configured_link))
      (omega arith)

open_plain : (text : Bytes) → some (drop 16 (zeros 16 ++ text)) ≡ some text
unfolding drop
open_plain text = refl

-- An AEAD whose tag is zero.
abbrev plain : Primitives
plain = record {
  blake2s = toy.blake2s;
  hmac = toy.hmac;
  scalar_mult = toy.scalar_mult;
  scalar_base_mult = toy.scalar_base_mult;
  seal = λ key nonce text ad. zeros 16 ++ text;
  unseal = λ key nonce text ad. some (drop 16 text);
  scalar_mult_comm = toy.scalar_mult_comm;
  unseal-seal = λ key nonce text ad. open_plain text;
}

-- From 10.0.0.2 to 10.0.0.1.
abbrev ip_packet : Bytes
ip_packet = 69 ∷ 0 ∷ 0 ∷ 20 ∷ zeros 8 ++ (10 ∷ 0 ∷ 0 ∷ 2 ∷ 10 ∷ 0 ∷ 0 ∷ 1 ∷ [])

-- One peer has every address.
abbrev routes : AllowedIps
routes = record { ipv4 = entry (some 4) 0 0 nil nil; ipv6 = nil }

paired : Paired ready_device used_keypair 40 4
unfolding lookup_index
paired = record { key = refl; small = omega arith; entry_peer = refl; entry_keypair = refl }

encrypt-Delivered_example :
    let msg = encrypt plain 1420 used_keypair 6 ip_packet in
    (receive_keypair (pos 2_000_000_000) ready_device msg ≡ some (some 4, 40))
    × (decrypt plain 40 used_keypair msg
        ≡ record { keypair = 40; counter = 6; packet = some (padded 1420 ip_packet) })
    × (accept_packet routes 4 (padded 1420 ip_packet) ≡ some ip_packet)
unfolding IsIpv4 lookup_allowed take drop be_number Trie.lookup common_bits4 leading_zeros bit
    choose
encrypt-Delivered_example =
    encrypt-Delivered plain (λ key nonce text ad. omega arith) (pos 2_000_000_000) ready_device 1420
      6 ip_packet used_keypair 40 4 routes paired refl (omega arith) (refl, omega arith, refl) refl

-- What is accepted of the packet, with five bytes of padding.
accept_packet-Accepted_example :
    (rest : Bytes) × (ip_packet ++ zeros 5 ≡ ip_packet ++ rest) × IsFromPeer routes 4 ip_packet
unfolding lookup_allowed take drop be_number Trie.lookup common_bits4 leading_zeros bit choose
    accept_packet
accept_packet-Accepted_example =
    accept_packet-Accepted routes 4 (ip_packet ++ zeros 5) ip_packet (λ six. omega arith) refl

-- An IPv6 header whose payload length wraps round: 39 bytes of its 40 are accepted.
abbrev wrapped_packet : Bytes
wrapped_packet = 96 ∷ 0 ∷ 0 ∷ 0 ∷ 255 ∷ 255 ∷ zeros 34

wrapped_accepted :
    accept_packet (record { ipv4 = nil; ipv6 = entry (some 4) 0 0 nil nil }) 4 wrapped_packet
    ≡ some (take 39 wrapped_packet)
unfolding lookup_allowed take drop be_number Trie.lookup common_bits16 leading_zeros bit choose
    accept_packet
wrapped_accepted = refl

-- A device under load, and an initiation whose first MAC is right.
abbrev loaded_node : Node
loaded_node = record {
  device = ready_device;
  links = λ _. busy_link;
  checker = toy_checker;
  limiter = init;
  under_load_until = zero_time;
  replies = [];
}

abbrev arrival : Arrival
arrival = record {
  msg_type = 1;
  packet = sent_hello.1;
  endpoint = 5;
  dst_bytes = source;
  dst_ip = 7;
  queued = 128;
  reply_draws = draws;
  limiter_now = 30;
}

handle_handshake-Handled_example :
    Handled host outside arrival loaded_node (handle_handshake host outside arrival loaded_node)
handle_handshake-Handled_example = handle_handshake-Handled host outside arrival loaded_node refl
