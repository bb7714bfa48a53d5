-- ===== src/Lib.antt =====
-- wgservermgr: a userspace WireGuard daemon (device/, replay/, ratelimiter/, tai64n/, tun/, conn/,
-- ipc/) with an HTTP management layer (mgmt/) that creates users, hands out addresses, limits
-- bandwidth and holds each user to one device at a time.
--
-- How the parts interact. device/ receives packets; ratelimiter/ limits the handshake messages of
-- an address, and replay/ rejects counters seen before in a session. mgmt/api serves requests: it
-- keeps users in the SQLite table of mgmt/store, tells the device of peers through mgmt/peers, and
-- asks mgmt/ratelimit for bandwidth rules. mgmt/session polls the device every three seconds and
-- pins each user's endpoint.
--
-- Files.
--   Prelude        shared names; Tests, Lists, Bits (laws of bit_or and bit_and), Words (uint64),
--                  Int (signed integers, int64), Maps (Go maps as association lists), Bytes (slices
--                  of bytes as lists), Slices (what a write leaves of a slice)
--   Replay         replay/replay.go: Filter.Reset is reset, Filter.ValidateCounter is
--                  validate_counter (its parts advance, clear, check_and_set). Replay/History is the
--                  specification, Replay/Ring and Replay/Refine the proof, Replay/Once a consequence
--   Ratelimiter    ratelimiter/ratelimiter.go: Allow is allow (its parts allow_found, spend), cleanup
--                  is cleanup; Bucket, Rate and Collect prove
--   Mgmt/Time      what mgmt/ uses of package time
--   Mgmt/Result    the errors of mgmt/, and results
--   Mgmt/Peers     mgmt/peers/device.go: PeerInfo and its two methods
--   Mgmt/Store     mgmt/store/user.go and store.go: Addresses (the search of allocateIP), Users (the
--                  operations), Sqlite (the database, as a parameter with laws), Memory (a table that
--                  meets the laws), Allocate and Create (proofs)
--   Mgmt/Session   mgmt/session/registry.go and monitor.go: handleUser is handle_user (its parts
--                  no_lock, same_endpoint, other_endpoint), tick is tick; Locks, Takeover, Ticks prove
--   Mgmt/Api       mgmt/api/server.go: the handlers; Rollback, Access and Switch prove
--   Mgmt/Config    mgmt/config/config.go: Load is load, of which config_of is the part after the file is
--                  read; Again proves
--   Device         device/allowedips.go: AllowedIps/Addresses and Xor are commonBits, choose and
--                  maskSelf, AllowedIps/Trie is insert, lookup and the exact case of nodePlacement
--                  (exact_peer);
--                  Prefixes, Inserted, Longest, Ordered and Routes prove. device/indextable.go:
--                  NewIndexForHandshake is IndexTable's new_index, Fresh proves
--   Device/Noise   device/noise-protocol.go, noise-helpers.go and keypair.go: Messages has the
--                  marshal and unmarshal methods, Keys the key derivation, State the records,
--                  Initiation and Response CreateMessage… and ConsumeMessage…, Session
--                  BeginSymmetricSession and ReceivedWithKeypair; Agreement, Answer and Secret prove
--                  that the two sides agree, Stale the replay guard, Turns the rotation,
--                  and Clear what ZeroAndFlushAll of device/peer.go leaves
--   Device/Cookie  device/cookie.go: each method under its name in snake_case; Marks and Exchange
--                  prove
--   Device/Transport  device/timers.go, send.go, receive.go and peer.go: State is Peer with its
--                  queues and the state of the device (Link), Timers and Events are the timers and
--                  what sets them, Expire their callbacks, Send is SendHandshakeInitiation and
--                  SendStagedPackets, Life is Start, Stop and the sender, Cipher the transport
--                  message, Packets the IP packet in it, Receive RoutineSequentialReceiver, Handshaking
--                  RoutineHandshake for all peers of the device (Node), Race the counter of a keypair
--                  in several goroutines. Initiating, Steady, Quiet, Nonces, Sends, Staged, Retry,
--                  Delivered, Accepted, Guarded and Padding prove
--   Tun/Checksum   tun/checksum.go: checksumNoFold is checksum_no_fold, of which the lines that add
--                  words of eight bytes one by one are the function add_words of their number; Carry,
--                  Sum and Header prove
--   Tai64n         tai64n/tai64n.go: stamp and After; Order proves
-- Files named Examples hold runs of the models and the theorems at concrete inputs.
--
-- Correspondence. Stateful code passes its state: a method returns the new state with its result.
-- Unsigned words are natural numbers with `% 2 ^ w` written out, signed ones integers with an
-- explicit wrap. A Go map is an association list with each key once; the array of the replay
-- filter is a function, since each of its indices is masked. An address of 4 or 16 bytes is the
-- number that its bytes spell, and a trie of device/allowedips.go a tree without the pointers to
-- parents. A peer and a keypair of device/ is the number of its pointer, and the handshake of a
-- peer a part of it; blake2s, hmac, curve25519 and chacha20poly1305 are the record Primitives, of
-- which two laws are used: the shared secret is symmetric, and what is sealed opens. Random bytes
-- are arguments, and a key that cannot be read is a flag. A slice out of range, a panic, is none.
-- binary.NativeEndian is little-endian. Each call is atomic: the mutexes are left out, and with
-- them interleavings inside a call, but for NewIndexForHandshake, whose rounds take what other
-- goroutines do between the two checks. Clock readings are arguments, one for each reading, in
-- Device/Transport one for each event, with what else the event takes from outside. There a step
-- is one event of a peer, a container of packets is taken whole, and a timer may expire at any
-- time; only Race has the steps of several goroutines inside a call, and Quiet/Steps a stop
-- between the check that a peer is active and the setting of a timer. A message that no draw of
-- an index ends is not sent.
--
-- Fuel. The search of allocateIP takes fuel, 256 rounds: hosts in use are bytes, so the search
-- stops at host 256 at the latest. The loops of SendStagedPackets take two turns for each staged
-- container and two more. The loop of NewIndexForHandshake runs over a list of rounds,
-- one for each draw. The loop of checksumNoFold has as much fuel as there are bytes, and each
-- round takes 128.
--
-- Not modelled: the removal of allowed IPs, the reading of sockets and of the TUN device,
-- NewPeer, the changes of the device's state and uapi.go of device/, the rest of tun/, conn/ and
-- ipc/, the tc commands of mgmt/ratelimit, the parsing in mgmt/peers, mgmt/setup and main;
-- SQLite, uuid, netip, gin and the cryptography are third-party or library code and stay
-- parameters or are left out. Log texts and the texts of errors are left out.
pub mod Prelude
pub mod Replay
pub mod Ratelimiter
pub mod Mgmt
pub mod Tai64n
pub mod Tun
pub mod Device
