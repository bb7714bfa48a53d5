-- ===== src/Device/Transport/Events.antt =====
-- device/timers.go: what happens to the timers of a peer when packets come and go.
use wgservermgr.Prelude.{ℕ, ◌+◌, ◌*◌, true, false, not, ◌&&◌, ltb, if◌then◌else◌}
use wgservermgr.Mgmt.Time.{second}
use wgservermgr.Device.Transport.Timers.{
  TimerName, set_timer, mod_timer, del_timer, rekey_timeout, keepalive_timeout, reject_after_time,
}
use wgservermgr.Device.Transport.State.{Link, Host, Outside, timers_active}

abbrev pub millisecond : ℕ
millisecond = 1_000_000

-- One `Mod` or `Del` of a timer of the peer.
abbrev pub mod_of : TimerName → Outside → ℕ → Link → Link
mod_of name o d l = record l { timers = set_timer name (mod_timer o.now d) l.timers }

abbrev pub del_of : TimerName → Link → Link
del_of name l = record l { timers = set_timer name del_timer l.timers }

abbrev pub set_attempts : ℕ → Link → Link
set_attempts n l = record l { timers = record l.timers { handshake_attempts = n } }

module _ (h : Host) (o : Outside) where
  unfoldable pub timers_data_sent : Link → Link
  timers_data_sent l =
      if timers_active h l && not l.timers.new_handshake.is_pending
      then mod_of TimerName.new_handshake o
          (keepalive_timeout + rekey_timeout + millisecond * o.jitter) l
      else l

  unfoldable pub timers_data_received : Link → Link
  timers_data_received l =
      if timers_active h l
      then (if not l.timers.send_keepalive.is_pending
          then mod_of TimerName.send_keepalive o keepalive_timeout l
          else record l { timers = record l.timers { need_another_keepalive = true } })
      else l

  unfoldable pub timers_any_authenticated_packet_sent : Link → Link
  timers_any_authenticated_packet_sent l =
      if timers_active h l then del_of TimerName.send_keepalive l else l

  unfoldable pub timers_any_authenticated_packet_received : Link → Link
  timers_any_authenticated_packet_received l =
      if timers_active h l then del_of TimerName.new_handshake l else l

  unfoldable pub timers_handshake_initiated : Link → Link
  timers_handshake_initiated l =
      if timers_active h l
      then mod_of TimerName.retransmit_handshake o (rekey_timeout + millisecond * o.jitter) l
      else l

  unfoldable pub timers_handshake_complete : Link → Link
  timers_handshake_complete l =
      let l1 = if timers_active h l then del_of TimerName.retransmit_handshake l else l in
      record l1 {
        timers = record l1.timers { handshake_attempts = 0; sent_last_minute_handshake = false };
        last_handshake_nano = o.now;
      }

  unfoldable pub timers_session_derived : Link → Link
  timers_session_derived l =
      if timers_active h l
      then mod_of TimerName.zero_key_material o (reject_after_time * 3) l
      else l

  unfoldable pub timers_any_authenticated_packet_traversal : Link → Link
  timers_any_authenticated_packet_traversal l =
      let keepalive = l.persistent_keepalive_interval in
      if ltb 0 keepalive && timers_active h l
      then mod_of TimerName.persistent_keepalive o (keepalive * second) l
      else l
