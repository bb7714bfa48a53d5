-- ===== src/Device/Transport/Expire.antt =====
-- device/timers.go: the callbacks of the timers.
use wgservermgr.Prelude.{◌+◌, ◌*◌, ◌%◌, ◌^◌, true, false, not, ◌&&◌, ltb, if◌then◌else◌}
use wgservermgr.Device.Noise.Clear.{zero_and_flush_all}
use wgservermgr.Device.Transport.Timers.{
  TimerName, timer_of, set_timer, keepalive_timeout, reject_after_time, max_timer_handshakes,
}
use wgservermgr.Device.Transport.State.{Link, Host, Outside, timers_active}
use wgservermgr.Device.Transport.Events.{mod_of, del_of, set_attempts}
use wgservermgr.Device.Transport.Send.{
  mark_endpoint_src_for_clearing, flush_staged_packets, send_handshake_initiation, send_keepalive,
}

module _ (h : Host) (o : Outside) where
  -- `ZeroAndFlushAll`
  unfoldable pub zero_and_flush_link : Link → Link
  zero_and_flush_link l =
      flush_staged_packets (record l { device = zero_and_flush_all h.peer l.device })

  unfoldable pub expired_retransmit_handshake : Link → Link
  expired_retransmit_handshake l =
      let l1 = if timers_active h l then del_of TimerName.send_keepalive l else l in
      let l2 = flush_staged_packets l1 in
      if ltb max_timer_handshakes l.timers.handshake_attempts
      then (if timers_active h l2 && not l2.timers.zero_key_material.is_pending
          then mod_of TimerName.zero_key_material o (reject_after_time * 3) l2
          else l2)
      else send_handshake_initiation h o true (
          mark_endpoint_src_for_clearing
            (set_attempts ((l.timers.handshake_attempts + 1) % 2 ^ 32) l))

  unfoldable pub expired_send_keepalive : Link → Link
  expired_send_keepalive l =
      let l1 = send_keepalive h o l in
      let l2 : Link = record l1 { timers = record l1.timers { need_another_keepalive = false } } in
      if l1.timers.need_another_keepalive
      then (if timers_active h l2
          then mod_of TimerName.send_keepalive o keepalive_timeout l2
          else l2)
      else l1

  unfoldable pub expired_new_handshake : Link → Link
  expired_new_handshake l = send_handshake_initiation h o false (mark_endpoint_src_for_clearing l)

  unfoldable pub expired_zero_key_material : Link → Link
  expired_zero_key_material l = zero_and_flush_link l

  unfoldable pub expired_persistent_keepalive : Link → Link
  expired_persistent_keepalive l =
      if ltb 0 l.persistent_keepalive_interval then send_keepalive h o l else l

  unfoldable pub expired : TimerName → Link → Link
  expired TimerName.retransmit_handshake l = expired_retransmit_handshake l
  expired TimerName.send_keepalive l = expired_send_keepalive l
  expired TimerName.new_handshake l = expired_new_handshake l
  expired TimerName.zero_key_material l = expired_zero_key_material l
  expired TimerName.persistent_keepalive l = expired_persistent_keepalive l

  -- The callback that `NewTimer` gives to the timer.
  unfoldable pub fire : TimerName → Link → Link
  unfolding expired
  fire name l =
      let timer = timer_of name l.timers in
      if not timer.is_pending
      then l
      else expired name
          (record l { timers = set_timer name (record timer { is_pending = false }) l.timers })
