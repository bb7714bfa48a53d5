-- ===== src/Device/Transport/Timers.antt =====
-- device/timers.go: the timers of a peer, and the functions that set and stop one.
use wgservermgr.Prelude.{ℕ, ◌*◌, Bool, true, false, Option, none, some}
use wgservermgr.Prelude.Int.{pos, ◌+ℤ◌}
use wgservermgr.Mgmt.Time.{Time, second}

-- `alarm` is what the Go timer was last set to. A callback may run late, when that has changed.
pub record Timer : Type 0 where
  pub alarm : Option Time
  pub is_pending : Bool

pub data TimerName : Type 0 where
  retransmit_handshake send_keepalive new_handshake zero_key_material persistent_keepalive :
      TimerName

pub record Timers : Type 0 where
  pub retransmit_handshake : Timer
  pub send_keepalive : Timer
  pub new_handshake : Timer
  pub zero_key_material : Timer
  pub persistent_keepalive : Timer
  pub handshake_attempts : ℕ
  pub need_another_keepalive : Bool
  pub sent_last_minute_handshake : Bool

-- `NewTimer`, which stops the timer that it makes.
abbrev pub new_timer : Timer
new_timer = record { alarm = none; is_pending = false }

-- `Timer.Mod`, at the time `now`, with a number of nanoseconds.
abbrev pub mod_timer : Time → ℕ → Timer
mod_timer now d = record { alarm = some (now +ℤ pos d); is_pending = true }

-- `Timer.Del`, and `DelSync`, which waits for the callback between two of them.
abbrev pub del_timer : Timer
del_timer = record { alarm = none; is_pending = false }

abbrev pub timer_of : TimerName → Timers → Timer
timer_of TimerName.retransmit_handshake t = t.retransmit_handshake
timer_of TimerName.send_keepalive t = t.send_keepalive
timer_of TimerName.new_handshake t = t.new_handshake
timer_of TimerName.zero_key_material t = t.zero_key_material
timer_of TimerName.persistent_keepalive t = t.persistent_keepalive

abbrev pub set_timer : TimerName → Timer → Timers → Timers
set_timer TimerName.retransmit_handshake timer t = record t { retransmit_handshake = timer }
set_timer TimerName.send_keepalive timer t = record t { send_keepalive = timer }
set_timer TimerName.new_handshake timer t = record t { new_handshake = timer }
set_timer TimerName.zero_key_material timer t = record t { zero_key_material = timer }
set_timer TimerName.persistent_keepalive timer t = record t { persistent_keepalive = timer }

-- The constants of constants.go, in nanoseconds where they are durations.
abbrev pub rekey_timeout : ℕ
rekey_timeout = 5 * second

abbrev pub keepalive_timeout : ℕ
keepalive_timeout = 10 * second

abbrev pub reject_after_time : ℕ
reject_after_time = 180 * second

abbrev pub rekey_after_time : ℕ
rekey_after_time = 120 * second

abbrev pub max_timer_handshakes : ℕ
max_timer_handshakes = 18

-- `timersInit`
abbrev pub timers_init : Timers → Timers
timers_init t = record t {
  retransmit_handshake = new_timer;
  send_keepalive = new_timer;
  new_handshake = new_timer;
  zero_key_material = new_timer;
  persistent_keepalive = new_timer;
}

-- `timersStart`
abbrev pub timers_start : Timers → Timers
timers_start t = record t {
  handshake_attempts = 0;
  sent_last_minute_handshake = false;
  need_another_keepalive = false;
}

-- `timersStop`
abbrev pub timers_stop : Timers → Timers
timers_stop t = record t {
  retransmit_handshake = del_timer;
  send_keepalive = del_timer;
  new_handshake = del_timer;
  zero_key_material = del_timer;
  persistent_keepalive = del_timer;
}
