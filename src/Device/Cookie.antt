-- ===== src/Device/Cookie.antt =====
-- device/cookie.go: the two MACs of a handshake message, and the cookie that a device under load
-- gives to the source of a message. A message that is too short for its MACs is a panic, none.
pub mod Marks
pub mod Exchange
pub mod Examples
use wgservermgr.Prelude.{
  ℕ, ◌+◌, ◌-◌, ◌*◌, ◌≡◌, Bool, true, false, not, Option, none, some, if◌then◌else◌, List, [], ◌++◌,
  ltb, length,
}
use wgservermgr.Prelude.Int.{pos, ltb_ℤ}
use wgservermgr.Prelude.Bytes.{Bytes, ascii, zeros, take, drop, copy, copy_at, bytes_eq}
use wgservermgr.Mgmt.Time
use wgservermgr.Mgmt.Time.{Time, Duration, zero_time, second}
use wgservermgr.Device.Noise.Messages.{MessageCookieReply, message_cookie_reply_type}

-- The packages blake2s and chacha20poly1305, with what is used of them.
pub record CookiePrimitives : Type 0 where
  -- `blake2s.New256(nil)`, and `blake2s.New128(key)`: the key and what is written.
  pub hash256 : Bytes → Bytes
  pub mac128 : Bytes → Bytes → Bytes
  -- `Seal` and `Open` of `chacha20poly1305.NewX`: key, nonce, text, additional data.
  pub seal_x : Bytes → Bytes → Bytes → Bytes → Bytes
  pub unseal_x : Bytes → Bytes → Bytes → Bytes → Option Bytes
  pub length-mac128 : (key text : Bytes) → length (mac128 key text) ≡ 16
  pub unseal_x-seal_x :
      (key nonce text ad : Bytes) → unseal_x key nonce (seal_x key nonce text ad) ad ≡ some text

-- `CookieRefreshTime`
abbrev pub cookie_refresh_time : ℕ
cookie_refresh_time = 120 * second

-- `blake2s.Size128`
abbrev pub size128 : ℕ
size128 = 16

abbrev pub wg_label_mac1 : Bytes
wg_label_mac1 = ascii "mac1----"

abbrev pub wg_label_cookie : Bytes
wg_label_cookie = ascii "cookie--"

-- `time.Since(t) > CookieRefreshTime`, where `now` is the reading.
abbrev pub is_stale : Time → Time → Bool
is_stale now t = ltb_ℤ (pos cookie_refresh_time) (Time.sub now t)

pub record CookieChecker : Type 0 where
  pub mac1_key : Bytes
  pub secret : Bytes
  pub secret_set : Time
  pub encryption_key : Bytes

pub record CookieGenerator : Type 0 where
  pub mac1_key : Bytes
  pub cookie : Bytes
  pub cookie_set : Time
  pub has_last_mac1 : Bool
  pub last_mac1 : Bytes
  pub encryption_key : Bytes

-- What `CreateReply` takes from outside: the secret and the nonce it reads, whether it can read
-- them, and the clock before and after the secret is read.
pub record ReplyDraws : Type 0 where
  pub secret : Bytes
  pub secret_ok : Bool
  pub nonce : Bytes
  pub nonce_ok : Bool
  pub since : Time
  pub now : Time

module _ (c : CookiePrimitives) where
  -- `CookieChecker.Init`
  unfoldable pub init_checker : Bytes → CookieChecker → CookieChecker
  init_checker pk st = record st {
    mac1_key = c.hash256 (wg_label_mac1 ++ pk);
    encryption_key = c.hash256 (wg_label_cookie ++ pk);
    secret_set = zero_time;
  }

  -- `CookieGenerator.Init`
  unfoldable pub init_generator : Bytes → CookieGenerator → CookieGenerator
  init_generator pk st = record st {
    mac1_key = c.hash256 (wg_label_mac1 ++ pk);
    encryption_key = c.hash256 (wg_label_cookie ++ pk);
    cookie_set = zero_time;
  }

  -- `CheckMAC1`
  unfoldable pub check_mac1 : CookieChecker → Bytes → Option Bool
  check_mac1 st msg =
      let smac2 = length msg - size128 in
      let smac1 = smac2 - size128 in
      if ltb (length msg) (size128 + size128)
      then none
      else some (bytes_eq (c.mac128 st.mac1_key (take smac1 msg)) (take size128 (drop smac1 msg)))

  -- `CheckMAC2`, at the time `now`.
  unfoldable pub check_mac2 : Time → CookieChecker → Bytes → Bytes → Option Bool
  check_mac2 now st msg src =
      let smac2 = length msg - size128 in
      let cookie = c.mac128 st.secret src in
      if is_stale now st.secret_set
      then some false
      else if ltb (length msg) size128
      then none
      else some (bytes_eq (c.mac128 cookie (take smac2 msg)) (drop smac2 msg))

  -- `CreateReply` once the secret is fresh.
  unfoldable pub seal_reply :
      ReplyDraws
      → Bytes
      → ℕ
      → Bytes
      → CookieChecker
      → Option (CookieChecker × Option MessageCookieReply)
  seal_reply draws msg recv src st =
      let smac2 = length msg - size128 in
      let smac1 = smac2 - size128 in
      let cookie = c.mac128 st.secret src in
      if not draws.nonce_ok
      then some (st, none)
      else if ltb (length msg) (size128 + size128)
      then none
      else let reply : MessageCookieReply = record {
        type = message_cookie_reply_type;
        receiver = recv;
        nonce = draws.nonce;
        cookie = c.seal_x st.encryption_key draws.nonce cookie (take size128 (drop smac1 msg));
      } in
        some (st, some reply)

  -- `CreateReply`: the checker and the reply, if there is no error. A secret that cannot be read
  -- leaves what was read of it.
  unfoldable pub create_reply :
      ReplyDraws
      → Bytes
      → ℕ
      → Bytes
      → CookieChecker
      → Option (CookieChecker × Option MessageCookieReply)
  create_reply draws msg recv src st =
      if is_stale draws.since st.secret_set
      then (if draws.secret_ok
          then seal_reply draws msg recv src
              (record st { secret = draws.secret; secret_set = draws.now })
          else some (record st { secret = draws.secret }, none))
      else seal_reply draws msg recv src st

  -- `ConsumeReply`, at the time `now`.
  unfoldable pub consume_reply :
      Time → MessageCookieReply → CookieGenerator → CookieGenerator × Bool
  consume_reply now msg st =
      if not st.has_last_mac1
      then (st, false)
      else elim (c.unseal_x st.encryption_key msg.nonce msg.cookie st.last_mac1) [
        | none ↦ (st, false)
        | some cookie ↦ (record st { cookie_set = now; cookie = cookie }, true)
      ]

  -- `AddMacs`, at the time `now`: the generator and the message.
  unfoldable pub add_macs : Time → Bytes → CookieGenerator → Option (CookieGenerator × Bytes)
  add_macs now msg st =
      let smac2 = length msg - size128 in
      let smac1 = smac2 - size128 in
      if ltb (length msg) (size128 + size128)
      then none
      else let mac1 = c.mac128 st.mac1_key (take smac1 msg) in
        let msg1 = copy_at smac1 mac1 msg in
        let st1 = record st { last_mac1 = mac1; has_last_mac1 = true } in
        if is_stale now st.cookie_set
        then some (st1, msg1)
        else some (st1, copy_at smac2 (c.mac128 st.cookie (take smac2 msg1)) msg1)
