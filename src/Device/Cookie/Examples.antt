-- ===== src/Device/Cookie/Examples.antt =====
-- A cookie of device/cookie.go asked for, given and used, with primitives that are short enough to
-- run, and the theorems at that input.
use wgservermgr.Prelude.{◌+◌, ◌≡◌, refl, true, false, Option, none, some, [], ◌∷◌, arith}
use wgservermgr.Prelude.Int.{pos}
use wgservermgr.Prelude.Bytes.{Bytes, zeros, take, drop, copy, copy_at}
use wgservermgr.Mgmt.Time
use wgservermgr.Mgmt.Time.{Time, zero_time, second}
use wgservermgr.Device.Noise.Messages.{MessageCookieReply}
use wgservermgr.Device.Noise.Examples.{total, tag, open_tagged, open-tagged}
use wgservermgr.Device.Cookie.{
  CookiePrimitives, CookieChecker, CookieGenerator, init_checker, init_generator, check_mac1,
  check_mac2, ReplyDraws, seal_reply, create_reply, consume_reply, add_macs,
}
use wgservermgr.Device.Cookie.Marks.{Matches, init-Matches}
use wgservermgr.Device.Cookie.Exchange.{cookie-exchange}

abbrev pub toy : CookiePrimitives
toy = record {
  hash256 = λ text. total text ∷ [];
  mac128 = λ key text. (total key + total text) ∷ zeros 15;
  seal_x = λ key nonce text ad. tag key ad ∷ text;
  unseal_x = λ key nonce text ad. open_tagged key text ad;
  length-mac128 = λ key text. refl;
  unseal_x-seal_x = open-tagged;
}

abbrev pub generator : CookieGenerator
generator = init_generator toy (7 ∷ []) (record {
  mac1_key = [];
  cookie = zeros 16;
  cookie_set = zero_time;
  has_last_mac1 = false;
  last_mac1 = zeros 16;
  encryption_key = [];
})

abbrev pub checker : CookieChecker
checker =
    init_checker toy (7 ∷ [])
      (record { mac1_key = []; secret = zeros 32; secret_set = zero_time; encryption_key = [] })

-- Two messages of four bytes and their MACs, the address of their source, and a time.
abbrev pub hello : Bytes
hello = 1 ∷ 2 ∷ 3 ∷ 4 ∷ zeros 32

abbrev again : Bytes
again = 5 ∷ 6 ∷ 7 ∷ 8 ∷ zeros 32

abbrev pub source : Bytes
source = 10 ∷ 0 ∷ 0 ∷ 2 ∷ []

abbrev pub today : Time
today = pos 1_000_000_000_000_000_000

abbrev pub draws : ReplyDraws
draws = record {
  secret = 9 ∷ zeros 31;
  secret_ok = true;
  nonce = 4 ∷ zeros 23;
  nonce_ok = true;
  since = today;
  now = today;
}

-- The result of a call that has one.
abbrev pub result : {A : Type 0} → A → Option A → A
result a none = a
result a (some b) = b

abbrev no_reply : MessageCookieReply
no_reply = record { type = 0; receiver = 0; nonce = []; cookie = [] }

abbrev pub sent : CookieGenerator × Bytes
sent = result (generator, []) (add_macs toy today hello generator)

abbrev answer : CookieChecker × Option MessageCookieReply
answer = result (checker, none) (create_reply toy draws sent.1 71 source checker)

abbrev reply : MessageCookieReply
reply = result no_reply answer.1

matching : Matches generator checker
matching = init-Matches toy (7 ∷ []) _ _

cookie-exchange_example :
    (let (gen2, accepted) = consume_reply toy today reply sent.0 in
      (accepted ≡ true)
      × (gen3 : CookieGenerator) × (msg3 : Bytes) × (add_macs toy today again gen2
          ≡ some (gen3, msg3))
      × (check_mac1 toy answer.0 msg3 ≡ some true)
      × (check_mac2 toy today answer.0 msg3 source ≡ some true))
unfolding add_macs create_reply seal_reply init_checker init_generator take drop copy copy_at
    Time.sub
cookie-exchange_example =
    cookie-exchange toy generator sent.0 checker answer.0 hello sent.1 again source 71 draws reply
      today today today today matching (ground arith) (ground arith) refl refl refl refl
