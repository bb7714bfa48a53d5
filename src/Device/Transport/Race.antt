-- ===== src/Device/Transport/Race.antt =====
-- device/send.go: `SendStagedPackets` in several goroutines at once. They share the counter of the
-- keypair, on which each takes a nonce by an atomic addition; one that takes a nonce at the limit
-- sets the counter back to the limit in a second step, and others may come between the two.
use wgservermgr.Prelude.{
  ℕ, suc, ◌+◌, ◌-◌, ◌%◌, ◌^◌, ◌≤◌, ◌<◌, ◌≡◌, List, [], ◌∷◌, leb, if◌then◌else◌, arith, Bool-cases,
  inl, inr, subst, sym,
}
use wgservermgr.Device.Transport.Send.{reject_after_messages}

-- `storing` goroutines are between the two steps; `given` are the nonces of the packets to encrypt,
-- the last one first.
pub record Shared : Type 0 where
  pub send_nonce : ℕ
  pub storing : ℕ
  pub given : List ℕ

-- `keypair.sendNonce.Add(1) - 1`: the counter, and the nonce.
abbrev pub add_nonce : ℕ → ℕ × ℕ
add_nonce counter = let added = (counter + 1) % 2 ^ 64 in (added, (added + (2 ^ 64 - 1)) % 2 ^ 64)

-- What a goroutine does with the nonce.
unfoldable pub use_nonce : ℕ × ℕ → Shared → Shared
use_nonce (counter, nonce) s =
    if leb reject_after_messages nonce
    then record s { send_nonce = counter; storing = suc s.storing }
    else record s { send_nonce = counter; given = nonce ∷ s.given }

-- A goroutine takes a nonce.
unfoldable pub take_nonce : Shared → Shared
unfolding use_nonce
take_nonce s = use_nonce (add_nonce s.send_nonce) s

-- `keypair.sendNonce.Store(RejectAfterMessages)`
unfoldable pub store_limit : ℕ → Shared → Shared
store_limit waiting s = record s { send_nonce = reject_after_messages; storing = waiting }

abbrev pub goroutines : ℕ
goroutines = 2 ^ 13

-- The steps of any number of goroutines, of which less than `goroutines` wait to set the counter
-- back when another takes a nonce. `ExpireCurrentKeypairs` may set the counter at any time.
pub data Step : Shared → Shared → Type 0 where
  takes : (s : Shared) → s.storing < goroutines → Step s (take_nonce s)
  stores : (s : Shared) (waiting : ℕ) → s.storing ≡ suc waiting → Step s (store_limit waiting s)
  expires : (s : Shared) → Step s (store_limit s.storing s)

pub data Steps : Shared → Shared → Type 0 where
  ends : (s : Shared) → Steps s s
  next : (a b c : Shared) → Step a b → Steps b c → Steps a c

abbrev pub fresh : Shared
fresh = record { send_nonce = 0; storing = 0; given = [] }

-- Each is below the one before it in time order, so that none comes twice.
pub Falling : ℕ → List ℕ → Type 0
Falling bound [] = Unit
Falling bound (n ∷ ns) = (n < bound) × Falling n ns

record Sound (s : Shared) : Type 0 where
  counter : s.send_nonce ≤ reject_after_messages + s.storing
  few : s.storing ≤ goroutines
  late : 0 < s.storing → reject_after_messages ≤ s.send_nonce
  falling : Falling s.send_nonce s.given
  allowed : Falling reject_after_messages s.given

Falling-widen : (a b : ℕ) (ns : List ℕ) → a ≤ b → Falling a ns → Falling b ns
unfolding Falling
Falling-widen a b [] le f = tt
Falling-widen a b (n ∷ ns) le (lt, f) = (omega arith, f)

-- The addition does not wrap round, and the nonce is the counter.
add_nonce_exact : (n : ℕ) → n < 2 ^ 64 - 1 → add_nonce n ≡ (suc n, n)
add_nonce_exact n lt =
    let added : ((n + 1) % 2 ^ 64) ≡ suc n = omega arith in
    let nonce : ((suc n + (2 ^ 64 - 1)) % 2 ^ 64) ≡ n = omega arith in rw (added, nonce)

below_limit :
    (s : Shared)
    → Sound s
    → s.send_nonce < reject_after_messages
    → Sound (record s { send_nonce = suc s.send_nonce; given = s.send_nonce ∷ s.given })
unfolding Falling
below_limit s sound lt = record {
  counter = omega (arith, sound.counter);
  few = sound.few;
  late = λ busy. omega (arith, sound.late busy);
  falling = (omega arith, sound.falling);
  allowed = (lt, sound.falling);
}

at_limit :
    (s : Shared)
    → Sound s
    → s.storing < goroutines
    → reject_after_messages ≤ s.send_nonce
    → Sound (record s { send_nonce = suc s.send_nonce; storing = suc s.storing })
at_limit s sound lt le = record {
  counter = omega (arith, sound.counter);
  few = omega arith;
  late = λ busy. omega arith;
  falling = Falling-widen _ _ s.given (omega arith) sound.falling;
  allowed = sound.allowed;
}

use_nonce-Sound :
    (s : Shared)
    → Sound s
    → s.storing < goroutines
    → Sound (use_nonce (suc s.send_nonce, s.send_nonce) s)
unfolding use_nonce
use_nonce-Sound s sound lt = elim (Bool-cases (leb reject_after_messages s.send_nonce)) [
  | inl e ↦ rw e (at_limit s sound lt (ground (arith, e)))
  | inr e ↦ rw e (below_limit s sound (ground (arith, e)))
]

take_nonce-Sound : (s : Shared) → Sound s → s.storing < goroutines → Sound (take_nonce s)
unfolding take_nonce
take_nonce-Sound s sound lt =
    let exact = add_nonce_exact s.send_nonce (omega (arith, sound.counter)) in
    subst (λ p. Sound (use_nonce p s)) (sym exact) (use_nonce-Sound s sound lt)

Step-Sound : (a b : Shared) → Step a b → Sound a → Sound b
unfolding store_limit
Step-Sound _ _ (Step.takes s lt) sound = take_nonce-Sound s sound lt
Step-Sound _ _ (Step.stores s waiting e) sound = record {
  counter = omega arith;
  few = omega (arith, e, sound.few);
  late = λ busy. omega arith;
  falling = sound.allowed;
  allowed = sound.allowed;
}
Step-Sound _ _ (Step.expires s) sound = record {
  counter = omega arith;
  few = sound.few;
  late = λ busy. omega arith;
  falling = sound.allowed;
  allowed = sound.allowed;
}

Steps-Sound : (a b : Shared) → Steps a b → Sound a → Sound b
Steps-Sound _ _ (Steps.ends s) sound = sound
Steps-Sound _ _ (Steps.next a b c step steps) sound =
    Steps-Sound b c steps (Step-Sound a b step sound)

fresh-Sound : Sound fresh
unfolding Falling
fresh-Sound = record {
  counter = omega arith;
  few = omega arith;
  late = λ busy. ground (arith, busy);
  falling = tt;
  allowed = tt;
}

-- However the goroutines that send with a keypair take their turns, and as long as at most 2 ^ 13
-- of them are between the addition and the store, no nonce is given twice, every nonce given is
-- below RejectAfterMessages, and the counter does not wrap round.
pub Steps-Falling :
    (s : Shared)
    → Steps fresh s
    → Falling s.send_nonce s.given × Falling reject_after_messages s.given × (s.send_nonce < 2 ^ 64)
Steps-Falling s steps =
    let sound = Steps-Sound fresh s steps fresh-Sound in
    (sound.falling, sound.allowed, omega (arith, sound.counter, sound.few))
