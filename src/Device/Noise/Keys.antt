-- ===== src/Device/Noise/Keys.antt =====
-- device/noise-helpers.go: the functions of keys and hashes that the handshake is made of. The
-- packages blake2s, hmac, curve25519 and chacha20poly1305 are a parameter.
use Prim.Native.Nat.{bit_and, bit_or}
use wgservermgr.Prelude.{
  ℕ, zero, suc, ◌≡◌, Bool, true, ◌&&◌, Option, none, some, ◌==◌, [], ◌∷◌, ◌++◌, if◌then◌else◌,
}
use wgservermgr.Prelude.Bytes.{Bytes, zeros}

pub record Primitives : Type 0 where
  -- `blake2s.Sum256`, and the HMAC with it: the key and what is written.
  pub blake2s : Bytes → Bytes
  pub hmac : Bytes → Bytes → Bytes
  -- `curve25519.ScalarMult` and `ScalarBaseMult`.
  pub scalar_mult : Bytes → Bytes → Bytes
  pub scalar_base_mult : Bytes → Bytes
  -- `Seal` and `Open` of a key: nonce, text, additional data.
  pub seal : Bytes → Bytes → Bytes → Bytes → Bytes
  pub unseal : Bytes → Bytes → Bytes → Bytes → Option Bytes
  -- Two sides have the same secret, and what is sealed opens.
  pub scalar_mult_comm :
      (a b : Bytes) → scalar_mult a (scalar_base_mult b) ≡ scalar_mult b (scalar_base_mult a)
  pub unseal-seal :
      (key nonce text ad : Bytes) → unseal key nonce (seal key nonce text ad) ad ≡ some text

abbrev pub zero_nonce : Bytes
zero_nonce = zeros 12

-- `isZero`
unfoldable pub is_zero : Bytes → Bool
is_zero [] = true
is_zero (x ∷ b) = x == 0 && is_zero b

-- The two bytes that `clamp` changes, in a key of 32 bytes.
unfoldable pub set_byte : ℕ → (ℕ → ℕ) → Bytes → Bytes
set_byte i f [] = []
set_byte zero f (x ∷ b) = f x ∷ b
set_byte (suc i) f (x ∷ b) = x ∷ set_byte i f b

unfoldable pub clamp : Bytes → Bytes
clamp sk = set_byte 31 (λ x. bit_or (bit_and x 127) 64) (set_byte 0 (λ x. bit_and x 248) sk)

module _ (c : Primitives) where
  unfoldable pub hmac1 : Bytes → Bytes → Bytes
  hmac1 key in0 = c.hmac key in0

  unfoldable pub hmac2 : Bytes → Bytes → Bytes → Bytes
  hmac2 key in0 in1 = c.hmac key (in0 ++ in1)

  unfoldable pub kdf1 : Bytes → Bytes → Bytes
  kdf1 key input = hmac1 (hmac1 key input) (1 ∷ [])

  unfoldable pub kdf2 : Bytes → Bytes → Bytes × Bytes
  kdf2 key input =
      let prk = hmac1 key input in let t0 = hmac1 prk (1 ∷ []) in (t0, hmac2 prk t0 (2 ∷ []))

  unfoldable pub kdf3 : Bytes → Bytes → Bytes × Bytes × Bytes
  kdf3 key input =
      let prk = hmac1 key input in
      let t0 = hmac1 prk (1 ∷ []) in
      let t1 = hmac2 prk t0 (2 ∷ []) in (t0, t1, hmac2 prk t1 (3 ∷ []))

  -- `publicKey`
  unfoldable pub public_key : Bytes → Bytes
  public_key sk = c.scalar_base_mult sk

  -- `sharedSecret`, none for `errInvalidPublicKey`: no caller uses the secret then.
  unfoldable pub shared_secret : Bytes → Bytes → Option Bytes
  shared_secret sk pk = let ss = c.scalar_mult sk pk in if is_zero ss then none else some ss

  unfoldable pub mix_key : Bytes → Bytes → Bytes
  mix_key chain_key input = kdf1 chain_key input

  unfoldable pub mix_hash : Bytes → Bytes → Bytes
  mix_hash hash input = c.blake2s (hash ++ input)
