-- ===== src/Prelude/Bytes.antt =====
-- Byte slices as lists of numbers: Go's slicing, `copy`, and package encoding/binary.
use wgservermgr.Prelude.Tests.{◌==◌}
use wgservermgr.Prelude.Lists.{length}
use wgservermgr.Prelude.Maps.{Key}
use Prim.Native.Char.{code}
use Prim.Native.String.{String}
use Prim.Native.Nat.{ℕ, zero, suc, ◌+◌, ◌*◌, ◌-◌, ◌/◌, ◌%◌, ◌^◌, ◌≤◌, ◌<◌}
use native.Mathlib.Omega.{arith}
use native.Mathlib.Nat.{pow-suc}
use mathlib.Core.Path.{◌≡◌, refl, sym, ap, ◌∙◌}
use mathlib.Core.List.{List, [], ◌∷◌, ◌++◌, append_assoc, append-nil}
use mathlib.Core.Bool.{Bool, true, false, ◌&&◌}
use mathlib.Core.Logic.{◌↔◌}

abbrev pub Bytes : Type 0
Bytes = List ℕ

abbrev pub AllBytes : Bytes → Type 0
AllBytes [] = Unit
AllBytes (x ∷ xs) = (x < 256) × AllBytes xs

-- The bytes of an ASCII text.
abbrev pub ascii : String → Bytes
ascii String.[] = []
ascii (String.◌∷◌ c s) = code c ∷ ascii s

-- An array of zeros.
abbrev pub zeros : ℕ → Bytes
zeros zero = []
zeros (suc n) = 0 ∷ zeros n

-- `b[:n]` and `b[n:]`, for n up to the length.
unfoldable pub take : ℕ → Bytes → Bytes
take zero b = []
take (suc n) [] = []
take (suc n) (x ∷ b) = x ∷ take n b

unfoldable pub drop : ℕ → Bytes → Bytes
drop zero b = b
drop (suc n) [] = []
drop (suc n) (x ∷ b) = drop n b

-- `copy(dst, src)`: as many bytes as both have.
unfoldable pub copy : Bytes → Bytes → Bytes
copy [] src = []
copy (x ∷ dst) [] = x ∷ dst
copy (x ∷ dst) (y ∷ src) = y ∷ copy dst src

-- `copy(dst[n:], src)`.
unfoldable pub copy_at : ℕ → Bytes → Bytes → Bytes
copy_at zero src dst = copy dst src
copy_at (suc n) src [] = []
copy_at (suc n) src (x ∷ dst) = x ∷ copy_at n src dst

-- Whether two slices have the same bytes.
unfoldable pub bytes_eq : Bytes → Bytes → Bool
bytes_eq [] [] = true
bytes_eq [] (y ∷ b) = false
bytes_eq (x ∷ a) [] = false
bytes_eq (x ∷ a) (y ∷ b) = x == y && bytes_eq a b

-- `binary.LittleEndian`: the bytes of a number and the number of bytes.
unfoldable pub le_bytes : ℕ → ℕ → Bytes
le_bytes zero v = []
le_bytes (suc n) v = (v % 256) ∷ le_bytes n (v / 256)

unfoldable pub le_number : Bytes → ℕ
le_number [] = 0
le_number (x ∷ b) = x + 256 * le_number b

-- `binary.BigEndian`.
unfoldable pub be_bytes : ℕ → ℕ → Bytes
be_bytes zero v = []
be_bytes (suc n) v = (v / 256 ^ n % 256) ∷ be_bytes n v

pub bytes_eq_iff : (a b : Bytes) → (bytes_eq a b ≡ true) ↔ (a ≡ b)
unfolding bytes_eq
bytes_eq_iff [] [] = (λ h. refl, λ h. refl)
bytes_eq_iff [] (y ∷ b) = ground arith
bytes_eq_iff (x ∷ a) [] = ground arith
bytes_eq_iff (x ∷ a) (y ∷ b) = ground (arith, bytes_eq_iff a b)

instance abbrev pub bytes_key : Key Bytes
bytes_key = record { same = bytes_eq; same_iff = bytes_eq_iff }

pub length-zeros : (n : ℕ) → length (zeros n) ≡ n
length-zeros zero = refl
length-zeros (suc n) = ap suc (length-zeros n)

pub length-append : (a b : Bytes) → length (a ++ b) ≡ length a + length b
length-append [] b = omega arith
length-append (x ∷ a) b = omega (arith, length-append a b)

pub length-le_bytes : (n v : ℕ) → length (le_bytes n v) ≡ n
unfolding le_bytes
length-le_bytes zero v = refl
length-le_bytes (suc n) v = ap suc (length-le_bytes n (v / 256))

pub length-drop : (n : ℕ) (b : Bytes) → length (drop n b) ≡ length b - n
unfolding drop
length-drop zero b = omega arith
length-drop (suc n) [] = omega arith
length-drop (suc n) (x ∷ b) = omega (arith, length-drop n b)

pub length-take : (n : ℕ) (b : Bytes) → n ≤ length b → length (take n b) ≡ n
unfolding take
length-take zero b h = refl
length-take (suc n) [] h = absurd (omega arith)
length-take (suc n) (x ∷ b) h = ap suc (length-take n b (omega arith))

pub le_number-le_bytes : (n v : ℕ) → v < 256 ^ n → le_number (le_bytes n v) ≡ v
unfolding le_number le_bytes
le_number-le_bytes zero v h = omega arith
le_number-le_bytes (suc n) v h =
    omega (arith, le_number-le_bytes n (v / 256) (omega (arith, pow-suc 256 n)))

pub le_bytes-le_number : (b : Bytes) → AllBytes b → le_bytes (length b) (le_number b) ≡ b
unfolding le_number le_bytes
le_bytes-le_number [] h = refl
le_bytes-le_number (x ∷ b) h =
    let low : (x + 256 * le_number b) % 256 ≡ x = omega (arith, h.0) in
    let high : (x + 256 * le_number b) / 256 ≡ le_number b = omega (arith, h.0) in
    rw (low, high, le_bytes-le_number b h.1)

pub drop-all : (n : ℕ) (b : Bytes) → length b ≤ n → drop n b ≡ []
unfolding drop
drop-all zero [] h = refl
drop-all zero (x ∷ b) h = absurd (omega arith)
drop-all (suc n) [] h = refl
drop-all (suc n) (x ∷ b) h = drop-all n b (omega arith)

pub drop-drop : (m n : ℕ) (b : Bytes) → drop m (drop n b) ≡ drop (n + m) b
unfolding drop
drop-drop m zero b = ap (λ k. drop k b) (omega arith)
drop-drop m (suc n) [] = drop-all m [] (omega arith) ∙ sym (drop-all (suc n + m) [] (omega arith))
drop-drop m (suc n) (x ∷ b) =
    let later : suc n + m ≡ suc (n + m) = omega arith in rw later (drop-drop m n b)

pub drop-append : (a b : Bytes) (n : ℕ) → length a ≡ n → drop n (a ++ b) ≡ b
unfolding drop
drop-append [] b zero h = refl
drop-append [] b (suc n) h = absurd (omega arith)
drop-append (x ∷ a) b zero h = absurd (omega arith)
drop-append (x ∷ a) b (suc n) h = drop-append a b n (omega arith)

pub take-append : (a b : Bytes) (n : ℕ) → length a ≡ n → take n (a ++ b) ≡ a
unfolding take
take-append [] b zero h = refl
take-append [] b (suc n) h = absurd (omega arith)
take-append (x ∷ a) b zero h = absurd (omega arith)
take-append (x ∷ a) b (suc n) h = ap (◌∷◌ x) (take-append a b n (omega arith))

pub take-drop : (n : ℕ) (b : Bytes) → take n b ++ drop n b ≡ b
unfolding take drop
take-drop zero b = refl
take-drop (suc n) [] = refl
take-drop (suc n) (x ∷ b) = ap (◌∷◌ x) (take-drop n b)

-- A destination that is no longer than the source becomes its beginning.
pub copy-take :
    (dst src : Bytes) (n : ℕ) → length dst ≡ n → n ≤ length src → copy dst src ≡ take n src
unfolding copy take
copy-take [] src zero h p = refl
copy-take [] src (suc n) h p = absurd (omega arith)
copy-take (x ∷ dst) src zero h p = absurd (omega arith)
copy-take (x ∷ dst) [] (suc n) h p = absurd (omega arith)
copy-take (x ∷ dst) (y ∷ src) (suc n) h p =
    ap (◌∷◌ y) (copy-take dst src n (omega arith) (omega arith))

pub copy-drop :
    (dst src : Bytes) → length src ≤ length dst → copy dst src ≡ src ++ drop (length src) dst
unfolding copy drop
copy-drop [] [] h = refl
copy-drop [] (y ∷ src) h = absurd (omega arith)
copy-drop (x ∷ dst) [] h = refl
copy-drop (x ∷ dst) (y ∷ src) h = ap (◌∷◌ y) (copy-drop dst src (omega arith))

copy_at-append :
    (a src dst : Bytes) (n : ℕ)
    → length a ≡ n
    → length src ≤ length dst
    → copy_at n src (a ++ dst) ≡ a ++ (src ++ drop (length src) dst)
unfolding copy_at
copy_at-append [] src dst zero h p = copy-drop dst src p
copy_at-append [] src dst (suc n) h p = absurd (omega arith)
copy_at-append (x ∷ a) src dst zero h p = absurd (omega arith)
copy_at-append (x ∷ a) src dst (suc n) h p = ap (◌∷◌ x) (copy_at-append a src dst n (omega arith) p)

-- A buffer whose beginning is written.
unfoldable pub filled : Bytes → Bytes → Bytes
filled a b = a ++ drop (length a) b

-- The next write of a sequence of writes from the beginning on.
pub copy_at-filled :
    (a src b : Bytes) (n : ℕ)
    → length a ≡ n
    → n + length src ≤ length b
    → copy_at n src (filled a b) ≡ filled (a ++ src) b
unfolding filled
copy_at-filled a src b n h p =
    copy_at-append a src (drop (length a) b) n h (omega (arith, length-drop (length a) b))
    ∙ sym (append_assoc a src _)
    ∙ ap (◌++◌ (a ++ src))
        (drop-drop (length src) (length a) b ∙ ap (λ k. drop k b) (sym (length-append a src)))

pub filled-all : (a b : Bytes) → length b ≤ length a → filled a b ≡ a
unfolding filled
filled-all a b h = ap (◌++◌ a) (drop-all (length a) b h) ∙ append-nil a

-- `b'` is the buffer `b` with `a`, of length `n`, written at its beginning.
pub Written : ℕ → Bytes → Bytes → Bytes → Type 0
Written n a b b' = (b' ≡ filled a b) × (length a ≡ n)

-- The first write, and each of the next ones.
pub Written-first :
    (src b : Bytes) (n : ℕ) → length src ≡ n → n ≤ length b → Written n src b (copy_at 0 src b)
unfolding Written filled drop
Written-first src b n h p = (copy_at-filled [] src b 0 refl (omega arith), h)

pub Written-next :
    (n m : ℕ) (a src b b' : Bytes)
    → Written n a b b'
    → length src ≡ m
    → n + m ≤ length b
    → Written (n + m) (a ++ src) b (copy_at n src b')
unfolding Written
Written-next n m a src b b' w h p = (
  ap (copy_at n src) w.0 ∙ copy_at-filled a src b n w.1 (omega arith),
  omega (arith, w.1, length-append a src),
)

pub Written-all : (n : ℕ) (a b b' : Bytes) → Written n a b b' → length b ≤ n → b' ≡ a
unfolding Written
Written-all n a b b' w p = w.0 ∙ filled-all a b (omega (arith, w.1))

-- What stands after the field `f`, and the field itself read into an array of its size.
pub drop-next : (k n : ℕ) (b f r : Bytes) → drop k b ≡ f ++ r → length f ≡ n → drop (k + n) b ≡ r
drop-next k n b f r h p = sym (drop-drop n k b) ∙ ap (drop n) h ∙ drop-append f r n p

pub copy-field :
    (k : ℕ) (b f r old : Bytes)
    → drop k b ≡ f ++ r
    → length old ≡ length f
    → copy old (drop k b) ≡ f
copy-field k b f r old h p =
    ap (copy old) h
    ∙ copy-take old (f ++ r) (length f) p (omega (arith, length-append f r))
    ∙ take-append f r (length f) refl

pub le_number-field :
    (k n v : ℕ) (b r : Bytes)
    → drop k b ≡ le_bytes n v ++ r
    → v < 256 ^ n
    → le_number (take n (drop k b)) ≡ v
le_number-field k n v b r h p =
    ap (λ d. le_number (take n d)) h
    ∙ ap le_number (take-append (le_bytes n v) r n (length-le_bytes n v))
    ∙ le_number-le_bytes n v p

pub drop-zero : (b : Bytes) → drop 0 b ≡ b
unfolding drop
drop-zero b = refl
