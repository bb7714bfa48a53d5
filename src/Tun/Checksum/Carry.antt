-- ===== src/Tun/Checksum/Carry.antt =====
-- tun/checksum.go: the accumulator against the sum of the words.
use wgservermgr.Prelude.{
  ℕ, zero, suc, ◌+◌, ◌*◌, ◌%◌, ◌^◌, ◌≡◌, ◌≤◌, ◌<◌, refl, sym, ap, ◌∙◌, [], ◌∷◌, ◌==◌, length, arith,
  subst,
}
use native.Mathlib.Nat.{pow-suc}
use wgservermgr.Prelude.Bytes.{
  Bytes, AllBytes, take, drop, le_bytes, le_number, drop-zero, length-drop, length-take, drop-drop,
}
use wgservermgr.Tun.Checksum.{add64_carry, be_number, swap64, add_words, close}

-- The sum of the big-endian words of 16 bits, the last byte of an odd number followed by a zero.
unfoldable pub sum16 : Bytes → ℕ
sum16 [] = 0
sum16 (x ∷ []) = x * 256
sum16 (x ∷ y ∷ b) = x * 256 + y + sum16 b

-- A number in the native order stands for a sum of big-endian words: it is congruent but for the
-- order of the bytes, and zero for zero only.
unfoldable pub Stands : ℕ → ℕ → Type 0
Stands v t = ((256 * v) % 65535 ≡ t % 65535) × ((v == 0) ≡ (t == 0))

pub swap64-Stands : (v : ℕ) → v < 2 ^ 64 → Stands (swap64 v) v
unfolding Stands swap64 be_number le_bytes
swap64-Stands v h = (omega arith, ground arith)

pub swap64-bound : (v : ℕ) → swap64 v < 2 ^ 64
unfolding swap64 be_number le_bytes
swap64-bound v = omega arith

-- The accumulator before it is closed.
unfoldable pub Carried : ℕ × ℕ → ℕ → Type 0
Carried (ac, carry) t = (carry ≤ 1) × (ac + carry < 2 ^ 64) × Stands (ac + carry) t

pub add64_carry-Carried :
    (ac carry v t s : ℕ)
    → Carried (ac, carry) t
    → v < 2 ^ 64
    → Stands v s
    → Carried (add64_carry ac v carry) (t + s)
unfolding Carried Stands
add64_carry-Carried ac carry v t s (c, bound, (same, zeros)) h (same', zeros') =
    (omega arith, omega arith, (omega arith, ground arith))

pub close-Stands : (r : ℕ × ℕ) (t : ℕ) → Carried r t → (close r < 2 ^ 64) × Stands (close r) t
unfolding Carried Stands close
close-Stands (ac, carry) t (c, bound, (same, zeros)) = (omega arith, (omega arith, ground arith))

le_number-bound : (b : Bytes) → AllBytes b → le_number b < 256 ^ length b
unfolding le_number
le_number-bound [] h = omega arith
le_number-bound (x ∷ b) (h, hs) =
    let rest = le_number-bound b hs in omega (arith, pow-suc 256 (length b))

zeros-pair :
    (x y n s : ℕ) → (n == 0) ≡ (s == 0) → (x + 256 * (y + 256 * n) == 0) ≡ (x * 256 + y + s == 0)
zeros-pair x y n s h = ground arith

pub le_number-Stands : (b : Bytes) → AllBytes b → Stands (le_number b) (sum16 b)
unfolding Stands le_number sum16
le_number-Stands [] h = (refl, refl)
le_number-Stands (x ∷ []) (h, hs) = (omega arith, ground arith)
le_number-Stands (x ∷ y ∷ b) (h, (h', hs)) =
    let (same, zeros) = le_number-Stands b hs in
    (omega arith, zeros-pair x y (le_number b) (sum16 b) zeros)

pub AllBytes-take : (n : ℕ) (b : Bytes) → AllBytes b → AllBytes (take n b)
unfolding take
AllBytes-take zero b h = tt
AllBytes-take (suc n) [] h = tt
AllBytes-take (suc n) (x ∷ b) (h, hs) = (h, AllBytes-take n b hs)

pub AllBytes-drop : (n : ℕ) (b : Bytes) → AllBytes b → AllBytes (drop n b)
unfolding drop
AllBytes-drop zero b h = h
AllBytes-drop (suc n) [] h = tt
AllBytes-drop (suc n) (x ∷ b) (h, hs) = AllBytes-drop n b hs

abbrev pub double : ℕ → ℕ
double zero = 0
double (suc k) = suc (suc (double k))

-- Cutting off an even number of bytes splits the sum.
pub sum16-split :
    (k : ℕ) (b : Bytes) → sum16 (take (double k) b) + sum16 (drop (double k) b) ≡ sum16 b
unfolding sum16 take drop
sum16-split zero b = omega arith
sum16-split (suc k) [] = refl
sum16-split (suc k) (x ∷ []) = omega arith
sum16-split (suc k) (x ∷ y ∷ b) = omega (arith, sum16-split k b)

-- The state of the function: the accumulator, and the bytes that are left of those with the sum `t`.
unfoldable pub Summed : ℕ → ℕ × Bytes → Type 0
Summed t (ac, b) = (ac < 2 ^ 64) × AllBytes b × (s : ℕ) × Stands ac s × (s + sum16 b ≡ t)

-- The next bytes, of an even number that a word holds.
pub part-Carried :
    (k : ℕ) (ac carry s : ℕ) (b : Bytes)
    → Carried (ac, carry) s
    → AllBytes b
    → 256 ^ double k ≤ 2 ^ 64
    → double k ≤ length b
    → Carried (add64_carry ac (le_number (take (double k) b)) carry) (s + sum16 (take (double k) b))
part-Carried k ac carry s b h all small long =
    let part = AllBytes-take (double k) b all in
    let part_bound : le_number (take (double k) b) < 256 ^ double k =
      subst (λ n. le_number (take (double k) b) < 256 ^ n) (length-take (double k) b long)
        (le_number-bound (take (double k) b) part) in
    add64_carry-Carried ac carry _ s _ h (omega (arith, part_bound))
      (le_number-Stands (take (double k) b) part)

pub words-Carried :
    (n ac carry s : ℕ) (b : Bytes)
    → Carried (ac, carry) s
    → AllBytes b
    → 8 * n ≤ length b
    → (s' : ℕ) × Carried (add_words n ac carry b) s' × (s' + sum16 (drop (8 * n) b) ≡ s + sum16 b)
unfolding add_words
words-Carried zero ac carry s b h all long = (s, h, ap (λ d. s + sum16 d) (drop-zero b))
words-Carried (suc n) ac carry s b h all long =
    let (s', done, total) =
      words-Carried n _ _ _ (drop 8 b)
        (part-Carried 4 ac carry s b h all (omega arith) (omega arith)) (AllBytes-drop 8 b all)
        (omega (arith, length-drop 8 b)) in
    (
      s',
      done,
      ap (λ d. s' + sum16 d) (sym (drop-drop (8 * n) 8 b ∙ ap (λ k. drop k b) (omega arith)))
          ∙ omega (arith, total, sum16-split 4 b),
    )
