-- ===== src/Tun/Checksum/Sum.antt =====
-- tun/checksum.go: `checksum` against the one's-complement sum of the words of 16 bits.
use wgservermgr.Prelude.{
  ℕ, zero, suc, ◌+◌, ◌*◌, ◌%◌, ◌^◌, ◌≡◌, ◌≤◌, ◌<◌, ◌==◌, refl, ap, ◌∙◌, [], ◌∷◌, ltb, length, inl,
  inr, Bool-cases, arith, subst,
}
use wgservermgr.Prelude.Bytes.{Bytes, AllBytes, take, drop, le_number, length-drop}
use wgservermgr.Tun.Checksum.{
  swap64, add_words, close, blocks, words_if, part_if, last_byte, checksum_no_fold, fold16,
  checksum,
}
use wgservermgr.Tun.Checksum.Carry.{
  sum16, Stands, swap64-Stands, swap64-bound, Carried, close-Stands, AllBytes-drop, sum16-split,
  Summed, double, part-Carried, words-Carried, add64_carry-Carried,
}

-- What is left after the next lines: fewer than so many bytes.
Left : ℕ → ℕ → ℕ × Bytes → Type 0
Left t m r = Summed t r × (length r.1 < m)

open-Carried : (ac s : ℕ) → ac < 2 ^ 64 → Stands ac s → Carried (ac, 0) s
unfolding Carried
open-Carried ac s h stands =
    (omega arith, omega arith, subst (λ a. Stands a s) (omega arith) stands)

block-Summed :
    (n t ac : ℕ) (b : Bytes)
    → Summed t (ac, b)
    → 8 * n ≤ length b
    → Summed t (close (add_words n ac 0 b), drop (8 * n) b)
unfolding Summed
block-Summed n t ac b (bound, all, s, stands, total) long =
    let (s', done, same) = words-Carried n ac 0 s b (open-Carried ac s bound stands) all long in
    let (bound', stands') = close-Stands (add_words n ac 0 b) s' done in
    (bound', AllBytes-drop (8 * n) b all, s', stands', same ∙ total)

words_if-Left : (n t : ℕ) (r : ℕ × Bytes) → Left t (16 * n) r → Left t (8 * n) (words_if n r)
unfolding Left words_if
words_if-Left n t (ac, b) (summed, left) = elim (Bool-cases (ltb (length b) (8 * n))) [
  | inl short ↦ rw short (summed, ground arith)
  | inr long ↦
      rw long (block-Summed n t ac b summed (ground arith), omega (arith, length-drop (8 * n) b))
]

blocks-Left :
    (fuel t : ℕ) (r : ℕ × Bytes) → Summed t r → length r.1 ≤ fuel → Left t 128 (blocks fuel r)
unfolding Left blocks
blocks-Left zero t (ac, b) summed h = (summed, omega arith)
blocks-Left (suc fuel) t (ac, b) summed h = elim (Bool-cases (ltb (length b) 128)) [
  | inl short ↦ rw short (summed, ground arith)
  | inr long ↦ rw long (
      blocks-Left fuel t (close (add_words 16 ac 0 b), drop 128 b)
        (block-Summed 16 t ac b summed (ground arith)) (ground (arith, length-drop 128 b)))
]

part_if-Left :
    (k t : ℕ) (r : ℕ × Bytes)
    → 256 ^ double k ≤ 2 ^ 64
    → Left t (double k + double k) r
    → Left t (double k) (part_if (double k) r)
unfolding Left part_if Summed
part_if-Left k t (ac, b) small ((bound, all, s, stands, total), left) =
    elim (Bool-cases (ltb (length b) (double k))) [
      | inl short ↦ rw short ((bound, all, s, stands, total), ground arith)
      | inr long ↦
          let added =
            part-Carried k ac 0 s b (open-Carried ac s bound stands) all small (ground arith) in
          let (bound', stands') = close-Stands _ _ added in
          rw long (
            (
              bound',
              AllBytes-drop (double k) b all,
              s + sum16 (take (double k) b),
              stands',
              omega (arith, sum16-split k b),
            ),
            omega (arith, length-drop (double k) b),
          )
    ]

-- A byte followed by a zero.
last-Stands :
    (x : ℕ)
    → x < 256
    → (le_number (x ∷ 0 ∷ []) < 2 ^ 64) × Stands (le_number (x ∷ 0 ∷ [])) (x * 256)
unfolding Stands le_number
last-Stands x h = (omega arith, (omega arith, ground arith))

last_byte-Stands :
    (t : ℕ) (r : ℕ × Bytes) → Left t 2 r → (last_byte r < 2 ^ 64) × Stands (last_byte r) t
unfolding Left Summed last_byte sum16
last_byte-Stands t (ac, []) ((bound, all, s, stands, total), left) =
    (bound, subst (Stands ac) (omega arith) stands)
last_byte-Stands t (ac, x ∷ []) ((bound, all, s, stands, total), left) =
    let (bound', stands') = close-Stands _ _ (
      add64_carry-Carried ac 0 (le_number (x ∷ 0 ∷ [])) s (x * 256) (open-Carried ac s bound stands)
        (last-Stands x all.0).0 (last-Stands x all.0).1) in
    (bound', subst (Stands _) (omega arith) stands')
last_byte-Stands t (ac, x ∷ y ∷ b) (summed, left) = absurd (omega arith)

pub checksum_no_fold-Stands :
    (b : Bytes) (initial : ℕ)
    → AllBytes b
    → initial < 2 ^ 64
    → (ac : ℕ) × (ac < 2 ^ 64)
      × (checksum_no_fold b initial ≡ swap64 ac)
      × Stands ac (initial + sum16 b)
unfolding Summed checksum_no_fold Left
checksum_no_fold-Stands b initial all h =
    let t = initial + sum16 b in
    let loop =
      blocks-Left (length b) t (swap64 initial, b)
        (swap64-bound initial, all, initial, swap64-Stands initial h, refl) (omega arith) in
    let eight = words_if-Left 8 t _ loop in
    let four = words_if-Left 4 t _ eight in
    let two = words_if-Left 2 t _ four in
    let one = words_if-Left 1 t _ two in
    let half = part_if-Left 2 t _ (omega arith) one in
    let quarter = part_if-Left 1 t _ (omega arith) half in
    let (bound, stands) = last_byte-Stands t _ quarter in (_, bound, refl, stands)

-- The sum with end-around carry, of 16 bits.
unfoldable pub ones_complement : ℕ → ℕ
ones_complement zero = 0
ones_complement (suc n) = n % 65535 + 1

pub ones_complement-of :
    (r n : ℕ) → r < 2 ^ 16 → r % 65535 ≡ n % 65535 → (r == 0) ≡ (n == 0) → r ≡ ones_complement n
unfolding ones_complement
ones_complement-of r zero h same zeros = ground arith
ones_complement-of r (suc n) h same zeros = let some_ : 0 < r = ground arith in omega (arith, some_)

fold16-once :
    (v m : ℕ)
    → m ≤ 2 ^ 48
    → v ≤ m * 65536 + 65534
    → (fold16 v ≤ m + 65534) × (fold16 v % 65535 ≡ v % 65535) × ((fold16 v == 0) ≡ (v == 0))
fold16-once v m p h = (omega arith, omega arith, ground arith)

-- Four folds leave 16 bits of 64, and what they stand for.
pub fold16-four :
    (v : ℕ)
    → v < 2 ^ 64
    → (let r = fold16 (fold16 (fold16 (fold16 v))) in
        (r < 2 ^ 16) × (r % 65535 ≡ v % 65535) × ((r == 0) ≡ (v == 0)))
fold16-four v h =
    let a = fold16-once v (2 ^ 48) (omega arith) (omega arith) in
    let b = fold16-once (fold16 v) (2 ^ 32) (omega arith) (omega (arith, a.0)) in
    let c = fold16-once (fold16 (fold16 v)) (2 ^ 16) (omega arith) (omega (arith, b.0)) in
    let d = fold16-once (fold16 (fold16 (fold16 v))) 1 (omega arith) (omega (arith, c.0)) in
    (omega (arith, d.0), d.1 ∙ c.1 ∙ b.1 ∙ a.1, d.2 ∙ c.2 ∙ b.2 ∙ a.2)

pub remains : (r : ℕ) → r < 2 ^ 16 → r % 2 ^ 16 ≡ r
remains r h = omega arith

-- For bytes and an initial value of 64 bits, `checksum` is the sum of the initial value and the
-- big-endian words of 16 bits, an odd last byte padded with zero, reduced with end-around carry:
-- 0 for a sum of 0, and otherwise the number from 1 to 65535 congruent to the sum modulo 65535.
pub checksum-ones_complement :
    (b : Bytes) (initial : ℕ)
    → AllBytes b
    → initial < 2 ^ 64
    → checksum b initial ≡ ones_complement (initial + sum16 b)
unfolding checksum Stands
checksum-ones_complement b initial all h =
    let (ac, bound, made, (same, zeros)) = checksum_no_fold-Stands b initial all h in
    let (same', zeros') = swap64-Stands ac bound in
    let (small, folded, kept) = fold16-four (swap64 ac) (swap64-bound ac) in
    let result : checksum b initial ≡ fold16 (fold16 (fold16 (fold16 (swap64 ac)))) =
      ap (λ v. fold16 (fold16 (fold16 (fold16 v))) % 2 ^ 16) made ∙ remains _ small in
    result
    ∙ ones_complement-of _ (initial + sum16 b) small (folded ∙ omega (arith, same, same'))
        (kept ∙ zeros' ∙ zeros)
