-- ===== src/Tun/Checksum.antt =====
-- tun/checksum.go: the checksum of the Internet protocols, on a host whose native byte order is
-- little-endian. The lines that a loop body repeats for each word of eight bytes are one function
-- of the number of words.
pub mod Carry
pub mod Sum
pub mod Header
pub mod Examples
use wgservermgr.Prelude.{
  ℕ, zero, suc, ◌+◌, ◌*◌, ◌/◌, ◌%◌, ◌^◌, ◌≡◌, Bool, true, false, if◌then◌else◌, List, [], ◌∷◌, ltb,
  length,
}
use wgservermgr.Prelude.Bytes.{Bytes, take, drop, le_bytes, le_number, be_bytes}

-- `bits.Add64`: the sum and the carry of 64 bits.
abbrev pub add64_carry : ℕ → ℕ → ℕ → ℕ × ℕ
add64_carry x y carry = ((x + y + carry) % 2 ^ 64, (x + y + carry) / 2 ^ 64)

-- `binary.BigEndian.Uint64` of as many bytes as there are.
unfoldable pub be_number : Bytes → ℕ
be_number [] = 0
be_number (x ∷ b) = x * 256 ^ length b + be_number b

-- A word of 64 bits written in the native order and read in big-endian order.
unfoldable pub swap64 : ℕ → ℕ
swap64 v = be_number (le_bytes 8 v)

-- The words of eight bytes that `b` starts with, added one after the other.
unfoldable pub add_words : ℕ → ℕ → ℕ → Bytes → ℕ × ℕ
add_words zero ac carry b = (ac, carry)
add_words (suc n) ac carry b =
    let (ac', carry') = add64_carry ac (le_number (take 8 b)) carry in
    add_words n ac' carry' (drop 8 b)

-- `ac += carry`
unfoldable pub close : ℕ × ℕ → ℕ
close (ac, carry) = (ac + carry) % 2 ^ 64

-- The loop, with fuel.
unfoldable pub blocks : ℕ → ℕ × Bytes → ℕ × Bytes
blocks zero (ac, b) = (ac, b)
blocks (suc fuel) (ac, b) =
    let rest = blocks fuel (close (add_words 16 ac 0 b), drop 128 b) in
    if ltb (length b) 128 then (ac, b) else rest

-- `if len(b) >= …` for so many words, and for a number of less than a word.
unfoldable pub words_if : ℕ → ℕ × Bytes → ℕ × Bytes
words_if n (ac, b) =
    if ltb (length b) (8 * n) then (ac, b) else (close (add_words n ac 0 b), drop (8 * n) b)

unfoldable pub part_if : ℕ → ℕ × Bytes → ℕ × Bytes
part_if size (ac, b) =
    if ltb (length b) size
    then (ac, b)
    else (close (add64_carry ac (le_number (take size b)) 0), drop size b)

-- `if len(b) == 1`
unfoldable pub last_byte : ℕ × Bytes → ℕ
last_byte (ac, []) = ac
last_byte (ac, x ∷ []) = close (add64_carry ac (le_number (x ∷ 0 ∷ [])) 0)
last_byte (ac, x ∷ y ∷ b) = ac

-- `checksumNoFold`
unfoldable pub checksum_no_fold : Bytes → ℕ → ℕ
checksum_no_fold b initial = swap64 (
    last_byte (
      part_if 2 (
        part_if 4 (
          words_if 1
            (words_if 2 (words_if 4 (words_if 8 (blocks (length b) (swap64 initial, b)))))))))

-- `(ac >> 16) + (ac & 0xffff)` on 64 bits.
abbrev pub fold16 : ℕ → ℕ
fold16 ac = (ac / 2 ^ 16 + ac % 2 ^ 16) % 2 ^ 64

-- `checksum`
unfoldable pub checksum : Bytes → ℕ → ℕ
checksum b initial = fold16 (fold16 (fold16 (fold16 (checksum_no_fold b initial)))) % 2 ^ 16

-- `pseudoHeaderChecksumNoFold`
unfoldable pub pseudo_header_checksum_no_fold : ℕ → Bytes → Bytes → ℕ → ℕ
pseudo_header_checksum_no_fold protocol src_addr dst_addr total_len =
    let sum = checksum_no_fold src_addr 0 in
    let sum' = checksum_no_fold dst_addr sum in
    let sum'' = checksum_no_fold (0 ∷ protocol ∷ []) sum' in
    checksum_no_fold (be_bytes 2 total_len) sum''
