-- ===== src/Tun/Checksum/Header.antt =====
-- tun/checksum.go: the checksum of a segment after its pseudo header.
use wgservermgr.Prelude.{ℕ, zero, suc, ◌+◌, ◌%◌, ◌^◌, ◌≡◌, ◌<◌, ◌==◌, refl, ap, ◌∙◌, [], ◌∷◌, arith}
use wgservermgr.Prelude.Bytes.{Bytes, AllBytes, be_bytes}
use wgservermgr.Tun.Checksum.{checksum_no_fold, checksum, pseudo_header_checksum_no_fold}
use wgservermgr.Tun.Checksum.Carry.{sum16, Stands, swap64-Stands, swap64-bound}
use wgservermgr.Tun.Checksum.Sum.{
  checksum_no_fold-Stands, checksum-ones_complement, ones_complement,
}

-- A sum of 64 bits that stands for a total.
unfoldable Sums : ℕ → ℕ → Type 0
Sums r t = (r < 2 ^ 64) × (r % 65535 ≡ t % 65535) × ((r == 0) ≡ (t == 0))

zeros-add : (m n s : ℕ) → (m == 0) ≡ (n == 0) → (m + s == 0) ≡ (n + s == 0)
zeros-add m n s h = ground arith

ones_complement-same :
    (m n : ℕ) → m % 65535 ≡ n % 65535 → (m == 0) ≡ (n == 0) → ones_complement m ≡ ones_complement n
unfolding ones_complement
ones_complement-same zero zero h z = refl
ones_complement-same zero (suc n) h z = absurd (ground arith)
ones_complement-same (suc m) zero h z = absurd (ground arith)
ones_complement-same (suc m) (suc n) h z = omega (arith, h)

checksum_no_fold-Sums :
    (b : Bytes) (initial t : ℕ)
    → AllBytes b
    → Sums initial t
    → Sums (checksum_no_fold b initial) (t + sum16 b)
unfolding Sums Stands
checksum_no_fold-Sums b initial t all (h, same, zeros) =
    let (ac, bound, made, (same', zeros')) = checksum_no_fold-Stands b initial all h in
    let (same'', zeros'') = swap64-Stands ac bound in
    let limit = swap64-bound ac in
    (
      omega (arith, made, limit),
      omega (arith, made, same, same', same''),
      ap (λ r. r == 0) made ∙ zeros'' ∙ zeros' ∙ zeros-add initial t (sum16 b) zeros,
    )

-- For addresses and a segment of bytes, a protocol of one byte and a length of 16 bits,
-- `checksum` of the segment after `pseudoHeaderChecksumNoFold` is the sum with end-around carry
-- of the words of both addresses, the protocol, the length and the words of the segment.
pub pseudo_header-ones_complement :
    (protocol total_len : ℕ) (src_addr dst_addr b : Bytes)
    → protocol < 256
    → total_len < 2 ^ 16
    → AllBytes src_addr
    → AllBytes dst_addr
    → AllBytes b
    → checksum b (pseudo_header_checksum_no_fold protocol src_addr dst_addr total_len)
      ≡ ones_complement (sum16 src_addr + sum16 dst_addr + protocol + total_len + sum16 b)
unfolding pseudo_header_checksum_no_fold Sums sum16 be_bytes
pseudo_header-ones_complement protocol total_len src_addr dst_addr b p q src dst all =
    let s1 = checksum_no_fold-Sums src_addr 0 0 src (omega arith, refl, refl) in
    let s2 = checksum_no_fold-Sums dst_addr _ _ dst s1 in
    let s3 = checksum_no_fold-Sums (0 ∷ protocol ∷ []) _ _ (omega arith, (p, tt)) s2 in
    let s4 = checksum_no_fold-Sums (be_bytes 2 total_len) _ _ (omega arith, (omega arith, tt)) s3 in
    let (small, same, zeros) = s4 in
    checksum-ones_complement b _ all small
    ∙ ones_complement-same _ _ (omega (arith, same)) (zeros-add _ _ (sum16 b) zeros)
    ∙ ap ones_complement (omega arith)
