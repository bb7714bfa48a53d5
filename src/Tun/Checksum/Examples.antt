-- ===== src/Tun/Checksum/Examples.antt =====
-- Runs of tun/checksum.go, and its theorems at concrete inputs. The first input is the example of
-- RFC 1071.
use wgservermgr.Prelude.{◌+◌, ◌≡◌, refl, [], ◌∷◌, ◌++◌, arith}
use wgservermgr.Prelude.Bytes.{Bytes, AllBytes, zeros, take, drop, le_bytes, le_number}
use wgservermgr.Tun.Checksum.{
  be_number, swap64, add_words, close, blocks, words_if, part_if, last_byte, checksum_no_fold,
  checksum,
}
use wgservermgr.Tun.Checksum.Carry.{sum16}
use wgservermgr.Tun.Checksum.Sum.{ones_complement, checksum-ones_complement}

abbrev sample : Bytes
sample = 0x00 ∷ 0x01 ∷ 0xf2 ∷ 0x03 ∷ 0xf4 ∷ 0xf5 ∷ 0xf6 ∷ 0xf7 ∷ []

sample_bytes : AllBytes sample
sample_bytes = (
  ground arith,
  (
    ground arith,
    (
      ground arith,
      (ground arith, (ground arith, (ground arith, (ground arith, (ground arith, tt))))),
    ),
  ),
)

-- One loop round, every smaller part and the odd byte.
abbrev long_sample : Bytes
long_sample = sample ++ (zeros 246 ++ (0x12 ∷ []))

checksum-run : checksum sample 0 ≡ 0xddf2
unfolding checksum checksum_no_fold blocks words_if part_if last_byte close add_words swap64
    be_number take drop le_bytes le_number
checksum-run = refl

checksum-run_long :
    checksum long_sample 0xffffffffffff ≡ ones_complement (0xffffffffffff + sum16 long_sample)
unfolding checksum checksum_no_fold blocks words_if part_if last_byte close add_words swap64
    be_number take drop le_bytes le_number ones_complement sum16
checksum-run_long = refl

checksum-ones_complement_example : checksum sample 7 ≡ ones_complement (7 + sum16 sample)
checksum-ones_complement_example = checksum-ones_complement sample 7 sample_bytes (ground arith)

abbrev src : Bytes
src = 10 ∷ 0 ∷ 0 ∷ 1 ∷ []

abbrev dst : Bytes
dst = 10 ∷ 0 ∷ 0 ∷ 2 ∷ []

src_bytes : AllBytes src
src_bytes = (ground arith, (ground arith, (ground arith, (ground arith, tt))))

dst_bytes : AllBytes dst
dst_bytes = (ground arith, (ground arith, (ground arith, (ground arith, tt))))
