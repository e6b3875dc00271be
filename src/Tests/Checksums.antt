-- ===== src/Tests/Checksums.antt =====
-- Known values of crc.c and sha1.c, and their theorems at them.
use pmem_program.Base.{
  ℕ, ◌≡◌, ◌≢◌, refl, true, false, List, [], ◌∷◌, ◌++◌, replicate, bit_and, arith,
}
use pmem_program.Sha1.{Sha1Context, pad, sha1_of}
use pmem_program.Sha1.Padding.{pad_ends}
use pmem_program.Crc.{check_crc4, check_crc7, check_crc16, check_crc32, calculate_crc32}
use pmem_program.Crc.Detect.{check_crc32_detects}

-- The bytes of "123456789".
abbrev digits : List ℕ
digits = 49 ∷ 50 ∷ 51 ∷ 52 ∷ 53 ∷ 54 ∷ 55 ∷ 56 ∷ 57 ∷ []

check_crc4_itu : check_crc4 3 0 true true 0 digits ≡ 7
unfolding check_crc4
check_crc4_itu = refl

check_crc7_mmc : check_crc7 9 0 false false 0 digits ≡ 0x75
unfolding check_crc7
check_crc7_mmc = refl

check_crc16_ibm : check_crc16 0x8005 0 true true 0 digits ≡ 0xbb3d
unfolding check_crc16
check_crc16_ibm = refl

calculate_crc32-digits : calculate_crc32 digits 9 ≡ 0xcbf43926
unfolding calculate_crc32
calculate_crc32-digits = refl

check_crc32_detects_example :
    check_crc32 0x04c11db7 0xffffffff true true 0xffffffff (digits ++ 7 ∷ digits)
    ≢ check_crc32 0x04c11db7 0xffffffff true true 0xffffffff (digits ++ 8 ∷ digits)
check_crc32_detects_example =
    check_crc32_detects 0x04c11db7 0xffffffff true true 0xffffffff 7 8 digits digits (omega arith)
      (omega arith) (omega arith) (omega arith) (omega arith) (omega arith)

-- The digest of "abc".
sha1-abc :
    sha1_of (97 ∷ 98 ∷ 99 ∷ [])
    ≡ 0xa9 ∷ 0x99 ∷ 0x3e ∷ 0x36 ∷ 0x47 ∷ 0x06 ∷ 0x81 ∷ 0x6a ∷ 0xba ∷ 0x3e ∷ 0x25 ∷ 0x71 ∷ 0x78
      ∷ 0x50 ∷ 0xc2 ∷ 0x6c ∷ 0x9c ∷ 0xd0 ∷ 0xd8 ∷ 0x9d ∷ []
unfolding sha1_of
sha1-abc = refl

-- Three bytes and the mark behind them.
abbrev four_bytes : Sha1Context
four_bytes = record {
  state = replicate 5 0;
  count0 = 32;
  count1 = 0;
  buffer = 97 ∷ 98 ∷ 99 ∷ 128 ∷ replicate 60 0;
}

pad_ends_example : bit_and (pad 64 four_bytes).count0 504 ≡ 448
pad_ends_example = pad_ends four_bytes refl
