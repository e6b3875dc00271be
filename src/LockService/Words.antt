-- ===== src/LockService/Words.antt =====
-- The fields of a message: its block and its indicator.
use pmem_program.Base.{ℕ, ◌/◌, ◌%◌, ◌^◌, ◌<◌, ◌+◌, ◌*◌, ◌≡◌, ap, arith, bit_and, ◌∙◌}
use pmem_program.Base.Bits.{bit_and_low, bit_and_split, bit_and-zero_right}
use pmem_program.LockService.{indicator_of, blockid_of}

pub indicator_of-eq_mod : (x : ℕ) → indicator_of x ≡ x % 4
unfolding indicator_of
indicator_of-eq_mod x = bit_and_low 2 x

pub blockid_of-eq_div : (x : ℕ) → x < 2 ^ 32 → blockid_of x ≡ x / 4
unfolding blockid_of
blockid_of-eq_div x h =
    ap (λ t. t / 4) (ap (λ t. bit_and t 0xfffffffc) whole ∙ split) ∙ omega (arith, low, high)
  where
    whole : x ≡ x / 4 * 2 ^ 2 + x % 4
    whole = omega arith

    split :
        bit_and (x / 4 * 2 ^ 2 + x % 4) 0xfffffffc
        ≡ bit_and (x / 4) 0x3fffffff * 2 ^ 2 + bit_and (x % 4) 0
    split = bit_and_split 2 (x / 4) (x % 4) 0x3fffffff 0 (omega arith) (omega arith)

    low : bit_and (x % 4) 0 ≡ 0
    low = bit_and-zero_right (x % 4)

    high : bit_and (x / 4) 0x3fffffff ≡ x / 4
    high = omega (arith, bit_and_low 30 (x / 4))
