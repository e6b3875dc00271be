-- ===== src/Crc/Bounds.antt =====
-- The step of the 32-bit loop as arithmetic, and the range of the loop.
use pmem_program.Base.{
  ℕ, zero, suc, ◌+◌, ◌-◌, ◌*◌, ◌/◌, ◌%◌, ◌^◌, ◌≤◌, ◌<◌, ◌≡◌, ap, ◌∙◌, Bool, List, [], ◌∷◌, ltb,
  if◌then◌else◌, bit_and, bit_xor, arith, Bool-cases, inl, inr,
}
use pmem_program.Base.Words.{u32, ◌<<<◌}
use pmem_program.Base.Bits.{bit_and_split, bit_and_low, bit_and-zero_right, bit_xor-lt_pow}
use pmem_program.Crc.{shift_left32, rounds, input_byte, crc32_bytes}

-- The mask of the top bit.
pub top_bit : (x : ℕ) → x < 2 ^ 32 → bit_and x 0x80000000 ≡ x / 2 ^ 31 * 2 ^ 31
top_bit x h = ap (λ t. bit_and t 0x80000000) whole ∙ split ∙ omega (arith, high, low)
  where
    whole : x ≡ x / 2 ^ 31 * 2 ^ 31 + x % 2 ^ 31
    whole = omega arith

    split :
        bit_and (x / 2 ^ 31 * 2 ^ 31 + x % 2 ^ 31) 0x80000000
        ≡ bit_and (x / 2 ^ 31) 1 * 2 ^ 31 + bit_and (x % 2 ^ 31) 0
    split = bit_and_split 31 (x / 2 ^ 31) (x % 2 ^ 31) 1 0 (omega arith) (omega arith)

    low : bit_and (x % 2 ^ 31) 0 ≡ 0
    low = bit_and-zero_right (x % 2 ^ 31)

    high : bit_and (x / 2 ^ 31) 1 ≡ x / 2 ^ 31
    high = omega (arith, bit_and_low 1 (x / 2 ^ 31))

-- One round of the loop, without masks.
pub shift_left32_lem :
    (poly x : ℕ)
    → x < 2 ^ 32
    → shift_left32 poly x ≡ (if ltb x (2 ^ 31) then 2 * x else bit_xor (2 * x - 2 ^ 32) poly)
unfolding shift_left32
shift_left32_lem poly x h = elim (Bool-cases (ltb x (2 ^ 31))) [
  | inl low ↦ ground (arith, top_bit x h)
  | inr high ↦ ground (arith, top_bit x h, ap (λ t. bit_xor t poly) (doubled (ground arith)))
]
  where
    doubled : 2 ^ 31 ≤ x → u32 (x <<< 1) ≡ 2 * x - 2 ^ 32
    doubled high = omega arith

-- Every round of the loop keeps a 32-bit word.
pub shift_left32-lt : (poly x : ℕ) → poly < 2 ^ 32 → shift_left32 poly x < 2 ^ 32
unfolding shift_left32
shift_left32-lt poly x h = ground (arith, bit_xor-lt_pow 32 (u32 (x <<< 1)) poly)

pub rounds-lt :
    (n poly x : ℕ) → poly < 2 ^ 32 → x < 2 ^ 32 → rounds n (shift_left32 poly) x < 2 ^ 32
unfolding rounds
rounds-lt zero poly x h k = k
rounds-lt (suc n) poly x h k = rounds-lt n poly (shift_left32 poly x) h (shift_left32-lt poly x h)

pub crc32_bytes-lt :
    (poly crc : ℕ) (ref_in : Bool) (buffer : List ℕ)
    → poly < 2 ^ 32
    → crc < 2 ^ 32
    → crc32_bytes poly ref_in crc buffer < 2 ^ 32
unfolding crc32_bytes
crc32_bytes-lt poly crc ref_in [] h k = k
crc32_bytes-lt poly crc ref_in (byte ∷ rest) h k =
    crc32_bytes-lt poly
      (rounds 8 (shift_left32 poly) (bit_xor crc (u32 (input_byte ref_in byte <<< 24)))) ref_in rest
      h
      (rounds-lt 8 poly (bit_xor crc (u32 (input_byte ref_in byte <<< 24))) h
        (bit_xor-lt_pow 32 crc (u32 (input_byte ref_in byte <<< 24)) k (omega arith)))
