-- ===== src/Crc/Detect.antt =====
-- What CheckCrc32 detects: the loop loses nothing of its word, so one changed byte shows.
use pmem_program.Base.{
  ℕ, zero, suc, ◌-◌, ◌*◌, ◌%◌, ◌^◌, ◌<◌, ◌≡◌, ◌≢◌, refl, ap, ◌∙◌, sym, Bool, true, false, List, [],
  ◌∷◌, ◌++◌, if◌then◌else◌, bit_xor, arith,
}
use pmem_program.Base.Words.{u32, ◌<<<◌}
use pmem_program.Base.Bits.{bit_xor_step, bit_xor_cancel_left, bit_xor_cancel_right, bit_xor-lt_pow}
use pmem_program.Crc.{shift_left32, rounds, input_byte, crc32_bytes, check_crc32, reverse_bits}
use pmem_program.Crc.Reflect.{turned-lt, reflected_byte, turned_injective, reverse_bits_twice}
use pmem_program.Crc.Bounds.{shift_left32_lem, shift_left32-lt, rounds-lt, crc32_bytes-lt}

-- A round is injective on 32-bit words, if the polynomial is odd.
shift_left32_injective :
    (poly x y : ℕ)
    → poly % 2 ≡ 1
    → x < 2 ^ 32
    → y < 2 ^ 32
    → shift_left32 poly x ≡ shift_left32 poly y
    → x ≡ y
shift_left32_injective poly x y odd hx hy e = ground (
  arith,
  shift_left32_lem poly x hx,
  shift_left32_lem poly y hy,
  bit_xor_step (2 * x - 2 ^ 32) poly,
  bit_xor_step (2 * y - 2 ^ 32) poly,
  bit_xor_cancel_right (2 * x - 2 ^ 32) (2 * y - 2 ^ 32) poly,
)

rounds_injective :
    (n poly x y : ℕ)
    → poly % 2 ≡ 1
    → poly < 2 ^ 32
    → x < 2 ^ 32
    → y < 2 ^ 32
    → rounds n (shift_left32 poly) x ≡ rounds n (shift_left32 poly) y
    → x ≡ y
unfolding rounds
rounds_injective zero poly x y odd hp hx hy e = e
rounds_injective (suc n) poly x y odd hp hx hy e = shift_left32_injective poly x y odd hx hy (
    rounds_injective n poly (shift_left32 poly x) (shift_left32 poly y) odd hp
      (shift_left32-lt poly x hp) (shift_left32-lt poly y hp) e)

-- The loop over a buffer is injective in the word that it starts from.
crc32_bytes_injective :
    (poly x y : ℕ) (ref_in : Bool) (buffer : List ℕ)
    → poly % 2 ≡ 1
    → poly < 2 ^ 32
    → x < 2 ^ 32
    → y < 2 ^ 32
    → crc32_bytes poly ref_in x buffer ≡ crc32_bytes poly ref_in y buffer
    → x ≡ y
unfolding crc32_bytes
crc32_bytes_injective poly x y ref_in [] odd hp hx hy e = e
crc32_bytes_injective poly x y ref_in (byte ∷ rest) odd hp hx hy e =
    let word = u32 (input_byte ref_in byte <<< 24) in
    bit_xor_cancel_right x y word (
      rounds_injective 8 poly (bit_xor x word) (bit_xor y word) odd hp
        (bit_xor-lt_pow 32 x word hx (omega arith)) (bit_xor-lt_pow 32 y word hy (omega arith))
        (crc32_bytes_injective poly (rounds 8 (shift_left32 poly) (bit_xor x word))
          (rounds 8 (shift_left32 poly) (bit_xor y word)) ref_in rest odd hp
          (rounds-lt 8 poly (bit_xor x word) hp (bit_xor-lt_pow 32 x word hx (omega arith)))
          (rounds-lt 8 poly (bit_xor y word) hp (bit_xor-lt_pow 32 y word hy (omega arith))) e))

-- Taking in a buffer in two parts is taking it in at once.
pub crc32_bytes-append :
    (poly crc : ℕ) (ref_in : Bool) (xs ys : List ℕ)
    → crc32_bytes poly ref_in crc (xs ++ ys)
      ≡ crc32_bytes poly ref_in (crc32_bytes poly ref_in crc xs) ys
unfolding crc32_bytes
crc32_bytes-append poly crc ref_in [] ys = refl
crc32_bytes-append poly crc ref_in (x ∷ xs) ys =
    crc32_bytes-append poly
      (rounds 8 (shift_left32 poly) (bit_xor crc (u32 (input_byte ref_in x <<< 24)))) ref_in xs ys

-- Different bytes enter the loop as different words.
input_word_injective :
    (ref_in : Bool) (x y : ℕ)
    → x < 256
    → y < 256
    → u32 (input_byte ref_in x <<< 24) ≡ u32 (input_byte ref_in y <<< 24)
    → x ≡ y
unfolding input_byte
input_word_injective true x y hx hy e =
    turned_injective x y hx hy
      (omega (arith, reflected_byte x hx, reflected_byte y hy, turned-lt x hx, turned-lt y hy))
input_word_injective false x y hx hy e = omega arith

-- The reflection and the final exclusive or lose nothing of the word.
finish_injective :
    (ref_out : Bool) (xor_out x y : ℕ)
    → x < 2 ^ 32
    → y < 2 ^ 32
    → bit_xor (if ref_out then reverse_bits x else x) xor_out
      ≡ bit_xor (if ref_out then reverse_bits y else y) xor_out
    → x ≡ y
finish_injective true xor_out x y hx hy e =
    sym (reverse_bits_twice x hx)
    ∙ ap reverse_bits (bit_xor_cancel_right (reverse_bits x) (reverse_bits y) xor_out e)
    ∙ reverse_bits_twice y hy
finish_injective false xor_out x y hx hy e = bit_xor_cancel_right x y xor_out e

-- CheckCrc32 gives different values on two buffers that differ in one byte: for every odd 32-bit
-- polynomial, 32-bit initial word, final word and setting of the two reflections, and whatever
-- stands before and behind the byte.
pub check_crc32_detects :
    (poly init : ℕ) (ref_in ref_out : Bool) (xor_out x y : ℕ) (before after : List ℕ)
    → poly % 2 ≡ 1
    → poly < 2 ^ 32
    → init < 2 ^ 32
    → x < 256
    → y < 256
    → x ≢ y
    → check_crc32 poly init ref_in ref_out xor_out (before ++ x ∷ after)
      ≢ check_crc32 poly init ref_in ref_out xor_out (before ++ y ∷ after)
unfolding check_crc32
check_crc32_detects poly init ref_in ref_out xor_out x y before after odd hp hi hx hy ne e =
    ne (input_word_injective ref_in x y hx hy (bit_xor_cancel_left (word x) (word y) start entered))
  where
    start : ℕ
    start = crc32_bytes poly ref_in init before

    start-lt : start < 2 ^ 32
    start-lt = crc32_bytes-lt poly init ref_in before hp hi

    word : ℕ → ℕ
    word z = u32 (input_byte ref_in z <<< 24)

    mixed-lt : (z : ℕ) → bit_xor start (word z) < 2 ^ 32
    mixed-lt z = bit_xor-lt_pow 32 start (word z) start-lt (omega arith)

    same : crc32_bytes poly ref_in start (x ∷ after) ≡ crc32_bytes poly ref_in start (y ∷ after)
    same =
        sym (crc32_bytes-append poly init ref_in before (x ∷ after))
        ∙ finish_injective ref_out xor_out (crc32_bytes poly ref_in init (before ++ x ∷ after))
            (crc32_bytes poly ref_in init (before ++ y ∷ after))
            (crc32_bytes-lt poly init ref_in (before ++ x ∷ after) hp hi)
            (crc32_bytes-lt poly init ref_in (before ++ y ∷ after) hp hi) e
        ∙ crc32_bytes-append poly init ref_in before (y ∷ after)

    entered : bit_xor start (word x) ≡ bit_xor start (word y)
    entered =
        rounds_injective 8 poly (bit_xor start (word x)) (bit_xor start (word y)) odd hp
          (mixed-lt x) (mixed-lt y)
          (crc32_bytes_injective poly (rounds 8 (shift_left32 poly) (bit_xor start (word x)))
            (rounds 8 (shift_left32 poly) (bit_xor start (word y))) ref_in after odd hp
            (rounds-lt 8 poly (bit_xor start (word x)) hp (mixed-lt x))
            (rounds-lt 8 poly (bit_xor start (word y)) hp (mixed-lt y))
            (unfold crc32_bytes in same))
