-- ===== src/Crc.antt =====
-- cxl_memory_sharing/crc.h and crc.c: the parametric CRC and its seven widths.
-- A word of w bits is a number, cut by `% 2 ^ w` wherever the C type does; a buffer is the list of
-- its bytes, and `length` of the C code is the length of that list.
pub mod Reflect
pub mod Bounds
pub mod Detect
use pmem_program.Base.{
  ℕ, zero, suc, bit_and, bit_or, bit_xor, Bool, true, false, List, [], ◌∷◌, ◌==◌, if◌then◌else◌,
  not, take, length,
}
use pmem_program.Base.Words.{u8, u16, u32, ◌<<<◌, ◌>>>◌}

-- REFLECTED_MODE
pub data ReflectedMode : Type 0 where
  ref_4bit ref_5bit ref_6bit ref_7bit ref_8bit ref_16bit ref_32bit : ReflectedMode

-- One line of ReflectedData: the bits of two masks change places.
unfoldable pub swap_bits : ℕ → ℕ → ℕ → ℕ → ℕ
swap_bits high low k x = bit_or (bit_and x high >>> k) (u32 (bit_and x low <<< k))

-- The five lines, which reverse 32 bits.
unfoldable pub reverse_bits : ℕ → ℕ
unfolding swap_bits
reverse_bits x =
    let a = swap_bits 0xffff0000 0x0000ffff 16 x in
    let b = swap_bits 0xff00ff00 0x00ff00ff 8 a in
    let c = swap_bits 0xf0f0f0f0 0x0f0f0f0f 4 b in
    let d = swap_bits 0xcccccccc 0x33333333 2 c in swap_bits 0xaaaaaaaa 0x55555555 1 d

-- ReflectedData
unfoldable pub reflected_data : ℕ → ReflectedMode → ℕ
unfolding reverse_bits
reflected_data x ref_32bit = reverse_bits x
reflected_data x ref_16bit = bit_and (reverse_bits x >>> 16) 0xffff
reflected_data x ref_8bit = bit_and (reverse_bits x >>> 24) 0xff
reflected_data x ref_7bit = bit_and (reverse_bits x >>> 25) 0x7f
reflected_data x ref_6bit = bit_and (reverse_bits x >>> 26) 0x7f
reflected_data x ref_5bit = bit_and (reverse_bits x >>> 27) 0x1f
reflected_data x ref_4bit = bit_and (reverse_bits x >>> 28) 0x0f

-- `for (i = 0; i < 8; i++)`
unfoldable pub rounds : ℕ → (ℕ → ℕ) → ℕ → ℕ
rounds zero body crc = crc
rounds (suc n) body crc = rounds n body (body crc)

-- The body of the low-bit-first loops, on a uint8_t.
unfoldable pub shift_right : ℕ → ℕ → ℕ
shift_right poly crc = if bit_and crc 0x01 == 0 then crc >>> 1 else bit_xor (crc >>> 1) poly

-- The body of the high-bit-first loops, on a uint8_t, uint16_t and uint32_t.
unfoldable pub shift_left8 : ℕ → ℕ → ℕ
shift_left8 poly crc =
    if bit_and crc 0x80 == 0 then u8 (crc <<< 1) else bit_xor (u8 (crc <<< 1)) poly

unfoldable pub shift_left16 : ℕ → ℕ → ℕ
shift_left16 poly crc =
    if bit_and crc 0x8000 == 0 then u16 (crc <<< 1) else bit_xor (u16 (crc <<< 1)) poly

unfoldable pub shift_left32 : ℕ → ℕ → ℕ
shift_left32 poly crc =
    if bit_and crc 0x80000000 == 0 then u32 (crc <<< 1) else bit_xor (u32 (crc <<< 1)) poly

-- `while (length--) { crc ^= *buffer++; … }`
unfoldable pub right_bytes : ℕ → ℕ → List ℕ → ℕ
unfolding rounds shift_right
right_bytes poly crc [] = crc
right_bytes poly crc (byte ∷ rest) =
    right_bytes poly (rounds 8 (shift_right poly) (bit_xor crc byte)) rest

unfoldable pub left_bytes8 : ℕ → ℕ → List ℕ → ℕ
unfolding rounds shift_left8
left_bytes8 poly crc [] = crc
left_bytes8 poly crc (byte ∷ rest) =
    left_bytes8 poly (rounds 8 (shift_left8 poly) (bit_xor crc byte)) rest

-- CheckCrc4, CheckCrc5, CheckCrc6 and CheckCrc7 are one text at the widths 4, 5, 6 and 7: `spare`
-- is 8 less the width. None of them reads refOut.
unfoldable pub check_narrow : ReflectedMode → ℕ → ℕ → ℕ → Bool → Bool → ℕ → List ℕ → ℕ
unfolding reflected_data right_bytes left_bytes8
check_narrow mode spare poly init ref_in ref_out xor_out buffer =
    if ref_in
    then bit_xor (right_bytes (u8 (reflected_data poly mode)) init buffer) xor_out
    else bit_xor (left_bytes8 (u8 (poly <<< spare)) (u8 (init <<< spare)) buffer >>> spare) xor_out

unfoldable pub check_crc4 : ℕ → ℕ → Bool → Bool → ℕ → List ℕ → ℕ
unfolding check_narrow
check_crc4 = check_narrow ref_4bit 4

unfoldable pub check_crc5 : ℕ → ℕ → Bool → Bool → ℕ → List ℕ → ℕ
unfolding check_narrow
check_crc5 = check_narrow ref_5bit 3

unfoldable pub check_crc6 : ℕ → ℕ → Bool → Bool → ℕ → List ℕ → ℕ
unfolding check_narrow
check_crc6 = check_narrow ref_6bit 2

unfoldable pub check_crc7 : ℕ → ℕ → Bool → Bool → ℕ → List ℕ → ℕ
unfolding check_narrow
check_crc7 = check_narrow ref_7bit 1

-- The byte that the wide loops take in, reflected first if refIn is set.
unfoldable pub input_byte : Bool → ℕ → ℕ
unfolding reflected_data
input_byte ref_in byte = if ref_in then reflected_data byte ref_8bit else byte

unfoldable pub crc8_bytes : ℕ → Bool → ℕ → List ℕ → ℕ
unfolding rounds shift_left8 input_byte
crc8_bytes poly ref_in crc [] = crc
crc8_bytes poly ref_in crc (byte ∷ rest) =
    crc8_bytes poly ref_in (rounds 8 (shift_left8 poly) (bit_xor crc (u8 (input_byte ref_in byte))))
      rest

-- CheckCrc8
unfoldable pub check_crc8 : ℕ → ℕ → Bool → Bool → ℕ → List ℕ → ℕ
unfolding reflected_data crc8_bytes
check_crc8 poly init ref_in ref_out xor_out buffer =
    let crc = crc8_bytes poly ref_in init buffer in
    bit_xor (if ref_out then u8 (reflected_data crc ref_8bit) else crc) xor_out

unfoldable pub crc16_bytes : ℕ → Bool → ℕ → List ℕ → ℕ
unfolding rounds shift_left16 input_byte
crc16_bytes poly ref_in crc [] = crc
crc16_bytes poly ref_in crc (byte ∷ rest) =
    crc16_bytes poly ref_in
      (rounds 8 (shift_left16 poly) (bit_xor crc (u16 (input_byte ref_in byte <<< 8)))) rest

-- CheckCrc16
unfoldable pub check_crc16 : ℕ → ℕ → Bool → Bool → ℕ → List ℕ → ℕ
unfolding reflected_data crc16_bytes
check_crc16 poly init ref_in ref_out xor_out buffer =
    let crc = crc16_bytes poly ref_in init buffer in
    bit_xor (if ref_out then u16 (reflected_data crc ref_16bit) else crc) xor_out

unfoldable pub crc32_bytes : ℕ → Bool → ℕ → List ℕ → ℕ
unfolding rounds shift_left32 input_byte
crc32_bytes poly ref_in crc [] = crc
crc32_bytes poly ref_in crc (byte ∷ rest) =
    crc32_bytes poly ref_in
      (rounds 8 (shift_left32 poly) (bit_xor crc (u32 (input_byte ref_in byte <<< 24)))) rest

-- CheckCrc32
unfoldable pub check_crc32 : ℕ → ℕ → Bool → Bool → ℕ → List ℕ → ℕ
unfolding reflected_data crc32_bytes
check_crc32 poly init ref_in ref_out xor_out buffer =
    let crc = crc32_bytes poly ref_in init buffer in
    bit_xor (if ref_out then reflected_data crc ref_32bit else crc) xor_out

-- CRC_Type
pub record CrcType : Type 0 where
  pub width : ℕ
  pub poly : ℕ
  pub init : ℕ
  pub ref_in : Bool
  pub ref_out : Bool
  pub xor_out : ℕ

-- CrcCheck: the parameters are cut to the width of the routine's arguments.
unfoldable pub crc_check : CrcType → List ℕ → ℕ
unfolding check_crc4 check_crc5 check_crc6 check_crc7 check_crc8 check_crc16 check_crc32
crc_check t buffer =
    if t.width == 4
    then narrow check_crc4
    else (if t.width == 5
        then narrow check_crc5
        else (if t.width == 6
            then narrow check_crc6
            else (if t.width == 7
                then narrow check_crc7
                else (if t.width == 8
                    then narrow check_crc8
                    else (if t.width == 16
                        then check_crc16 (u16 t.poly) (u16 t.init) t.ref_in t.ref_out
                            (u16 t.xor_out) buffer
                        else (if t.width == 32
                            then check_crc32 t.poly t.init t.ref_in t.ref_out t.xor_out buffer
                            else 0))))))
  where
    narrow : (ℕ → ℕ → Bool → Bool → ℕ → List ℕ → ℕ) → ℕ
    narrow check = check (u8 t.poly) (u8 t.init) t.ref_in t.ref_out (u8 t.xor_out) buffer

-- The type that calculate_crc32 fills in.
abbrev pub crc32_type : CrcType
crc32_type = record {
  width = 32;
  poly = 0x04c11db7;
  init = 0xffffffff;
  ref_in = true;
  ref_out = true;
  xor_out = 0xffffffff;
}

-- calculate_crc32: `size` is cut to the uint32_t parameter `length` of CrcCheck.
unfoldable pub calculate_crc32 : List ℕ → ℕ → ℕ
unfolding crc_check
calculate_crc32 memory size = crc_check crc32_type (take (u32 size) memory)
