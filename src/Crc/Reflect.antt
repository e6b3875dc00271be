-- ===== src/Crc/Reflect.antt =====
-- ReflectedData reverses the bits: it works on the four bytes apart, and twice gives the word back.
use pmem_program.Base.{
  ℕ, zero, suc, ◌+◌, ◌*◌, ◌/◌, ◌%◌, ◌^◌, ◌≤◌, ◌<◌, ◌≡◌, refl, ap, ap₂, ◌∙◌, sym, Bool, true, ◌&&◌,
  ◌==◌, ==_iff, ltb, bit_and, bit_or, arith,
}
use pmem_program.Base.Words.{u32}
use pmem_program.Base.Bits.{
  bit_and_split, bit_or_split, bit_and_low, bit_and-zero_right, bit_or-zero, bit_or-zero_right,
}
use pmem_program.Crc.{swap_bits, reverse_bits, reflected_data, ref_8bit}

-- A fact about all numbers below a bound, by evaluation.
tested_below : ℕ → (ℕ → Bool) → Bool
tested_below zero test = true
tested_below (suc bound) test = tested_below bound test && test bound

tested_below_sound :
    (bound : ℕ) (test : ℕ → Bool) (value : ℕ)
    → value < bound
    → tested_below bound test ≡ true
    → test value ≡ true
unfolding tested_below
tested_below_sound zero test value small passed = absurd (omega arith)
tested_below_sound (suc bound) test value small passed =
    ground (arith, tested_below_sound bound test value)

-- The reversal of one byte, and the word of four bytes.
abbrev pub reverse_byte : ℕ → ℕ
reverse_byte x = reflected_data x ref_8bit

abbrev pub word_of : ℕ → ℕ → ℕ → ℕ → ℕ
word_of a b c d = ((a * 2 ^ 8 + b) * 2 ^ 8 + c) * 2 ^ 8 + d

-- The operations on words are the operations on their bytes.
bit_and-word_of :
    (a b c d e f g h : ℕ)
    → b < 256
    → c < 256
    → d < 256
    → f < 256
    → g < 256
    → h < 256
    → bit_and (word_of a b c d) (word_of e f g h)
      ≡ word_of (bit_and a e) (bit_and b f) (bit_and c g) (bit_and d h)
bit_and-word_of a b c d e f g h hb hc hd hf hg hh = omega (
  arith,
  bit_and_split 8 ((a * 2 ^ 8 + b) * 2 ^ 8 + c) d ((e * 2 ^ 8 + f) * 2 ^ 8 + g) h hd hh,
  bit_and_split 8 (a * 2 ^ 8 + b) c (e * 2 ^ 8 + f) g hc hg,
  bit_and_split 8 a b e f hb hf,
)

bit_or-word_of :
    (a b c d e f g h : ℕ)
    → b < 256
    → c < 256
    → d < 256
    → f < 256
    → g < 256
    → h < 256
    → bit_or (word_of a b c d) (word_of e f g h)
      ≡ word_of (bit_or a e) (bit_or b f) (bit_or c g) (bit_or d h)
bit_or-word_of a b c d e f g h hb hc hd hf hg hh = omega (
  arith,
  bit_or_split 8 ((a * 2 ^ 8 + b) * 2 ^ 8 + c) d ((e * 2 ^ 8 + f) * 2 ^ 8 + g) h hd hh,
  bit_or_split 8 (a * 2 ^ 8 + b) c (e * 2 ^ 8 + f) g hc hg,
  bit_or_split 8 a b e f hb hf,
)

byte_mask : (a : ℕ) → a < 256 → bit_and a 0xff ≡ a
byte_mask a h = omega (arith, bit_and_low 8 a)

module _ (a b c d : ℕ) (ha : a < 256) (hb : b < 256) (hc : c < 256) (hd : d < 256) where
  -- The first line exchanges the halves, the second the bytes of each half.
  swap_halves : swap_bits 0xffff0000 0x0000ffff 16 (word_of a b c d) ≡ word_of c d a b
  unfolding swap_bits
  swap_halves =
      ap₂ bit_or
        (omega (
          arith,
          bit_and-word_of a b c d 0xff 0xff 0 0 hb hc hd (omega arith) (omega arith) (omega arith),
          byte_mask a ha,
          byte_mask b hb,
          bit_and-zero_right c,
          bit_and-zero_right d,
        ))
        (omega (
          arith,
          bit_and-word_of a b c d 0 0 0xff 0xff hb hc hd (omega arith) (omega arith) (omega arith),
          byte_mask c hc,
          byte_mask d hd,
          bit_and-zero_right a,
          bit_and-zero_right b,
        ))
      ∙ bit_or-word_of 0 0 a b c d 0 0 (omega arith) ha hb hd (omega arith) (omega arith)
      ∙ omega (arith, bit_or-zero c, bit_or-zero d, bit_or-zero_right a, bit_or-zero_right b)

  swap_bytes : swap_bits 0xff00ff00 0x00ff00ff 8 (word_of a b c d) ≡ word_of b a d c
  unfolding swap_bits
  swap_bytes =
      ap₂ bit_or
        (omega (
          arith,
          bit_and-word_of a b c d 0xff 0 0xff 0 hb hc hd (omega arith) (omega arith) (omega arith),
          byte_mask a ha,
          byte_mask c hc,
          bit_and-zero_right b,
          bit_and-zero_right d,
        ))
        (omega (
          arith,
          bit_and-word_of a b c d 0 0xff 0 0xff hb hc hd (omega arith) (omega arith) (omega arith),
          byte_mask b hb,
          byte_mask d hd,
          bit_and-zero_right a,
          bit_and-zero_right c,
        ))
      ∙ bit_or-word_of 0 a 0 c b 0 d 0 ha (omega arith) hc (omega arith) hd (omega arith)
      ∙ omega (arith, bit_or-zero b, bit_or-zero d, bit_or-zero_right a, bit_or-zero_right c)

-- The other lines work inside each byte: the facts about one byte are read off a table.
abbrev swap_in_byte : ℕ → ℕ → ℕ → ℕ → ℕ
swap_in_byte high low k x = bit_or (bit_and x high / 2 ^ k) (bit_and x low * 2 ^ k)

abbrev fits_byte : ℕ → ℕ → ℕ → ℕ → Bool
fits_byte high low k x =
    (bit_and x high % 2 ^ k == 0)
    && ltb (bit_and x high) 256
    && ltb (bit_and x low * 2 ^ k) 256
    && ltb (swap_in_byte high low k x) 256

module _ (high low k : ℕ) (high_lt : high < 256) (low_lt : low < 256)
    (table : tested_below 256 (fits_byte high low k) ≡ true) where
  byte_facts :
      (x : ℕ)
      → x < 256
      → (bit_and x high % 2 ^ k ≡ 0)
        × (bit_and x high < 256)
        × (bit_and x low * 2 ^ k < 256)
        × (swap_in_byte high low k x < 256)
  byte_facts x h =
      let facts = tested_below_sound 256 (fits_byte high low k) x h table in ground arith

  module _
      (div_word : (p q r t : ℕ)
        → p % 2 ^ k ≡ 0
        → q % 2 ^ k ≡ 0
        → r % 2 ^ k ≡ 0
        → t % 2 ^ k ≡ 0
        → word_of p q r t / 2 ^ k ≡ word_of (p / 2 ^ k) (q / 2 ^ k) (r / 2 ^ k) (t / 2 ^ k))
      (mul_word : (p q r t : ℕ)
        → word_of p q r t * 2 ^ k ≡ word_of (p * 2 ^ k) (q * 2 ^ k) (r * 2 ^ k) (t * 2 ^ k))
      (shrinks : (x : ℕ) → x / 2 ^ k ≤ x) (a b c d : ℕ) (ha : a < 256) (hb : b < 256) (hc : c < 256)
      (hd : d < 256) where
    swap_inside :
        swap_bits (word_of high high high high) (word_of low low low low) k (word_of a b c d)
        ≡ word_of
            (swap_in_byte high low k a)
            (swap_in_byte high low k b)
            (swap_in_byte high low k c)
            (swap_in_byte high low k d)
    unfolding swap_bits
    swap_inside =
        ap₂ bit_or
          (ap (λ t. t / 2 ^ k)
              (bit_and-word_of a b c d high high high high hb hc hd high_lt high_lt high_lt)
            ∙ div_word (bit_and a high) (bit_and b high) (bit_and c high) (bit_and d high)
                (byte_facts a ha).0 (byte_facts b hb).0 (byte_facts c hc).0 (byte_facts d hd).0)
          (ap (λ t. u32 (t * 2 ^ k))
              (bit_and-word_of a b c d low low low low hb hc hd low_lt low_lt low_lt)
            ∙ ap u32 (mul_word (bit_and a low) (bit_and b low) (bit_and c low) (bit_and d low))
            ∙ omega (arith, byte_facts a ha, byte_facts b hb, byte_facts c hc, byte_facts d hd))
        ∙ bit_or-word_of (bit_and a high / 2 ^ k) (bit_and b high / 2 ^ k) (bit_and c high / 2 ^ k)
            (bit_and d high / 2 ^ k) (bit_and a low * 2 ^ k) (bit_and b low * 2 ^ k)
            (bit_and c low * 2 ^ k) (bit_and d low * 2 ^ k) (quotient_lt b hb) (quotient_lt c hc)
            (quotient_lt d hd) (byte_facts b hb).2 (byte_facts c hc).2 (byte_facts d hd).2
      where
        quotient_lt : (x : ℕ) → x < 256 → bit_and x high / 2 ^ k < 256
        quotient_lt x h = omega (arith, shrinks (bit_and x high), byte_facts x h)

-- The reversal of a byte by its three lines.
nibbles : ℕ → ℕ
nibbles x = swap_in_byte 0xf0 0x0f 4 x

pairs : ℕ → ℕ
pairs x = swap_in_byte 0xcc 0x33 2 x

neighbours : ℕ → ℕ
neighbours x = swap_in_byte 0xaa 0x55 1 x

pub turned : ℕ → ℕ
turned x = neighbours (pairs (nibbles x))

nibbles_table : tested_below 256 (fits_byte 0xf0 0x0f 4) ≡ true
unfolding tested_below
nibbles_table = refl

pairs_table : tested_below 256 (fits_byte 0xcc 0x33 2) ≡ true
unfolding tested_below
pairs_table = refl

neighbours_table : tested_below 256 (fits_byte 0xaa 0x55 1) ≡ true
unfolding tested_below
neighbours_table = refl

nibbles-lt : (x : ℕ) → x < 256 → nibbles x < 256
unfolding nibbles
nibbles-lt x h = (byte_facts 0xf0 0x0f 4 (omega arith) (omega arith) nibbles_table x h).3

pairs-lt : (x : ℕ) → x < 256 → pairs x < 256
unfolding pairs
pairs-lt x h = (byte_facts 0xcc 0x33 2 (omega arith) (omega arith) pairs_table x h).3

pub turned-lt : (x : ℕ) → x < 256 → turned x < 256
unfolding turned neighbours
turned-lt x h =
    (byte_facts 0xaa 0x55 1 (omega arith) (omega arith) neighbours_table (pairs (nibbles x))
      (pairs-lt (nibbles x) (nibbles-lt x h))).3

module _ (a b c d : ℕ) (ha : a < 256) (hb : b < 256) (hc : c < 256) (hd : d < 256) where
  swap_nibbles :
      swap_bits 0xf0f0f0f0 0x0f0f0f0f 4 (word_of a b c d)
      ≡ word_of (nibbles a) (nibbles b) (nibbles c) (nibbles d)
  unfolding nibbles
  swap_nibbles =
      swap_inside 0xf0 0x0f 4 (omega arith) (omega arith) nibbles_table
        (λ p q r t hp hq hr ht. omega arith) (λ p q r t. omega arith) (λ x. omega arith) a b c d ha
        hb hc hd

  swap_pairs :
      swap_bits 0xcccccccc 0x33333333 2 (word_of a b c d)
      ≡ word_of (pairs a) (pairs b) (pairs c) (pairs d)
  unfolding pairs
  swap_pairs =
      swap_inside 0xcc 0x33 2 (omega arith) (omega arith) pairs_table
        (λ p q r t hp hq hr ht. omega arith) (λ p q r t. omega arith) (λ x. omega arith) a b c d ha
        hb hc hd

  swap_neighbours :
      swap_bits 0xaaaaaaaa 0x55555555 1 (word_of a b c d)
      ≡ word_of (neighbours a) (neighbours b) (neighbours c) (neighbours d)
  unfolding neighbours
  swap_neighbours =
      swap_inside 0xaa 0x55 1 (omega arith) (omega arith) neighbours_table
        (λ p q r t hp hq hr ht. omega arith) (λ p q r t. omega arith) (λ x. omega arith) a b c d ha
        hb hc hd

-- On four bytes ReflectedData turns each byte and reverses their order.
pub reverse_bits-word_of :
    (a b c d : ℕ)
    → a < 256
    → b < 256
    → c < 256
    → d < 256
    → reverse_bits (word_of a b c d) ≡ word_of (turned d) (turned c) (turned b) (turned a)
unfolding reverse_bits turned
reverse_bits-word_of a b c d ha hb hc hd =
    let swap4 = λ (x : ℕ). swap_bits 0xf0f0f0f0 0x0f0f0f0f 4 x in
    let swap2 = λ (x : ℕ). swap_bits 0xcccccccc 0x33333333 2 x in
    let swap1 = λ (x : ℕ). swap_bits 0xaaaaaaaa 0x55555555 1 x in
    ap (λ x. swap1 (swap2 (swap4 (swap_bits 0xff00ff00 0x00ff00ff 8 x))))
      (swap_halves a b c d ha hb hc hd)
    ∙ ap (λ x. swap1 (swap2 (swap4 x))) (swap_bytes c d a b hc hd ha hb)
    ∙ ap (λ x. swap1 (swap2 x)) (swap_nibbles d c b a hd hc hb ha)
    ∙ ap swap1 (
        swap_pairs (nibbles d) (nibbles c) (nibbles b) (nibbles a) (nibbles-lt d hd)
          (nibbles-lt c hc) (nibbles-lt b hb) (nibbles-lt a ha))
    ∙ swap_neighbours (pairs (nibbles d)) (pairs (nibbles c)) (pairs (nibbles b))
        (pairs (nibbles a)) (pairs-lt (nibbles d) (nibbles-lt d hd))
        (pairs-lt (nibbles c) (nibbles-lt c hc)) (pairs-lt (nibbles b) (nibbles-lt b hb))
        (pairs-lt (nibbles a) (nibbles-lt a ha))

turned_table : tested_below 256 (λ x. turned (turned x) == x) ≡ true
unfolding tested_below turned nibbles pairs neighbours
turned_table = refl

turned_twice : (x : ℕ) → x < 256 → turned (turned x) ≡ x
turned_twice x h = (==_iff (turned (turned x)) x).0 (tested_below_sound 256 _ x h turned_table)

split_word :
    (x : ℕ) → x < 2 ^ 32 → x ≡ word_of (x / 2 ^ 24) (x / 2 ^ 16 % 256) (x / 2 ^ 8 % 256) (x % 256)
split_word x h = omega arith

reverse_bits-word :
    (x : ℕ)
    → x < 2 ^ 32
    → reverse_bits x
      ≡ word_of
          (turned (x % 256))
          (turned (x / 2 ^ 8 % 256))
          (turned (x / 2 ^ 16 % 256))
          (turned (x / 2 ^ 24))
reverse_bits-word x h =
    ap reverse_bits (split_word x h)
    ∙ reverse_bits-word_of (x / 2 ^ 24) (x / 2 ^ 16 % 256) (x / 2 ^ 8 % 256) (x % 256) (omega arith)
        (omega arith) (omega arith) (omega arith)

-- ReflectedData keeps a 32-bit word.
pub reverse_bits-lt : (x : ℕ) → x < 2 ^ 32 → reverse_bits x < 2 ^ 32
reverse_bits-lt x h = omega (
  arith,
  reverse_bits-word x h,
  turned-lt (x % 256),
  turned-lt (x / 2 ^ 8 % 256),
  turned-lt (x / 2 ^ 16 % 256),
  turned-lt (x / 2 ^ 24),
)

-- The bit reversal of ReflectedData, applied twice, gives back every 32-bit word.
pub reverse_bits_twice : (x : ℕ) → x < 2 ^ 32 → reverse_bits (reverse_bits x) ≡ x
reverse_bits_twice x h =
    ap reverse_bits (reverse_bits-word x h)
    ∙ reverse_bits-word_of (turned (x % 256)) (turned (x / 2 ^ 8 % 256)) (turned (x / 2 ^ 16 % 256))
        (turned (x / 2 ^ 24)) (turned-lt (x % 256) (omega arith))
        (turned-lt (x / 2 ^ 8 % 256) (omega arith)) (turned-lt (x / 2 ^ 16 % 256) (omega arith))
        (turned-lt (x / 2 ^ 24) (omega arith))
    ∙ omega (
      arith,
      turned_twice (x / 2 ^ 24) (omega arith),
      turned_twice (x / 2 ^ 16 % 256) (omega arith),
      turned_twice (x / 2 ^ 8 % 256) (omega arith),
      turned_twice (x % 256) (omega arith),
    )

-- A byte reflected alone is the byte turned, and twice gives it back.
reflected_table : tested_below 256 (λ x. reflected_data x ref_8bit == turned x) ≡ true
unfolding tested_below turned nibbles pairs neighbours reflected_data
reflected_table = refl

pub reflected_byte : (x : ℕ) → x < 256 → reflected_data x ref_8bit ≡ turned x
reflected_byte x h =
    (==_iff (reflected_data x ref_8bit) (turned x)).0 (tested_below_sound 256 _ x h reflected_table)

pub turned_injective : (x y : ℕ) → x < 256 → y < 256 → turned x ≡ turned y → x ≡ y
turned_injective x y h k e = sym (turned_twice x h) ∙ ap turned e ∙ turned_twice y k
