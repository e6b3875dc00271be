-- ===== src/Cbs/Layout.antt =====
-- Where a new mapping puts its pages: on a page boundary behind the metas, inside the mapping.
use pmem_program.Base.{ℕ, ◌+◌, ◌*◌, ◌/◌, ◌%◌, ◌^◌, ◌≤◌, ◌<◌, ◌≡◌, ap, ◌∙◌, bit_and, arith}
use pmem_program.Base.Bits.{bit_and_split, bit_and_low, bit_and-zero_right}
use pmem_program.Base.Words.{u64}
use pmem_program.Cbs.{Image, page_size}
use pmem_program.Cbs.Init.{Start, meta_at, pmem_page_numbers, set_up}

-- The mask clears the offset in a page.
page_floor : (x : ℕ) → x < 2 ^ 64 → bit_and x 0xfffffffffffff000 ≡ x / 2 ^ 12 * 2 ^ 12
page_floor x h = ap (λ t. bit_and t 0xfffffffffffff000) whole ∙ split ∙ omega (arith, high, low)
  where
    whole : x ≡ x / 2 ^ 12 * 2 ^ 12 + x % 2 ^ 12
    whole = omega arith

    split :
        bit_and (x / 2 ^ 12 * 2 ^ 12 + x % 2 ^ 12) 0xfffffffffffff000
        ≡ bit_and (x / 2 ^ 12) 0xfffffffffffff * 2 ^ 12 + bit_and (x % 2 ^ 12) 0
    split = bit_and_split 12 (x / 2 ^ 12) (x % 2 ^ 12) 0xfffffffffffff 0 (omega arith) (omega arith)

    low : bit_and (x % 2 ^ 12) 0 ≡ 0
    low = bit_and-zero_right (x % 2 ^ 12)

    high : bit_and (x / 2 ^ 12) 0xfffffffffffff ≡ x / 2 ^ 12
    high = omega (arith, bit_and_low 52 (x / 2 ^ 12))

-- The length of the mapping.
abbrev pub mapped_size : ℕ
mapped_size = 100 * 1024 * 1024 * 1024

-- The n pages from an address on, in a mapping at a base: on page boundaries, behind the magic
-- word, the offset and the n metas, and before the end of the mapping.
pub record PagesFit (n base address : ℕ) : Type 0 where
  pub aligned : (base + address) % page_size ≡ 0
  pub behind : meta_at n ≤ address
  pub inside : address + n * page_size ≤ mapped_size

pub set_up-PagesFit :
    {Page : Type 0} (n : ℕ) (start : Start) (malloced : ℕ → ℕ) (image : Image Page)
    → n ≤ pmem_page_numbers
    → start.pmem_base + mapped_size < 2 ^ 64
    → PagesFit n start.pmem_base (set_up n start malloced image).page_address
unfolding set_up
set_up-PagesFit n start malloced image few small =
    let whole : u64 (start.pmem_base + meta_at n + page_size)
        ≡ start.pmem_base + meta_at n + page_size =
      omega arith in
    let floor = page_floor (start.pmem_base + meta_at n + page_size) (omega arith) in
    rw (whole, floor) (record { aligned = omega arith; behind = omega arith; inside = omega arith })
