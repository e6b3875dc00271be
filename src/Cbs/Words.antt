-- ===== src/Cbs/Words.antt =====
-- The macros of the page cache: the fields of a meta's word, and ids, metas and pages.
use pmem_program.Base.{ℕ, ◌+◌, ◌-◌, ◌*◌, ◌^◌, ◌≤◌, ◌<◌, ◌≡◌, ap, ap₂, ◌∙◌, bit_or, arith}
use pmem_program.Base.Words.{u32, u64, ◌<<<◌}
use pmem_program.Base.Bits.{bit_or_split, bit_or-zero, bit_or-zero_right, bit_and_low}
use pmem_program.Cbs.{
  valid_of, sn_of, req_of, first_word, next_word, page_id_from_meta, page_meta_from_id,
  page_from_meta, slot_of,
}

-- A request's entry stands at its own number.
pub slot_of_lem : (r : ℕ) → slot_of r ≡ r
unfolding slot_of
slot_of_lem r = omega (arith, bit_and_low 10 r)

pub first_word-eq_sum : (r : ℕ) → r < 2 ^ 32 → first_word r ≡ r * 2 ^ 32 + 1
unfolding first_word
first_word-eq_sum r h =
    ap (λ t. bit_or t 1) (let e : u64 (r <<< 32) ≡ r * 2 ^ 32 + 0 = omega arith in e)
    ∙ bit_or_split 32 r 0 0 1 (omega arith) (omega arith)
    ∙ omega (arith, bit_or-zero_right r, bit_or-zero 1)

pub next_word-eq_sum :
    (r sn : ℕ) → r < 2 ^ 32 → sn < 2 ^ 31 → next_word r sn ≡ r * 2 ^ 32 + sn * 2 + 1
unfolding next_word
next_word-eq_sum r sn h k = ap (λ t. bit_or t 1) joined ∙ last ∙ omega (arith, low)
  where
    joined : bit_or (u64 (r <<< 32)) (u64 (sn <<< 1)) ≡ r * 2 ^ 32 + sn * 2
    joined =
        ap₂ bit_or (let e : u64 (r <<< 32) ≡ r * 2 ^ 32 + 0 = omega arith in e)
          (let e : u64 (sn <<< 1) ≡ 0 * 2 ^ 32 + sn * 2 = omega arith in e)
        ∙ bit_or_split 32 r 0 0 (sn * 2) (omega arith) (omega arith)
        ∙ omega (arith, bit_or-zero_right r, bit_or-zero (sn * 2))

    last : bit_or (r * 2 ^ 32 + sn * 2) 1 ≡ r * 2 ^ 32 + bit_or (sn * 2) 1
    last =
        bit_or_split 32 r (sn * 2) 0 1 (omega arith) (omega arith)
        ∙ omega (arith, bit_or-zero_right r)

    low : bit_or (sn * 2) 1 ≡ sn * 2 + 1
    low =
        ap (λ t. bit_or t 1) (let e : sn * 2 ≡ sn * 2 ^ 1 + 0 = omega arith in e)
        ∙ bit_or_split 1 sn 0 0 1 (omega arith) (omega arith)
        ∙ omega (arith, bit_or-zero_right sn, bit_or-zero 1)

-- The word that a write leaves in a meta has its three fields.
pub next_word_fields :
    (r sn : ℕ)
    → r < 2 ^ 32
    → sn < 2 ^ 31
    → (valid_of (next_word r sn) ≡ 1)
      × (sn_of (next_word r sn) ≡ sn)
      × (req_of (next_word r sn) ≡ r)
unfolding valid_of sn_of req_of
next_word_fields r sn h k = omega (arith, next_word-eq_sum r sn h k)

pub first_word_fields :
    (r : ℕ)
    → r < 2 ^ 32
    → (valid_of (first_word r) ≡ 1) × (sn_of (first_word r) ≡ 0) × (req_of (first_word r) ≡ r)
unfolding valid_of sn_of req_of
first_word_fields r h = omega (arith, first_word-eq_sum r h)

pub page_id_of_id :
    (id : ℕ) → 1 ≤ id → id < 2 ^ 32 → u32 (page_id_from_meta (page_meta_from_id id)) ≡ id
unfolding page_id_from_meta page_meta_from_id
page_id_of_id id h k = omega arith

pub page_from_id :
    (address id : ℕ)
    → 1 ≤ id
    → page_from_meta address (page_meta_from_id id) ≡ address + 4096 * (id - 1)
unfolding page_from_meta page_meta_from_id
page_from_id address id h = omega arith
