-- ===== src/Sha1/Padding.antt =====
-- The padding loop of sha1_final ends.
use pmem_program.Base.{
  ℕ, zero, suc, ◌+◌, ◌-◌, ◌*◌, ◌/◌, ◌%◌, ◌^◌, ◌≤◌, ◌≡◌, ◌≢◌, ap, ◌∙◌, [], ◌∷◌, ltb, ◌==◌, bit_and,
  arith, Bool-cases, inl, inr,
}
use pmem_program.Base.Words.{u32, ◌>>>◌}
use pmem_program.Base.Bits.{bit_and_split, bit_and_low, bit_and-zero_right}
use pmem_program.Sha1.{Sha1Context, sha1_update, pad}

-- The mask 504 keeps the number of bytes in the current block, in bits.
block_bits : (x : ℕ) → bit_and x 504 ≡ x / 8 % 64 * 8
block_bits x =
    ap (λ t. bit_and t 504) (let e : x ≡ x / 8 * 2 ^ 3 + x % 8 = omega arith in e)
    ∙ bit_and_split 3 (x / 8) (x % 8) 63 0 (omega arith) (omega arith)
    ∙ omega (arith, bit_and_low 6 (x / 8), bit_and-zero_right (x % 8))

count_next : (c : Sha1Context) (b : ℕ) → (sha1_update c (b ∷ [])).count0 ≡ u32 (c.count0 + 8)
unfolding sha1_update
count_next c b = elim (Bool-cases (ltb 63 (bit_and (c.count0 >>> 3) 63 + 1))) [
  | inl full ↦ rw (sha1_update, full)
  | inr room ↦ rw (sha1_update, room)
]

pad_within :
    (n : ℕ) (c : Sha1Context)
    → c.count0 % 8 ≡ 0
    → (120 - c.count0 / 8 % 64) % 64 ≤ n
    → bit_and (pad n c).count0 504 ≡ 448
unfolding pad
pad_within zero c whole near = omega (arith, block_bits c.count0)
pad_within (suc n) c whole near = elim (Bool-cases (bit_and c.count0 504 == 448)) [
  | inl there ↦ rw (pad, there) (ground arith)
  | inr on ↦
      let next = sha1_update c (0 ∷ []) in
      let off : bit_and c.count0 504 ≢ 448 = ground arith in
      rw (pad, on)
        (pad_within n next (omega (arith, count_next c 0))
          (omega (arith, count_next c 0, block_bits c.count0)))
]

-- The padding loop of sha1_final stops within 64 turns from every context that holds whole bytes:
-- its condition holds where it stops.
pub pad_ends : (c : Sha1Context) → c.count0 % 8 ≡ 0 → bit_and (pad 64 c).count0 504 ≡ 448
pad_ends c whole = pad_within 64 c whole (omega arith)
