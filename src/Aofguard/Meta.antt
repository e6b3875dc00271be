-- ===== src/Aofguard/Meta.antt =====
-- One 64-bit word holds the synced length and the ring's first block.
use pmem_program.Base.{ℕ, ◌+◌, ◌*◌, ◌/◌, ◌%◌, ◌^◌, ◌<◌, ◌≡◌, ap, ap₂, ◌∙◌, bit_and, bit_or, arith}
use pmem_program.Base.Words.{u64, ◌<<<◌}
use pmem_program.Base.Bits.{
  bit_and_split, bit_or_split, bit_and_low, bit_and-zero_right, bit_or-zero, bit_or-zero_right,
}
use pmem_program.Aofguard.{block_size, make_mixed_meta, get_fsync_len, get_buf_start}

pub make_mixed_meta-eq_sum :
    (fsync_len start : ℕ)
    → start / block_size < 65536
    → make_mixed_meta fsync_len start ≡ start / block_size * 2 ^ 48 + fsync_len % 2 ^ 48
unfolding make_mixed_meta
make_mixed_meta-eq_sum fsync_len start h =
    joined
    ∙ bit_or_split 48 0 (fsync_len % 2 ^ 48) (start / block_size) 0 (omega arith) (omega arith)
    ∙ omega (arith, bit_or-zero (start / block_size), bit_or-zero_right (fsync_len % 2 ^ 48))
  where
    block : ℕ
    block = start / block_size

    low_field : bit_and fsync_len 0xffffffffffff ≡ 0 * 2 ^ 48 + fsync_len % 2 ^ 48
    low_field = omega (arith, bit_and_low 48 fsync_len)

    high_field : bit_and (u64 (block <<< 48)) 0xffff000000000000 ≡ block * 2 ^ 48 + 0
    high_field =
        ap (λ t. bit_and t 0xffff000000000000)
          (let e : u64 (block <<< 48) ≡ block * 2 ^ 48 + 0 = omega arith in e)
        ∙ bit_and_split 48 block 0 0xffff 0 (omega arith) (omega arith)
        ∙ omega (arith, bit_and_low 16 block, bit_and-zero_right 0)

    joined :
        make_mixed_meta fsync_len start
        ≡ bit_or (0 * 2 ^ 48 + fsync_len % 2 ^ 48) (block * 2 ^ 48 + 0)
    joined = ap₂ bit_or low_field high_field

-- The synced length and the ring's start come back from the mixed word, if the length is below
-- 2^48 and the start is that of one of the first 65536 blocks.
pub mixed_meta_roundtrip :
    (fsync_len start : ℕ)
    → fsync_len < 2 ^ 48
    → start % block_size ≡ 0
    → start / block_size < 65536
    → (get_fsync_len (make_mixed_meta fsync_len start) ≡ fsync_len)
      × (get_buf_start (make_mixed_meta fsync_len start) ≡ start)
unfolding get_fsync_len get_buf_start
mixed_meta_roundtrip fsync_len start small aligned block =
    let word = make_mixed_meta fsync_len start in
    omega (
      arith,
      make_mixed_meta-eq_sum fsync_len start block,
      bit_and_low 48 word,
      bit_and_low 16 (word / 2 ^ 48),
    )
