-- ===== src/LockClient/Messages.antt =====
-- A message carries its block and type: the server reads back what the client wrote.
use pmem_program.Base.{ℕ, ◌+◌, ◌*◌, ◌^◌, ◌<◌, ◌≡◌, ap, ◌∙◌, arith, bit_or}
use pmem_program.Base.Words.{u32, ◌<<<◌}
use pmem_program.Base.Bits.{bit_or_split, bit_or-zero, bit_or-zero_right}
use pmem_program.LockService.{indicator_of, blockid_of}
use pmem_program.LockService.Words.{indicator_of-eq_mod, blockid_of-eq_div}
use pmem_program.LockClient.{message}

pub message-eq_sum :
    (uuid type : ℕ) → uuid < 2 ^ 30 → type < 4 → message uuid type ≡ 4 * uuid + type
unfolding message
message-eq_sum uuid type h k = ap (λ t. bit_or t type) whole ∙ split ∙ omega (arith, left, right)
  where
    whole : u32 (uuid <<< 2) ≡ uuid * 2 ^ 2 + 0
    whole = omega arith

    field : type ≡ 0 * 2 ^ 2 + type
    field = omega arith

    split : bit_or (uuid * 2 ^ 2 + 0) type ≡ bit_or uuid 0 * 2 ^ 2 + bit_or 0 type
    split =
        ap (λ t. bit_or (uuid * 2 ^ 2 + 0) t) field ∙ bit_or_split 2 uuid 0 0 type (omega arith) k

    left : bit_or uuid 0 ≡ uuid
    left = bit_or-zero_right uuid

    right : bit_or 0 type ≡ type
    right = bit_or-zero type

-- The server decodes the block and the type that the client encoded, for every block number below
-- 2^30 and every lock type, and the message fits an int.
pub message_roundtrip :
    (uuid type : ℕ)
    → uuid < 2 ^ 30
    → type < 4
    → (blockid_of (message uuid type) ≡ uuid)
      × (indicator_of (message uuid type) ≡ type)
      × (message uuid type < 2 ^ 32)
message_roundtrip uuid type h k =
    let sum = message-eq_sum uuid type h k in
    (
      omega (arith, sum, blockid_of-eq_div (message uuid type) (omega (arith, sum))),
      omega (arith, sum, indicator_of-eq_mod (message uuid type)),
      omega (arith, sum),
    )
