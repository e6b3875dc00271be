-- ===== src/Aofguard.antt =====
-- wal_accel/src/aofguard.c: the write-ahead ring in persistent memory that guards an append-only
-- file between two syncs. Types, the meta words and the ring macros; the children have the
-- functions and their theorems.
pub mod Ops
pub mod Init
pub mod Meta
pub mod Slices
pub mod Ring
pub mod Invariant
pub mod Ensures
pub mod Room
pub mod Log
pub mod Recovery
pub mod Durability
pub mod Interrupted
use pmem_program.Base.{
  ℕ, ◌+◌, ◌-◌, ◌*◌, ◌/◌, ◌%◌, ◌^◌, bit_and, bit_or, Bool, true, false, Option, List, leb, ltb, ◌==◌,
  if◌then◌else◌,
}
use pmem_program.Base.Words.{u64, ◌<<<◌, ◌>>>◌}

-- BLOCK_SIZE
abbrev pub block_size : ℕ
block_size = 2 ^ 20

-- MAKE_MIXED_META, GET_FSYNC_LEN and GET_BUF_START
unfoldable pub make_mixed_meta : ℕ → ℕ → ℕ
make_mixed_meta fsync_len buf_start =
    bit_or (bit_and fsync_len 0xffffffffffff)
      (bit_and (u64 ((buf_start / block_size) <<< 48)) 0xffff000000000000)

unfoldable pub get_fsync_len : ℕ → ℕ
get_fsync_len mixed_meta = bit_and mixed_meta 0xffffffffffff

unfoldable pub get_buf_start : ℕ → ℕ
get_buf_start mixed_meta = bit_and (mixed_meta >>> 48) 0xffff * block_size

-- What the program takes from the kernel about the guarded file: what a call of write, fdatasync,
-- ftruncate or fstat does to the file and returns. A return value of write is the size_t that the
-- code compares with; the others give whether they succeed, and fstat the size. `fdatasync_since n`
-- is a call of fdatasync in another thread that began when the file had its first n bytes, and has
-- returned 0 by now.
pub record Os (File : Type 0) : Type 0 where
  pub write : File → List ℕ → File × ℕ
  pub fdatasync : File → File × Bool
  pub fdatasync_since : ℕ → File → File
  pub ftruncate : File → ℕ → File × Bool
  pub fstat : File → Option ℕ

-- The mapped file: its two meta words, at offsets 0 and 64, and its ring, from offset 128 on.
pub record Nvm : Type 0 where
  pub mixed_meta : ℕ
  pub buf_end : ℕ
  pub bytes : ℕ → ℕ

-- struct aofguard, with the memory and the file that it points to.
pub record Aofguard (File : Type 0) : Type 0 where
  pub file : File
  pub fsync_len : ℕ
  pub capacity : ℕ
  pub start : ℕ
  pub len : ℕ
  pub nvm : Nvm
  pub block_count : ℕ

-- A function returns 1, returns 0 after it has reported an error, or fails an assertion.
pub data Result (E A : Type 0) : Type 0 where
  done : A → Result E A
  failed : E → Result E A
  aborted : Result E A

infixl 5 ◌>>=◌
abbrev pub ◌>>=◌ : {E A B : Type 0} → Result E A → (A → Result E B) → Result E B
done a >>= f = f a
failed e >>= f = failed e
aborted >>= f = aborted

-- assert(test)
abbrev pub assert_that : {E A : Type 0} → Bool → Result E A → Result E A
assert_that test next = if test then next else aborted

-- RING_BUF_FORWARD and RING_BUF_END, whose assertion is the caller's `assert_that`.
unfoldable pub ring_forward : ℕ → ℕ → ℕ → ℕ
ring_forward val addition capacity =
    let sum = u64 (val + addition) in if leb capacity sum then sum - capacity else sum
