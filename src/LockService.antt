-- ===== src/LockService.antt =====
-- cxl_memory_sharing/lock_service.c: the lock server. Its state is the table of hash_kv.c, which
-- maps a block to -1 (never locked), 0 (free), 1 (a writer) or 2 k (k readers).
-- A 32-bit `int` is the number of its bit pattern; LOG and printf are left out.
pub mod Words
pub mod Value
pub mod Refine
pub mod Keeps
use pmem_program.Base.{
  ℕ, ◌+◌, ◌-◌, ◌*◌, ◌/◌, ◌%◌, bit_and, Bool, true, false, ◌&&◌, ◌||◌, not, Option, none, some, ◌==◌,
  if◌then◌else◌,
}
use pmem_program.Base.Words.{◌>>>◌}
use pmem_program.Base.Int.{ℤ, pos, negsuc, ◌==ℤ◌}
use pmem_program.HashKv.{HashTable, get_key_value, set_key_value}

-- lock.h: enum lock_type
abbrev pub release_lock : ℕ
release_lock = 0

abbrev pub read_lock : ℕ
read_lock = 1

abbrev pub write_lock : ℕ
write_lock = 2

abbrev pub error_lock : ℕ
error_lock = 3

-- What the client sees of a message: the `lock` written back, nothing, or the failed assertion
-- that ends the server.
pub data Reply : Type 0 where
  answer : ℕ → Reply
  no_answer : Reply
  aborted : Reply

pub record Handled : Type 0 where
  pub table : Option HashTable
  pub reply : Reply

-- `x & 3` and `(x & 0xfffffffc) >> 2`
unfoldable pub indicator_of : ℕ → ℕ
indicator_of x = bit_and x 3

unfoldable pub blockid_of : ℕ → ℕ
blockid_of x = bit_and x 0xfffffffc >>> 2

-- `>> 1` of a long, which rounds down, then + 1 or - 1, then `<< 1`
abbrev pub shr1 : ℤ → ℤ
shr1 (pos n) = pos (n / 2)
shr1 (negsuc n) = negsuc (n / 2)

abbrev pub inc : ℤ → ℤ
inc (pos n) = pos (n + 1)
inc (negsuc n) = if n == 0 then pos 0 else negsuc (n - 1)

abbrev pub dec : ℤ → ℤ
dec (pos n) = if n == 0 then negsuc 0 else pos (n - 1)
dec (negsuc n) = negsuc (n + 1)

-- `<< 1` on an integer without bound; the long of the source holds a number below 2^63.
abbrev pub shl1 : ℤ → ℤ
shl1 (pos n) = pos (2 * n)
shl1 (negsuc n) = negsuc (2 * n + 1)

-- A new value is stored, then `lock` is written back, unless the message is a release.
store : Bool → Option HashTable → ℤ → ℤ → Reply → Option Handled
store malloc_ok table blockid value reply = elim (set_key_value malloc_ok table blockid value) [
  | none ↦ none
  | some table' ↦ some (record { table = table'; reply = reply })
]

-- The branches of handle_lock, each on the value read at its start.
on_write : Bool → Option HashTable → ℤ → ℤ → Option Handled
unfolding store
on_write malloc_ok table blockid value =
    if (value ==ℤ negsuc 0) || (value ==ℤ pos 0)
    then store malloc_ok table blockid (pos 1) (answer 1)
    else some (record { table = table; reply = answer 0 })

on_read : Bool → Option HashTable → ℤ → ℤ → Option Handled
unfolding store
on_read malloc_ok table blockid value =
    if (value ==ℤ pos 1) || (value ==ℤ negsuc 0)
    then some (record { table = table; reply = answer 0 })
    else store malloc_ok table blockid (shl1 (inc (shr1 value))) (answer 1)

on_release : Bool → Option HashTable → ℤ → ℤ → Option Handled
unfolding store
on_release malloc_ok table blockid value =
    if value ==ℤ pos 1
    then store malloc_ok table blockid (pos 0) no_answer
    else (if not (value ==ℤ pos 0) && not (value ==ℤ negsuc 0)
        then store malloc_ok table blockid (shl1 (dec (shr1 value))) no_answer
        else some (record { table = table; reply = no_answer }))

-- handle_lock
unfoldable pub handle_lock : Bool → Option HashTable → ℕ → Option Handled
unfolding on_write on_read on_release blockid_of indicator_of
handle_lock malloc_ok table x =
    let indicator = indicator_of x in
    let blockid = pos (blockid_of x) in
    elim (get_key_value table blockid) [
      | none ↦ none
      | some value ↦
          if indicator == write_lock
          then on_write malloc_ok table blockid value
          else (if indicator == read_lock
              then on_read malloc_ok table blockid value
              else (if indicator == release_lock
                  then on_release malloc_ok table blockid value
                  else some (record { table = table; reply = aborted })))
    ]
