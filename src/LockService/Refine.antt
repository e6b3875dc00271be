-- ===== src/LockService/Refine.antt =====
-- handle_lock implements the lock of each block: it answers and changes the block of the message
-- as `Value` says, and leaves every other block alone.
use pmem_program.Base.{
  ℕ, zero, suc, ◌/◌, ◌%◌, ◌^◌, ◌<◌, ◌≡◌, refl, ◌∙◌, true, Option, some, ◌==◌, ==_iff, if◌then◌else◌,
  Bool-cases, inl, inr, arith,
}
use pmem_program.Base.Int.{ℤ, pos, ◌==ℤ◌}
use pmem_program.HashKv.{HashTable, get_key_value}
use pmem_program.HashKv.Lookup.{HasSlots, pos-InRange, get_key_value-set_key_value}
use pmem_program.LockService.{
  Reply, answer, no_answer, aborted, Handled, indicator_of, blockid_of, store, on_write, on_read,
  on_release, handle_lock,
}
use pmem_program.LockService.Value.{
  BlockLock, unused, unlocked, written, reading, Message, release, read, write, error, indicator,
  value_of, next, reply,
}
use pmem_program.LockService.Words.{indicator_of-eq_mod, blockid_of-eq_div}

-- The server goes on with a table in which block `b` has the lock `lock` and all else is as in
-- `table`, and gives the reply.
abbrev pub Serves : HashTable → ℕ → BlockLock → Reply → Option Handled → Type 0
Serves table b lock r result =
    (table' : HashTable) × (result ≡ some (record { table = some table'; reply = r }))
    × HasSlots table'
    × ((j : ℕ)
        → get_key_value (some table') (pos j)
          ≡ (if b == j then some (value_of lock) else get_key_value (some table) (pos j)))

pos-eq : (a b : ℕ) → (pos a ==ℤ pos b) ≡ (a == b)
unfolding ◌==ℤ◌
pos-eq a b = refl

-- What each branch does at a number of readers.
module _ (table : HashTable) (b k : ℕ) where
  on_write-reading :
      on_write true (some table) (pos b) (value_of (reading k))
      ≡ some (record { table = some table; reply = answer 0 })
  unfolding on_write ◌==ℤ◌
  on_write-reading = ground arith

  on_read-reading :
      on_read true (some table) (pos b) (value_of (reading k))
      ≡ store true (some table) (pos b) (value_of (reading (suc k))) (answer 1)
  unfolding on_read ◌==ℤ◌
  on_read-reading = ground arith

  on_release-reading :
      on_release true (some table) (pos b) (value_of (reading (suc k)))
      ≡ store true (some table) (pos b) (value_of (reading k)) no_answer
  unfolding on_release ◌==ℤ◌
  on_release-reading = ground arith

module _ (table : HashTable) (slots : HasSlots table) (b : ℕ) where
  kept-Serves :
      (lock : BlockLock) (r : Reply)
      → get_key_value (some table) (pos b) ≡ some (value_of lock)
      → Serves table b lock r (some (record { table = some table; reply = r }))
  kept-Serves lock r here = (table, refl, slots, same)
    where
      same :
          (j : ℕ)
          → get_key_value (some table) (pos j)
            ≡ (if b == j then some (value_of lock) else get_key_value (some table) (pos j))
      same j = elim (Bool-cases (b == j)) [
        | inl own ↦ let e : b ≡ j = (==_iff b j).0 own in rw own (rw e at here)
        | inr other ↦ rw other
      ]

  store-Serves :
      (lock : BlockLock) (r : Reply)
      → Serves table b lock r (store true (some table) (pos b) (value_of lock) r)
  unfolding store
  store-Serves lock r =
      let (table', kept, slots', found) =
        get_key_value-set_key_value table (pos b) (value_of lock) slots (pos-InRange b) in
      (table', ground arith, slots', λ j. ground (arith, pos-eq b j, found (pos j)))

  -- The three branches of handle_lock, on the value that stands for the block's lock.
  on_write-Serves :
      (lock : BlockLock)
      → get_key_value (some table) (pos b) ≡ some (value_of lock)
      → Serves table b
          (next write lock)
          (reply write lock)
          (on_write true (some table) (pos b) (value_of lock))
  unfolding on_write ◌==ℤ◌
  on_write-Serves unused here = store-Serves written (answer 1)
  on_write-Serves unlocked here = store-Serves written (answer 1)
  on_write-Serves written here = kept-Serves written (answer 0) here
  on_write-Serves (reading k) here =
      rw (on_write-reading table b k) (kept-Serves (reading k) (answer 0) here)

  on_read-Serves :
      (lock : BlockLock)
      → get_key_value (some table) (pos b) ≡ some (value_of lock)
      → Serves table b
          (next read lock)
          (reply read lock)
          (on_read true (some table) (pos b) (value_of lock))
  unfolding on_read ◌==ℤ◌
  on_read-Serves unused here = kept-Serves unused (answer 0) here
  on_read-Serves unlocked here = store-Serves (reading 0) (answer 1)
  on_read-Serves written here = kept-Serves written (answer 0) here
  on_read-Serves (reading k) here =
      rw (on_read-reading table b k) (store-Serves (reading (suc k)) (answer 1))

  on_release-Serves :
      (lock : BlockLock)
      → get_key_value (some table) (pos b) ≡ some (value_of lock)
      → Serves table b
          (next release lock)
          (reply release lock)
          (on_release true (some table) (pos b) (value_of lock))
  unfolding on_release ◌==ℤ◌
  on_release-Serves unused here = kept-Serves unused no_answer here
  on_release-Serves unlocked here = kept-Serves unlocked no_answer here
  on_release-Serves written here = store-Serves unlocked no_answer
  on_release-Serves (reading zero) here = store-Serves unlocked no_answer
  on_release-Serves (reading (suc k)) here =
      rw (on_release-reading table b k) (store-Serves (reading k) no_answer)

branch :
    (m : Message) (table : HashTable) (x b : ℕ) {value : ℤ}
    → indicator_of x ≡ indicator m
    → blockid_of x ≡ b
    → get_key_value (some table) (pos b) ≡ some value
    → handle_lock true (some table) x ≡ (elim m [
      | release ↦ on_release true (some table) (pos b) value
      | read ↦ on_read true (some table) (pos b) value
      | write ↦ on_write true (some table) (pos b) value
      | error ↦ some (record { table = some table; reply = aborted })
    ])
unfolding handle_lock
branch release table x b i e here = ground arith
branch read table x b i e here = ground arith
branch write table x b i e here = ground arith
branch error table x b i e here = ground arith

-- A 32-bit message x whose last two bits are those of `m`, handled with memory for a node on a
-- table that has its slots and whose number for block x / 4 stands for `lock`: the server replies
-- `reply m lock`, stores the number of `next m lock` for that block, and keeps the numbers of all
-- other blocks and the table's slots.
pub handle_lock_refines :
    (m : Message) (lock : BlockLock) (table : HashTable) (x : ℕ)
    → HasSlots table
    → x < 2 ^ 32
    → x % 4 ≡ indicator m
    → get_key_value (some table) (pos (x / 4)) ≡ some (value_of lock)
    → Serves table (x / 4) (next m lock) (reply m lock) (handle_lock true (some table) x)
handle_lock_refines m lock table x slots range ind here =
    rw (branch m table x (x / 4) (indicator_of-eq_mod x ∙ ind) (blockid_of-eq_div x range) here)
      (serve m)
  where
    serve :
        (m : Message)
        → Serves table (x / 4) (next m lock) (reply m lock) (elim m [
          | release ↦ on_release true (some table) (pos (x / 4)) (value_of lock)
          | read ↦ on_read true (some table) (pos (x / 4)) (value_of lock)
          | write ↦ on_write true (some table) (pos (x / 4)) (value_of lock)
          | error ↦ some (record { table = some table; reply = aborted })
        ])
    serve release = on_release-Serves table slots (x / 4) lock here
    serve read = on_read-Serves table slots (x / 4) lock here
    serve write = on_write-Serves table slots (x / 4) lock here
    serve error = kept-Serves table slots (x / 4) lock aborted here
