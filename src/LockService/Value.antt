-- ===== src/LockService/Value.antt =====
-- The lock of one block as the service means it, and how the table's number stands for it.
use pmem_program.Base.{ℕ, zero, suc, ◌+◌, ◌*◌}
use pmem_program.Base.Int.{ℤ, pos, negsuc}
use pmem_program.LockService.{Reply, answer, no_answer, aborted}

-- `reading k` has k + 1 readers.
pub data BlockLock : Type 0 where
  unused unlocked written : BlockLock
  reading : ℕ → BlockLock

-- The four messages.
pub data Message : Type 0 where
  release read write error : Message

abbrev pub indicator : Message → ℕ
indicator release = 0
indicator read = 1
indicator write = 2
indicator error = 3

abbrev pub value_of : BlockLock → ℤ
value_of unused = negsuc 0
value_of unlocked = pos 0
value_of written = pos 1
value_of (reading k) = pos (2 * (k + 1))

-- What a message does to its block's lock.
abbrev pub next : Message → BlockLock → BlockLock
next write unused = written
next write unlocked = written
next write written = written
next write (reading k) = reading k
next read unused = unused
next read unlocked = reading 0
next read written = written
next read (reading k) = reading (suc k)
next release unused = unused
next release unlocked = unlocked
next release written = unlocked
next release (reading zero) = unlocked
next release (reading (suc k)) = reading k
next error lock = lock

abbrev pub reply : Message → BlockLock → Reply
reply write unused = answer 1
reply write unlocked = answer 1
reply write written = answer 0
reply write (reading k) = answer 0
reply read unused = answer 0
reply read unlocked = answer 1
reply read written = answer 0
reply read (reading k) = answer 1
reply release lock = no_answer
reply error lock = aborted
