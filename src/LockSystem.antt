-- ===== src/LockSystem.antt =====
-- n clients of lock.c and the server of lock_service.c, interleaved in any order: a client sends,
-- the server handles one message at a time, the client reads the answer. The server handles the
-- messages of one connection in order, so a request may wait behind the release before it.
pub mod Family
pub mod Invariant
pub mod Safety
use pmem_program.Base.{ℕ, ◌<◌, ◌^◌, ◌≡◌, ◌≢◌, true, some}
use pmem_program.HashKv.{HashTable, create_hash_table}
use pmem_program.LockService.{answer, no_answer, handle_lock}
use pmem_program.LockClient.{message, releaselock}
use pmem_program.LockSystem.Family.{update}

-- The two kinds of lock, with the type of their requests.
pub data Mode : Type 0 where
  reader writer : Mode

abbrev pub lock_of : Mode → ℕ
lock_of reader = 1
lock_of writer = 2

-- Where a client stands, with the block.
pub data Client : Type 0 where
  idle : Client
  -- in the loop of readlock or writelock, the request sent
  asking : Mode → ℕ → Client
  -- the answer written back and not yet read
  told : Mode → ℕ → ℕ → Client
  -- after the loop, before releaselock
  holding : Mode → ℕ → Client
  -- the release sent and not yet handled
  releasing : Mode → ℕ → Client
  -- the same, with the next request sent behind it
  queued : Mode → ℕ → Mode → ℕ → Client

pub record System : Type 0 where
  pub table : HashTable
  pub clients : ℕ → Client

pub data Step (n : ℕ) (s : System) : System → Type 0 where
  send_request :
      (i b : ℕ) (m : Mode)
      → i < n
      → b < 2 ^ 30
      → s.clients i ≡ idle
      → Step n s (record { table = s.table; clients = update s.clients i (asking m b) })
  handle_request :
      (i b r : ℕ) (m : Mode) (t : HashTable)
      → i < n
      → b < 2 ^ 30
      → s.clients i ≡ asking m b
      → handle_lock true (some s.table) (message b (lock_of m))
        ≡ some (record { table = some t; reply = answer r })
      → Step n s (record { table = t; clients = update s.clients i (told m b r) })
  hear_yes :
      (i b r : ℕ) (m : Mode)
      → i < n
      → s.clients i ≡ told m b r
      → r ≡ 1
      → Step n s (record { table = s.table; clients = update s.clients i (holding m b) })
  hear_no :
      (i b r : ℕ) (m : Mode)
      → i < n
      → s.clients i ≡ told m b r
      → r ≢ 1
      → Step n s (record { table = s.table; clients = update s.clients i (asking m b) })
  send_release :
      (i b : ℕ) (m : Mode)
      → i < n
      → s.clients i ≡ holding m b
      → Step n s (record { table = s.table; clients = update s.clients i (releasing m b) })
  send_behind :
      (i b b' : ℕ) (m m' : Mode)
      → i < n
      → b' < 2 ^ 30
      → s.clients i ≡ releasing m b
      → Step n s (record { table = s.table; clients = update s.clients i (queued m b m' b') })
  handle_release :
      (i b : ℕ) (m : Mode) (t : HashTable)
      → i < n
      → b < 2 ^ 30
      → s.clients i ≡ releasing m b
      → handle_lock true (some s.table) (releaselock b)
        ≡ some (record { table = some t; reply = no_answer })
      → Step n s (record { table = t; clients = update s.clients i idle })
  handle_release_behind :
      (i b b' : ℕ) (m m' : Mode) (t : HashTable)
      → i < n
      → b < 2 ^ 30
      → s.clients i ≡ queued m b m' b'
      → handle_lock true (some s.table) (releaselock b)
        ≡ some (record { table = some t; reply = no_answer })
      → Step n s (record { table = t; clients = update s.clients i (asking m' b') })

-- The states that n clients reach from a fresh table.
pub data Reach (n : ℕ) : System → Type 0 where
  start :
      {t : HashTable}
      → create_hash_table true ≡ some t
      → Reach n (record { table = t; clients = λ i. idle })
  later : {s u : System} → Reach n s → Step n s u → Reach n u
