-- ===== src/LockClient.antt =====
-- cxl_memory_sharing/lock.c: the messages of a client and its loops that ask for a lock.
-- The kernel's socket calls are not part of the program. What each `read` leaves in `lock` is an
-- argument: `some v` when it delivers the int v, `none` when it fails and leaves `lock` as it was.
-- The result has the messages sent, so a loop stands for what it does on the responses so far.
pub mod Messages
pub mod Grants
use pmem_program.Base.{
  ℕ, bit_or, Bool, true, false, Option, none, some, List, [], ◌∷◌, ◌==◌, if◌then◌else◌,
}
use pmem_program.Base.Words.{u32, ◌<<<◌}
use pmem_program.LockService.{release_lock, read_lock, write_lock, error_lock}

-- `uuid << 2 | type`
unfoldable pub message : ℕ → ℕ → ℕ
message uuid type = bit_or (u32 (uuid <<< 2)) type

-- How a loop has ended: with the lock, or still asking when the responses given are used up.
pub record Asked : Type 0 where
  pub sent : List ℕ
  pub granted : Bool

-- The `while (1)` of writelock and readlock: each round sets `lock` to the request, sends it,
-- reads into `lock` and leaves if it is 1.
unfoldable pub ask : ℕ → List (Option ℕ) → Asked
ask request [] = record { sent = []; granted = false }
ask request (response ∷ rest) =
    let lock : ℕ = elim response [ none ↦ request | some v ↦ v ] in
    let again = ask request rest in
    if lock == 1
    then record { sent = request ∷ []; granted = true }
    else record { sent = request ∷ again.sent; granted = again.granted }

-- writelock
unfoldable pub writelock : ℕ → List (Option ℕ) → Asked
unfolding ask message
writelock uuid responses = ask (message uuid write_lock) responses

-- readlock
unfoldable pub readlock : ℕ → List (Option ℕ) → Asked
unfolding ask message
readlock uuid responses = ask (message uuid read_lock) responses

-- releaselock and senderror: the message sent.
unfoldable pub releaselock : ℕ → ℕ
unfolding message
releaselock uuid = message uuid release_lock

unfoldable pub senderror : ℕ → ℕ
unfolding message
senderror uuid = message uuid error_lock
