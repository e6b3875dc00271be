-- ===== src/LockServer.antt =====
-- cxl_memory_sharing/lock_service.c: the loop of main, from what select reports on. What select,
-- accept and recv give is an argument; sockets are numbers.
pub mod Serving
use pmem_program.Base.{
  ℕ, zero, suc, ◌+◌, Bool, true, false, Option, none, some, List, [], ◌∷◌, ◌++◌, ltb, leb, ◌==◌,
  if◌then◌else◌,
}
use pmem_program.HashKv.{HashTable}
use pmem_program.LockService.{answer, no_answer, aborted, handle_lock}

-- The table, rfds_storage and max_fd, with the answers written so far.
pub record Server : Type 0 where
  pub table : Option HashTable
  pub storage : ℕ → Bool
  pub max_fd : ℕ
  pub answers : List (ℕ × ℕ)

-- The loop goes on, the assertion in handle_lock fails, or it indexes outside the table or an
-- fd_set.
pub data Served : Type 0 where
  serving : Server → Served
  asserted : Served
  out_of_bounds : Served

-- FD_SETSIZE: the bits of an fd_set
abbrev pub fd_setsize : ℕ
fd_setsize = 1024

-- FD_SET and FD_CLR, of a descriptor below FD_SETSIZE: the loop tests that where it calls them.
unfoldable pub fd_put : (ℕ → Bool) → ℕ → Bool → ℕ → Bool
fd_put fds fd on j = if fd == j then on else fds j

-- The call of handle_lock on a message of descriptor fd.
unfoldable pub serve_message : Bool → ℕ → ℕ → Server → Served
serve_message malloc_ok fd x s = elim (handle_lock malloc_ok s.table x) [
  | none ↦ out_of_bounds
  | some handled ↦ elim handled.reply [
    | answer lock ↦
        serving (record s { table = handled.table; answers = s.answers ++ ((fd, lock) ∷ []) })
    | no_answer ↦ serving (record s { table = handled.table })
    | aborted ↦ asserted
  ]
]

-- What select reports as ready, what accept returns and what recv delivers on a descriptor (`none`
-- where the call fails or the peer has closed), and the results of malloc.
pub record Input : Type 0 where
  pub ready : ℕ → Bool
  pub accepted : Option ℕ
  pub received : ℕ → Option ℕ
  pub malloc_ok : ℕ → Bool

-- What follows accept: a new descriptor beyond the fd_set is written outside of it.
unfoldable pub serve_accept : Option ℕ → Server → Served
unfolding fd_put
serve_accept none s = serving s
serve_accept (some new_fd) s =
    if ltb new_fd fd_setsize
    then serving (record s {
      storage = fd_put s.storage new_fd true;
      max_fd = if leb new_fd s.max_fd then s.max_fd else new_fd;
    })
    else out_of_bounds

-- What follows recv.
unfoldable pub serve_received : Bool → Option ℕ → ℕ → Server → Served
unfolding serve_message fd_put
serve_received malloc_ok none fd s = serving (record s { storage = fd_put s.storage fd false })
serve_received malloc_ok (some x) fd s = serve_message malloc_ok fd x s

-- The body of the `for` loop over the descriptors; FD_ISSET reads a bit of the fd_set.
unfoldable pub serve_fd : ℕ → Input → ℕ → Server → Served
unfolding serve_accept serve_received
serve_fd sock_fd input fd s =
    if leb fd_setsize fd
    then out_of_bounds
    else (if input.ready fd
        then (if fd == sock_fd
            then serve_accept input.accepted s
            else serve_received (input.malloc_ok fd) (input.received fd) fd s)
        else serving s)

-- The `for` loop from descriptor fd on: `none` when the fuel does not suffice.
unfoldable pub serve_ready : ℕ → ℕ → Input → ℕ → Server → Option Served
unfolding serve_fd
serve_ready zero sock_fd input fd s = none
serve_ready (suc fuel) sock_fd input fd s =
    let next : Option Served = elim (serve_fd sock_fd input fd s) [
      | serving s' ↦ serve_ready fuel sock_fd input (fd + 1) s'
      | asserted ↦ some asserted
      | out_of_bounds ↦ some out_of_bounds
    ] in
    if ltb fd (s.max_fd + 1) then next else some (serving s)
