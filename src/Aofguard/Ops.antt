-- ===== src/Aofguard/Ops.antt =====
-- The functions of aofguard.c on an open guard. The semaphores and libpmem are not part of the
-- program: how a wait or post ends is an argument, and so is what pmem_memcpy_persist does.
use pmem_program.Base.{
  ℕ, zero, suc, ◌+◌, ◌-◌, ◌*◌, ◌/◌, ◌%◌, Bool, List, length, take, drop, leb, ltb, ◌==◌, ◌&&◌,
  if◌then◌else◌,
}
use pmem_program.Base.Words.{u64}
use pmem_program.Aofguard.{
  block_size, make_mixed_meta, Os, Nvm, Aofguard, Result, done, failed, ◌>>=◌, assert_that,
  ring_forward,
}

-- How sem_trywait on sem_done ends: taken, EAGAIN, or another error.
pub data TryWait : Type 0 where
  taken again broken : TryWait

-- How the semaphore calls of one aofguard_write end.
pub record Sems : Type 0 where
  pub try_wait : TryWait
  pub wait_ok : Bool
  pub post_ok : Bool

abbrev pub Step : Type 0 → Type 0
Step File = Aofguard File → Result (Aofguard File) (Aofguard File)

-- update_after_fsync
unfoldable pub update_after_fsync : {File : Type 0} → ℕ → Step File
update_after_fsync block_count a =
    let fsync_size = u64 (block_count * block_size) in
    let start = ring_forward a.start fsync_size a.capacity in
    let fsync_len = u64 (a.fsync_len + fsync_size) in
    if block_count == 0
    then done a
    else assert_that (ltb start a.capacity) (
        assert_that (start % block_size == 0) (
          assert_that (leb fsync_size a.len) (
            done (record a {
              start = start;
              len = a.len - fsync_size;
              fsync_len = fsync_len;
              nvm = record a.nvm { mixed_meta = make_mixed_meta fsync_len start };
            }))))

module _ {File : Type 0} (os : Os File) where
  -- One turn of afsync_thread, as a successful wait for it finds the file: the sync began after the
  -- blocks were handed over, and sem_done is posted only when it has returned 0.
  unfoldable pub afsync_turn : Aofguard File → Aofguard File
  afsync_turn a = record a {
    file = os.fdatasync_since (a.fsync_len + a.block_count * block_size) a.file;
  }

  -- What follows a successful wait for the thread: update and reset the count.
  unfoldable pub finish_afsync : Step File
  unfolding afsync_turn
  finish_afsync a = update_after_fsync a.block_count (afsync_turn a) >>= λ a'.
      done (record a' { block_count = 0 })

  -- handle_afsync_if_finish
  unfoldable pub handle_afsync_if_finish : TryWait → Step File
  handle_afsync_if_finish try_wait a =
      if a.block_count == 0
      then done a
      else elim try_wait [ taken ↦ finish_afsync a | again ↦ done a | broken ↦ failed a ]

  -- wait_afsync_done
  unfoldable pub wait_afsync_done : Bool → Step File
  wait_afsync_done wait_ok a =
      if a.block_count == 0 then done a else (if wait_ok then finish_afsync a else failed a)

-- The copy into the ring, in one piece or two.
unfoldable pub copy_to_ring : ((ℕ → ℕ) → ℕ → List ℕ → ℕ → ℕ) → (ℕ → ℕ) → ℕ → ℕ → List ℕ → ℕ → ℕ
copy_to_ring memcpy_persist bytes capacity write_pos xs =
    let front_sz = capacity - write_pos in
    if leb (u64 (write_pos + length xs)) capacity
    then memcpy_persist bytes write_pos xs
    else memcpy_persist (memcpy_persist bytes write_pos (take front_sz xs)) 0 (drop front_sz xs)

-- The memory after the first n steps of what aofguard_write stores in it behind the room that it
-- has made: nothing, some bytes of the copy (`torn` is what then stands in the place of the bytes,
-- in one piece or two), the whole copy, and the end of the ring.
unfoldable pub append_stores :
    {File : Type 0} → ((ℕ → ℕ) → ℕ → List ℕ → ℕ → ℕ) → ℕ → List ℕ → List ℕ → Aofguard File → Nvm
unfolding copy_to_ring
append_stores memcpy_persist zero torn xs a = a.nvm
append_stores memcpy_persist (suc zero) torn xs a =
    let write_pos = ring_forward a.start a.len a.capacity in
    record a.nvm { bytes = copy_to_ring memcpy_persist a.nvm.bytes a.capacity write_pos torn }
append_stores memcpy_persist (suc (suc zero)) torn xs a =
    let write_pos = ring_forward a.start a.len a.capacity in
    record a.nvm { bytes = copy_to_ring memcpy_persist a.nvm.bytes a.capacity write_pos xs }
append_stores memcpy_persist (suc (suc (suc n))) torn xs a =
    let write_pos = ring_forward a.start a.len a.capacity in
    record a.nvm {
      buf_end = ring_forward a.start (u64 (a.len + length xs)) a.capacity;
      bytes = copy_to_ring memcpy_persist a.nvm.bytes a.capacity write_pos xs;
    }

module _ {File : Type 0} (os : Os File) (memcpy_persist : (ℕ → ℕ) → ℕ → List ℕ → ℕ → ℕ) where
  -- do_fsync
  unfoldable pub do_fsync : Step File
  do_fsync a =
      let (file, ok) = os.fdatasync a.file in
      if ok
      then update_after_fsync (a.len / block_size) (record a { file = file })
      else failed (record a { file = file })

  -- The first part of aofguard_write: room for `n` more bytes.
  unfoldable pub make_room : Sems → ℕ → Step File
  make_room sems n a = handle_afsync_if_finish os sems.try_wait a >>= λ a1.
      if ltb a1.capacity (u64 (a1.len + n))
      then (if ltb a1.capacity (u64 (a1.len % block_size + n))
          then failed a1
          else (wait_afsync_done os sems.wait_ok a1 >>= λ a2.
              if ltb a2.capacity (u64 (a2.len + n)) then do_fsync a2 else done a2))
      else done a1

  -- The second part, after the write to the file: copy, lengthen, publish the end.
  unfoldable pub append_to_ring : List ℕ → Step File
  append_to_ring xs a =
      let write_pos = ring_forward a.start a.len a.capacity in
      let len = u64 (a.len + length xs) in
      let buf_end = ring_forward a.start len a.capacity in
      assert_that (ltb write_pos a.capacity) (
        assert_that (leb len a.capacity) (
          assert_that (ltb buf_end a.capacity) (
            done (record a {
              len = len;
              nvm = record a.nvm {
                buf_end = buf_end;
                bytes = copy_to_ring memcpy_persist a.nvm.bytes a.capacity write_pos xs;
              };
            }))))

  -- The last part: hand full blocks to the thread, unless it is at work.
  unfoldable pub start_afsync : Sems → Step File
  start_afsync sems a =
      if leb block_size a.len && (a.block_count == 0)
      then (let a' = record a { block_count = a.len / block_size } in
          if sems.post_ok then done a' else failed a')
      else done a

  -- aofguard_write, after its assertions on its pointers
  unfoldable pub aofguard_write : Sems → List ℕ → Step File
  aofguard_write sems xs a = make_room sems (length xs) a >>= λ a1.
      assert_that (leb (u64 (a1.len + length xs)) a1.capacity) (
        let (file, written) = os.write a1.file xs in
        let a2 = record a1 { file = file } in
        if written == length xs then (append_to_ring xs a2 >>= start_afsync sems) else failed a2)
