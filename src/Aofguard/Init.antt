-- ===== src/Aofguard/Init.antt =====
-- aofguard_init: open the memory file, and recover the guarded file or start afresh.
use pmem_program.Base.{
  ℕ, zero, suc, ◌+◌, ◌-◌, ◌*◌, ◌/◌, Bool, true, false, Option, none, some, List, [], ◌∷◌, length,
  leb, ltb, ◌==◌, not, ◌&&◌, ◌||◌, if◌then◌else◌,
}
use pmem_program.Aofguard.{
  block_size, get_fsync_len, get_buf_start, Os, Nvm, Aofguard, Result, done, failed, ◌>>=◌,
}

-- The n bytes from an offset of the memory on: what `write(fd, data + pos, n)` passes.
unfoldable pub slice : (ℕ → ℕ) → ℕ → ℕ → List ℕ
slice bytes pos zero = []
slice bytes pos (suc n) = bytes pos ∷ slice bytes (pos + 1) n

-- How the calls on the memory file end: whether it exists, opens, has the size given by fstat,
-- can be extended and mapped; and what sem_init and pthread_create return.
pub record Setup : Type 0 where
  pub nvm_file_exist : Bool
  pub open_ok : Bool
  pub nvm_stat : Option ℕ
  pub nvm_truncate_ok : Bool
  pub mmap_ok : Bool
  pub sems_ok : Bool
  pub thread_ok : Bool

-- The length that recovery reads off the ring's two ends.
unfoldable pub recovered_len : ℕ → ℕ → ℕ → ℕ
recovered_len buf_end start capacity =
    if leb start buf_end then buf_end - start else capacity + buf_end - start

-- The memory file is there or can be made, has its size and is mapped.
unfoldable pub map_ok : Setup → ℕ → Bool
map_ok setup block_count =
    setup.open_ok
    && (if setup.nvm_file_exist
        then elim setup.nvm_stat [
          | none ↦ false
          | some size ↦ size == 2 * 64 + block_count * block_size
        ]
        else setup.nvm_truncate_ok)
    && setup.mmap_ok

module _ {File : Type 0} (os : Os File) where
  -- A write that must take all of its bytes, or the function returns 0.
  unfoldable pub write_all : File → List ℕ → Result File File
  write_all file xs =
      let (file', written) = os.write file xs in
      if written == length xs then done file' else failed file'

  -- The bytes of the ring go to the file, in one piece or two.
  unfoldable pub replay : (ℕ → ℕ) → ℕ → ℕ → ℕ → File → Result File File
  unfolding slice write_all
  replay bytes capacity start len file =
      let front_sz = capacity - start in
      if leb (start + len) capacity
      then write_all file (slice bytes start len)
      else (write_all file (slice bytes start front_sz) >>= λ file'.
          write_all file' (slice bytes 0 (len - front_sz)))

  -- The branch on an existing memory file: check its meta words, cut the file to the synced length
  -- and append the ring.
  unfoldable pub recover : Nvm → ℕ → ℕ → File → Result File (Aofguard File)
  unfolding replay recovered_len get_fsync_len get_buf_start
  recover nvm capacity size file =
      let fsync_len = get_fsync_len nvm.mixed_meta in
      let start = get_buf_start nvm.mixed_meta in
      let len = recovered_len nvm.buf_end start capacity in
      let (cut, cut_ok) =
        (if ltb fsync_len size then os.ftruncate file fsync_len else (file, true)) in
      if leb capacity start || leb capacity nvm.buf_end || ltb size fsync_len
      then failed file
      else (if cut_ok
          then (replay nvm.bytes capacity start len cut >>= λ file'. done (record {
            file = file';
            fsync_len = fsync_len;
            capacity = capacity;
            start = start;
            len = len;
            nvm = nvm;
            block_count = 0;
          }))
          else failed cut)

  -- The branch on a new memory file, or on a reset one.
  unfoldable pub start_fresh : Nvm → ℕ → ℕ → File → Aofguard File
  start_fresh nvm capacity size file = record {
    file = file;
    fsync_len = size;
    capacity = capacity;
    start = 0;
    len = 0;
    nvm = record nvm { mixed_meta = size; buf_end = 0 };
    block_count = 0;
  }

  -- aofguard_init, on a valid descriptor and after its assertions on its pointers
  unfoldable pub aofguard_init : Setup → Nvm → ℕ → Bool → File → Result File (Aofguard File)
  unfolding map_ok recover start_fresh
  aofguard_init setup nvm nvm_size reset file =
      let block_count = nvm_size / block_size in
      let capacity = block_count * block_size in
      if ltb block_count 2 || ltb 65536 block_count || not (map_ok setup block_count)
      then failed file
      else elim (os.fstat file) [
        | none ↦ failed file
        | some size ↦
            (if setup.nvm_file_exist && not reset
              then recover nvm capacity size file
              else done (start_fresh nvm capacity size file))
            >>= λ a. if setup.sems_ok && setup.thread_ok then done a else failed a.file
      ]
