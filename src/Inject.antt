-- ===== src/Inject.antt =====
-- wal_accel/src/inject.c: the interposed system calls, which keep a table of the open files and
-- send the writes to a guarded file to its guard. A C string is the list of its bytes, an int a ℤ,
-- and NULL is `none`. What the calls of the kernel, of the C library and of aofguard.c do is the
-- record `Calls` over a state W of theirs. The table is a function up to its capacity,
-- `present` is false when fd_table is NULL, and an access to it then is `crashes`, as is an
-- assertion that fails.
pub mod Table
pub mod Files
pub mod Paths
pub mod Loops
pub mod Moves
pub mod Rename
use pmem_program.Base.{
  ℕ, zero, suc, ◌+◌, ◌*◌, Bool, true, false, Option, none, some, List, ltb, leb, ◌==◌, not, ◌&&◌,
  if◌then◌else◌, length,
}
use pmem_program.Base.Int.{ℤ, pos, negsuc, ◌==ℤ◌}

-- FD_TABLE_INIT_CAPACITY
abbrev pub fd_table_init_capacity : ℕ
fd_table_init_capacity = 16

-- fd >= 0
abbrev pub is_fd : ℤ → Bool
is_fd (pos n) = true
is_fd (negsuc n) = false

abbrev pub is_none {ℓ} : {A : Type ℓ} → Option A → Bool
is_none none = true
is_none (some a) = false

-- struct filedes
pub record Filedes (Guard : Type 0) : Type 0 where
  pub name : Option (List ℕ)
  pub aofguard : Option Guard

-- The calls: a Bool says whether a call succeeds, `matches` whether regexec finds the pattern, and
-- `nvm_file` is get_nvm_file_name. fstat gives none when it
-- fails, and whether the file is a regular one. The flags of an open and its mode are one number.
pub record Calls (Guard W : Type 0) : Type 0 where
  pub matches : List ℕ → Bool
  pub nvm_file : List ℕ → List ℕ
  pub fstat : ℕ → W → Option Bool
  pub malloc : W → Bool × W
  pub realloc : ℕ → W → Bool × W
  pub strdup : List ℕ → W → Bool × W
  pub aofguard_init : ℕ → List ℕ → Bool → W → Bool × Guard × W
  pub aofguard_write : Guard → List ℕ → W → Bool × Guard × W
  pub aofguard_deinit : Guard → W → Bool × W
  pub open_path : List ℕ → ℕ → W → ℤ × W
  pub open_at : ℤ → List ℕ → ℕ → W → ℤ × W
  pub write : ℤ → List ℕ → W → ℤ × W
  pub read : ℤ → ℕ → W → ℤ × W
  pub fsync : ℤ → W → ℤ × W
  pub fdatasync : ℤ → W → ℤ × W
  pub close : ℤ → W → ℤ × W
  pub unlink : List ℕ → W → Bool × W
  pub rename : List ℕ → List ℕ → W → Bool × W
  pub accessible : List ℕ → W → Bool
  pub unlinkat : List ℕ → W → Bool × W
  pub renameat : List ℕ → List ℕ → W → Bool × W

-- The globals, and the state of the world.
pub record Process (Guard W : Type 0) : Type 0 where
  pub init_done : Bool
  pub disable_sync : Bool
  pub present : Bool
  pub entries : ℕ → Filedes Guard
  pub capacity : ℕ
  pub world : W

-- How a piece of code ends: on its last line, at a return, or not at all.
pub data Outcome (P : Type 0) : Type 0 where
  goes_on : P → Outcome P
  returns : ℤ → P → Outcome P
  crashes : Outcome P

infixl 5 ◌>>=◌
abbrev pub ◌>>=◌ : {P : Type 0} → Outcome P → (P → Outcome P) → Outcome P
goes_on p >>= f = f p
returns r p >>= f = returns r p
crashes >>= f = crashes

-- `while(new_capacity <= fd) new_capacity *= 2`, for at most fuel turns
unfoldable pub grown : ℕ → ℕ → ℕ → ℕ
grown zero capacity fd = capacity
grown (suc fuel) capacity fd =
    let rest = grown fuel (capacity * 2) fd in if leb capacity fd then rest else capacity

abbrev pub empty_entry : {Guard : Type 0} → Filedes Guard
empty_entry = record { name = none; aofguard = none }

module _ {Guard W : Type 0} where
  abbrev pub set_entry : ℕ → Filedes Guard → Process Guard W → Process Guard W
  set_entry fd entry p = record p { entries = λ i. if fd == i then entry else p.entries i }

  abbrev pub put_guard : Option Guard → ℕ → Process Guard W → Process Guard W
  put_guard guard fd p = set_entry fd (record (p.entries fd) { aofguard = guard }) p

  abbrev pub in_world : W → Process Guard W → Process Guard W
  in_world w p = record p { world = w }

  -- `if(0 <= fd && fd < fd_table_capacity)` with the entry of fd, and the code without it
  unfoldable pub with_entry :
      ℤ
      → Process Guard W
      → Outcome (Process Guard W)
      → (ℕ → Filedes Guard → Outcome (Process Guard W))
      → Outcome (Process Guard W)
  with_entry (negsuc n) p outside inside = outside
  with_entry (pos fd) p outside inside =
      if ltb fd p.capacity
      then (if p.present then inside fd (p.entries fd) else crashes)
      else outside

  -- A system call as the last line of a function: its result is the function's.
  abbrev pub ends_with : ℤ × W → Process Guard W → Outcome (Process Guard W)
  ends_with (r, w) p = returns r (in_world w p)

  -- The constructor's table.
  unfoldable pub started : Bool → W → Process Guard W
  started disable_sync w = record {
    init_done = true;
    disable_sync = disable_sync;
    present = true;
    entries = λ i. empty_entry;
    capacity = fd_table_init_capacity;
    world = w;
  }

  module _ (calls : Calls Guard W) where
    -- handle_open: the table has room for fd.
    unfoldable pub grow_table : ℕ → Process Guard W → Outcome (Process Guard W)
    unfolding grown
    grow_table fd p =
        let new_capacity = grown (fd + 1) p.capacity fd in
        let (ok, w) = calls.realloc new_capacity p.world in
        if ltb fd p.capacity
        then goes_on p
        else (if ok
            then goes_on (record p {
              present = true;
              entries = λ i. if ltb i p.capacity then p.entries i else empty_entry;
              capacity = new_capacity;
              world = w;
            })
            else returns (pos 0) (record p { present = false; world = w }))

    -- handle_open: the assertion on the table's room, and the entry gets its name.
    unfoldable pub enter_name : List ℕ → ℕ → Process Guard W → Outcome (Process Guard W)
    enter_name file fd p =
        let (ok, w) = calls.strdup file p.world in
        let entry = p.entries fd in
        if not (ltb fd p.capacity && p.present)
        then crashes
        else (if ok
            then goes_on (in_world w (set_entry fd (record entry { name = some file }) p))
            else returns (pos 0) (in_world w (set_entry fd (record entry { name = none }) p)))

    unfoldable pub drop_this : ℤ → ℕ → Option Guard → Process Guard W → Outcome (Process Guard W)
    drop_this failure fd none p = goes_on p
    drop_this failure fd (some guard) p =
        let (ok, w) = calls.aofguard_deinit guard p.world in
        if ok
        then goes_on (in_world w (set_entry fd (record (p.entries fd) { aofguard = none }) p))
        else returns failure (in_world w p)

    unfoldable pub drop_guard : ℤ → ℕ → Process Guard W → Outcome (Process Guard W)
    unfolding drop_this
    drop_guard failure fd p = drop_this failure fd (p.entries fd).aofguard p

    -- handle_open of a regular file, with the guard that it has got
    unfoldable pub enter_file :
        List ℕ → ℕ → Option Guard → Process Guard W → Outcome (Process Guard W)
    unfolding grow_table enter_name drop_guard
    enter_file file fd guard p =
        grow_table fd p >>= enter_name file fd >>= drop_guard (pos 0) fd >>= λ p'.
        returns (pos 1) (put_guard guard fd p')

    -- handle_open of a regular file
    unfoldable pub open_file : List ℕ → ℕ → Process Guard W → Outcome (Process Guard W)
    unfolding enter_file
    open_file file fd p =
        let (malloc_ok, w1) = calls.malloc p.world in
        let (init_ok, guard, w2) = calls.aofguard_init fd (calls.nvm_file file) false w1 in
        if calls.matches file
        then (if malloc_ok
            then (if init_ok
                then enter_file file fd (some guard) (in_world w2 p)
                else returns (pos 0) (in_world w2 p))
            else returns (pos 0) (in_world w1 p))
        else enter_file file fd none p

    -- handle_open, after the call of fstat
    unfoldable pub handle_stat :
        Option Bool → List ℕ → ℕ → Process Guard W → Outcome (Process Guard W)
    unfolding open_file
    handle_stat none file fd p = returns (pos 0) p
    handle_stat (some true) file fd p = open_file file fd p
    handle_stat (some false) file fd p = returns (pos 1) p

    -- handle_open
    unfoldable pub handle_open : List ℕ → ℤ → Process Guard W → Outcome (Process Guard W)
    unfolding handle_stat
    handle_open file (negsuc n) p = returns (pos 1) p
    handle_open file (pos fd) p =
        if not p.init_done
        then returns (pos 1) p
        else handle_stat (calls.fstat fd p.world) file fd p

    -- open, open64, openat and openat64: after their system call; the 64 variants are the same code.
    unfoldable pub after_open : List ℕ → ℤ × W → Process Guard W → Outcome (Process Guard W)
    unfolding handle_open
    after_open file (fd, w) p = elim (handle_open file fd (in_world w p)) [
      | returns r p' ↦
          if r ==ℤ pos 0
          then returns (negsuc 0) (if is_fd fd then in_world (calls.close fd p'.world).1 p' else p')
          else returns fd p'
      | goes_on p' ↦ crashes
      | crashes ↦ crashes
    ]

    unfoldable pub open_path : List ℕ → ℕ → Process Guard W → Outcome (Process Guard W)
    unfolding after_open
    open_path file flags p = after_open file (calls.open_path file flags p.world) p

    unfoldable pub open_at : ℤ → List ℕ → ℕ → Process Guard W → Outcome (Process Guard W)
    unfolding after_open
    open_at dirfd file flags p = after_open file (calls.open_at dirfd file flags p.world) p

    -- write: `none` is the pointer NULL.
    unfoldable pub write_to :
        Option Guard → ℕ → ℤ → List ℕ → Process Guard W → Outcome (Process Guard W)
    write_to none n fd bytes p = ends_with (calls.write fd bytes p.world) p
    write_to (some guard) n fd bytes p =
        let (ok, guard', w) = calls.aofguard_write guard bytes p.world in
        returns (if ok then pos (length bytes) else negsuc 0)
          (in_world w (put_guard (some guard') n p))

    unfoldable pub write : ℤ → Option (List ℕ) → Process Guard W → Outcome (Process Guard W)
    unfolding with_entry write_to
    write fd none p = returns (pos 0) p
    write fd (some bytes) p =
        if length bytes == 0
        then returns (pos 0) p
        else with_entry fd p (ends_with (calls.write fd bytes p.world) p)
            (λ n entry. write_to entry.aofguard n fd bytes p)

    -- read: a failed call gives 0.
    unfoldable pub read : ℤ → ℕ → Process Guard W → Outcome (Process Guard W)
    read fd len p =
        let (x, w) = calls.read fd len p.world in
        returns (if x ==ℤ negsuc 0 then pos 0 else x) (in_world w p)

    -- fsync and fdatasync, with the system call's end
    unfoldable pub sync : (ℤ → W → ℤ × W) → ℤ → Process Guard W → Outcome (Process Guard W)
    unfolding with_entry
    sync call fd p =
        let plain = ends_with (call fd p.world) p in
        if p.disable_sync
        then with_entry fd p plain
            (λ n entry. if is_none entry.aofguard then plain else returns (pos 0) p)
        else plain

    unfoldable pub fsync : ℤ → Process Guard W → Outcome (Process Guard W)
    unfolding sync
    fsync fd p = sync calls.fsync fd p

    unfoldable pub fdatasync : ℤ → Process Guard W → Outcome (Process Guard W)
    unfolding sync
    fdatasync fd p = sync calls.fdatasync fd p

    -- close
    unfoldable pub close : ℤ → Process Guard W → Outcome (Process Guard W)
    unfolding with_entry drop_guard
    close fd p =
        with_entry fd p (goes_on p)
          (λ n entry. drop_guard (negsuc 0) n (set_entry n (record entry { name = none }) p))
        >>= λ p'. ends_with (calls.close fd p'.world) p'
