-- ===== src/Tests/Files.antt =====
-- The guard over a file that is the list of its bytes, and a memory that copies as documented.
use pmem_program.Base.{
  ℕ, ◌+◌, ◌-◌, ◌*◌, ◌/◌, ◌≡◌, refl, ap, sym, true, false, none, some, List, [], ◌∷◌, ◌++◌, length,
  take, get_elem?, get_elem?-is_some, get_elem?-eq_none, leb, if◌then◌else◌, arith, inl, inr,
}
use mathlib.Core.Option.{some-injective}
use pmem_program.Aofguard.{
  block_size, make_mixed_meta, get_fsync_len, get_buf_start, Os, Aofguard, done, ring_forward,
}
use pmem_program.Aofguard.Ops.{
  again, Sems, copy_to_ring, aofguard_write, make_room, handle_afsync_if_finish, append_to_ring,
  start_afsync, append_stores,
}
use pmem_program.Aofguard.Init.{Setup, map_ok, aofguard_init, slice}
use pmem_program.Aofguard.Meta.{mixed_meta_roundtrip}
use pmem_program.Aofguard.Slices.{CopyLaws}
use pmem_program.Aofguard.Ring.{ring, ring-straight, ring_append}
use pmem_program.Aofguard.Invariant.{OsLaws, DurableLaws, IsValid, HoldsLog}
use pmem_program.Aofguard.Ensures.{Failure, Ensures}
use pmem_program.Aofguard.Log.{Appended, aofguard_write-Ensures, aofguard_write_succeeds}
use pmem_program.Aofguard.Recovery.{Restored, aofguard_init-Restored, aofguard_init_full_ring_lost}
use pmem_program.Aofguard.Durability.{acknowledged_write_survives}
use pmem_program.Aofguard.Interrupted.{aofguard_write_interrupted}

-- A file on a disk: its bytes, and how many of the first ones are on stable storage.
record Disk : Type 0 where
  bytes : List ℕ
  durable : ℕ

abbrev list_os : Os Disk
list_os = record {
  write = λ f xs. (record f { bytes = f.bytes ++ xs }, length xs);
  fdatasync = λ f. (record f { durable = length f.bytes }, true);
  fdatasync_since = λ n f. record f { durable = n };
  ftruncate = λ f n. (record { bytes = take n f.bytes; durable = 0 }, true);
  fstat = λ f. some (length f.bytes);
}

list_os-OsLaws : OsLaws list_os (λ f. f.bytes)
list_os-OsLaws = record {
  write_append = λ f xs whole. refl;
  sync_content = λ f. refl;
  truncate_content = λ f n ok. refl;
  stat_size = λ f n e. some-injective _ _ e;
}

list_os-DurableLaws : DurableLaws list_os (λ f. f.bytes) (λ f. f.durable)
list_os-DurableLaws = record {
  write_durable = λ f xs whole. omega arith;
  sync_durable = λ f ok. omega arith;
  since_content = λ f n. refl;
  since_durable = λ f n h. omega arith;
}

abbrev byte_at : List ℕ → ℕ → ℕ → ℕ
byte_at xs i old = elim (get_elem? xs i) [ none ↦ old | some x ↦ x ]

abbrev list_memcpy : (ℕ → ℕ) → ℕ → List ℕ → ℕ → ℕ
list_memcpy bytes pos xs j = if leb pos j then byte_at xs (j - pos) (bytes j) else bytes j

list_memcpy-CopyLaws : CopyLaws list_memcpy
list_memcpy-CopyLaws = record {
  copied = λ bytes pos xs i h.
      let (x, e) = get_elem?-is_some xs i h in
      let at : pos + i - pos ≡ i = omega arith in
      let inside : leb pos (pos + i) ≡ true = ground arith in rw (inside, at, byte_at, e);
  others = λ bytes pos xs j away. elim away [
    | inl below ↦ let outside : leb pos j ≡ false = ground arith in rw outside
    | inr above ↦
        let inside : leb pos j ≡ true = ground arith in
        let past : get_elem? xs (j - pos) ≡ none = get_elem?-eq_none xs (j - pos) (omega arith) in
        rw (inside, byte_at, past)
  ];
}

-- A ring of two blocks with two bytes behind a file's three synced bytes.
abbrev memory : ℕ → ℕ
memory j = j + 10

abbrev guard : Aofguard Disk
guard = record {
  file = record { bytes = 1 ∷ 2 ∷ 3 ∷ 10 ∷ 11 ∷ []; durable = 3 };
  fsync_len = 3;
  capacity = 2 * block_size;
  start = 0;
  len = 2;
  nvm = record { mixed_meta = 3; buf_end = 2; bytes = memory };
  block_count = 0;
}

guard-IsValid : IsValid guard
unfolding make_mixed_meta
guard-IsValid = record {
  whole_blocks = refl;
  two_blocks = omega arith;
  max_blocks = omega arith;
  start_lt = omega arith;
  start_aligned = refl;
  len_le = omega arith;
  pending = omega arith;
  offsets = omega arith;
  meta_word = refl;
  end_word = refl;
}

guard-HoldsLog : HoldsLog (λ f. f.bytes) guard
unfolding slice
guard-HoldsLog = (
  1 ∷ 2 ∷ 3 ∷ [],
  ap (λ r. (1 ∷ 2 ∷ 3 ∷ []) ++ r) (sym (ring-straight memory (2 * block_size) 0 2 (omega arith))),
  refl,
)

abbrev sems : Sems
sems = record { try_wait = again; wait_ok = true; post_ok = true }

abbrev fresh_bytes : List ℕ
fresh_bytes = 7 ∷ 8 ∷ []

aofguard_write-Ensures_example :
    Ensures
      (Appended list_os
        (λ f. f.bytes)
        (λ f. f.durable)
        list_os-OsLaws
        list_os-DurableLaws
        list_memcpy
        list_memcpy-CopyLaws
        sems
        fresh_bytes
        guard
        guard-IsValid
        guard-HoldsLog)
      (Failure list_os sems guard fresh_bytes)
      (aofguard_write list_os list_memcpy sems fresh_bytes guard)
aofguard_write-Ensures_example =
    aofguard_write-Ensures list_os (λ f. f.bytes) (λ f. f.durable) list_os-OsLaws
      list_os-DurableLaws list_memcpy list_memcpy-CopyLaws sems fresh_bytes guard guard-IsValid
      guard-HoldsLog (omega arith) (omega arith)

aofguard_write_succeeds_example :
    (b : Aofguard Disk) × (aofguard_write list_os list_memcpy sems fresh_bytes guard ≡ done b)
    × Appended list_os
        (λ f. f.bytes)
        (λ f. f.durable)
        list_os-OsLaws
        list_os-DurableLaws
        list_memcpy
        list_memcpy-CopyLaws
        sems
        fresh_bytes
        guard
        guard-IsValid
        guard-HoldsLog
        b
aofguard_write_succeeds_example =
    aofguard_write_succeeds list_os (λ f. f.bytes) (λ f. f.durable) list_os-OsLaws
      list_os-DurableLaws list_memcpy list_memcpy-CopyLaws sems fresh_bytes guard guard-IsValid
      guard-HoldsLog (omega arith) (omega arith) (λ e. absurd (cc e)) refl refl (omega arith)
      (λ f. refl) (λ f. refl)

-- A crash that leaves one byte more than the synced ones.
abbrev crashed : Disk
crashed = record { bytes = 1 ∷ 2 ∷ 3 ∷ 99 ∷ []; durable = 4 }

abbrev setup : Setup
setup = record {
  nvm_file_exist = true;
  open_ok = true;
  nvm_stat = some (128 + 2 * block_size);
  nvm_truncate_ok = true;
  mmap_ok = true;
  sems_ok = true;
  thread_ok = true;
}

setup_mapped : map_ok setup (2 * block_size / block_size) ≡ true
unfolding map_ok
setup_mapped = refl

aofguard_init-Restored_example :
    (b : Aofguard Disk) × (aofguard_init list_os setup guard.nvm (2 * block_size) false crashed
      ≡ done b)
    × Restored list_os
        (λ f. f.bytes)
        list_os-OsLaws
        (λ f xs. refl)
        (λ f n. refl)
        guard
        guard-IsValid
        guard-HoldsLog
        crashed
        4
        refl
        (omega arith)
        refl
        b
aofguard_init-Restored_example =
    aofguard_init-Restored list_os (λ f. f.bytes) list_os-OsLaws (λ f xs. refl) (λ f n. refl) guard
      guard-IsValid guard-HoldsLog crashed 4 refl (omega arith) refl setup (2 * block_size)
      setup_mapped refl refl refl refl (omega arith)

-- The guard with a full ring.
abbrev full_guard : Aofguard Disk
full_guard = record {
  file = record {
    bytes = (1 ∷ 2 ∷ 3 ∷ []) ++ ring memory (2 * block_size) 0 (2 * block_size);
    durable = 3;
  };
  fsync_len = 3;
  capacity = 2 * block_size;
  start = 0;
  len = 2 * block_size;
  nvm = record { mixed_meta = 3; buf_end = 0; bytes = memory };
  block_count = 0;
}

full_guard-IsValid : IsValid full_guard
unfolding make_mixed_meta
full_guard-IsValid = record {
  whole_blocks = refl;
  two_blocks = omega arith;
  max_blocks = omega arith;
  start_lt = omega arith;
  start_aligned = refl;
  len_le = omega arith;
  pending = omega arith;
  offsets = omega arith;
  meta_word = refl;
  end_word = refl;
}

full_guard-HoldsLog : HoldsLog (λ f. f.bytes) full_guard
full_guard-HoldsLog = (1 ∷ 2 ∷ 3 ∷ [], refl, refl)

aofguard_init_full_ring_lost_example :
    (b : Aofguard Disk) × (aofguard_init list_os setup full_guard.nvm (2 * block_size) false crashed
      ≡ done b)
    × (b.len ≡ 0)
    × (b.file.bytes ≡ take 3 full_guard.file.bytes)
aofguard_init_full_ring_lost_example =
    aofguard_init_full_ring_lost list_os (λ f. f.bytes) list_os-OsLaws (λ f xs. refl) (λ f n. refl)
      full_guard full_guard-IsValid full_guard-HoldsLog crashed 4 refl (omega arith) refl setup
      (2 * block_size) setup_mapped refl refl refl refl refl

-- The guard after the write of fresh_bytes.
abbrev longer_guard : Aofguard Disk
longer_guard = record guard {
  file = record guard.file { bytes = guard.file.bytes ++ fresh_bytes };
  len = 4;
  nvm = record { mixed_meta = 3; buf_end = 4; bytes = list_memcpy memory 2 fresh_bytes };
}

write_done : aofguard_write list_os list_memcpy sems fresh_bytes guard ≡ done longer_guard
unfolding aofguard_write make_room handle_afsync_if_finish append_to_ring ring_forward copy_to_ring
    start_afsync
write_done = refl

acknowledged_write_survives_example :
    (c : Aofguard Disk) × (aofguard_init list_os setup longer_guard.nvm
        (2 * block_size)
        false
        crashed
      ≡ done c)
    × (c.file.bytes ≡ guard.file.bytes ++ fresh_bytes)
acknowledged_write_survives_example =
    acknowledged_write_survives list_os (λ f. f.bytes) (λ f. f.durable) list_os-OsLaws
      list_os-DurableLaws (λ f xs. refl) (λ f n. refl) list_memcpy list_memcpy-CopyLaws setup
      (2 * block_size) setup_mapped refl refl refl guard guard-IsValid guard-HoldsLog (omega arith)
      refl crashed 4 refl sems fresh_bytes longer_guard (omega arith) (omega arith) write_done
      (omega arith) (omega arith) refl

room_made : make_room list_os list_memcpy sems 2 guard ≡ done guard
unfolding make_room handle_afsync_if_finish
room_made = refl

-- A crash when one of the two bytes has reached the memory.
aofguard_write_interrupted_example :
    ((d : Aofguard Disk)
      → aofguard_write list_os list_memcpy sems fresh_bytes guard ≡ done d
      → d.nvm ≡ append_stores list_memcpy 3 (7 ∷ 12 ∷ []) fresh_bytes guard)
    × (c : Aofguard Disk) × (aofguard_init list_os setup
          (append_stores list_memcpy 1 (7 ∷ 12 ∷ []) fresh_bytes guard)
          (2 * block_size)
          false
          crashed
        ≡ done c)
    × (c.file.bytes ≡ guard.file.bytes)
aofguard_write_interrupted_example =
    aofguard_write_interrupted list_os (λ f. f.bytes) (λ f. f.durable) list_os-OsLaws
      list_os-DurableLaws (λ f xs. refl) (λ f n. refl) list_memcpy list_memcpy-CopyLaws setup
      (2 * block_size) setup_mapped refl refl refl guard guard-IsValid guard-HoldsLog (omega arith)
      refl crashed 4 refl sems fresh_bytes (7 ∷ 12 ∷ []) guard 1 (omega arith) (omega arith) refl
      room_made (omega arith) (omega arith) refl

mixed_meta_roundtrip_example :
    (get_fsync_len (make_mixed_meta 12345 (3 * block_size)) ≡ 12345)
    × (get_buf_start (make_mixed_meta 12345 (3 * block_size)) ≡ 3 * block_size)
mixed_meta_roundtrip_example =
    mixed_meta_roundtrip 12345 (3 * block_size) (omega arith) refl (omega arith)

-- Two bytes round the end of a ring of eight.
ring_append_example :
    ring (copy_to_ring list_memcpy memory 8 7 fresh_bytes) 8 5 (2 + 2)
    ≡ ring memory 8 5 2 ++ fresh_bytes
ring_append_example =
    ring_append list_memcpy list_memcpy-CopyLaws memory 8 5 2 7 fresh_bytes (omega arith)
      (omega arith) (omega arith) refl
