-- ===== src/Aofguard/Log.antt =====
-- aofguard_write: it keeps the invariant, fails no assertion, and appends to the log.
use pmem_program.Base.{
  ℕ, ◌+◌, ◌/◌, ◌%◌, ◌^◌, ◌≤◌, ◌<◌, ◌≡◌, ◌≢◌, refl, ap, ◌∙◌, sym, Bool, true, false, List, ◌++◌,
  append_assoc, length, leb, ◌==◌, if◌then◌else◌, ◌&&◌, arith, Bool-cases, inl, inr, ℕ_discrete,
}
use mathlib.Core.Bool.{true≢false}
use pmem_program.Base.Words.{u64}
use pmem_program.Aofguard.{block_size, Os, Aofguard, done, failed, ◌>>=◌, assert_that, ring_forward}
use pmem_program.Aofguard.Ops.{
  broken, Sems, make_room, append_to_ring, start_afsync, aofguard_write, copy_to_ring,
}
use pmem_program.Aofguard.Slices.{CopyLaws}
use pmem_program.Aofguard.Ring.{wrap, ring_append}
use pmem_program.Aofguard.Invariant.{OsLaws, DurableLaws, Synced, IsValid, held, HoldsLog, Follows}
use pmem_program.Aofguard.Ensures.{
  Failure, try_wait_broken, wait_failed, post_failed, too_big, sync_failed, short_write, Ensures,
  bind-Ensures, succeeds,
}
use pmem_program.Aofguard.Room.{HasRoom, room-Ensures}

module _ {File : Type 0} (os : Os File) (content : File → List ℕ) (durable : File → ℕ)
    (laws : OsLaws os content) (safe : DurableLaws os content durable)
    (memcpy : (ℕ → ℕ) → ℕ → List ℕ → ℕ → ℕ) (copy_laws : CopyLaws memcpy) (sems : Sems)
    (xs : List ℕ) (a : Aofguard File) (v : IsValid a) (log : HoldsLog content a) where
  -- The guard after a call that returns 1: the file has the bytes at its end, and the ring too; and
  -- what it takes for synced is on stable storage if it was so before.
  pub record Appended (b : Aofguard File) : Type 0 where
    pub valid : IsValid b
    pub new_log : HoldsLog content b
    pub new_synced : Synced durable a → Synced durable b
    pub new_content : content b.file ≡ content a.file ++ xs
    pub same_capacity : b.capacity ≡ a.capacity
    pub new_total : b.fsync_len + b.len ≡ a.fsync_len + a.len + length xs

  module _ (b : Aofguard File) (f : Follows content durable a b)
      (room : b.len + length xs ≤ b.capacity) (offsets : a.fsync_len + a.len + length xs < 2 ^ 48)
      (wrote : (os.write b.file xs).1 ≡ length xs) where
    abbrev pub pos : ℕ
    pos = wrap b.capacity (b.start + b.len)

    unfoldable pub appended : Aofguard File
    appended = record b {
      file = (os.write b.file xs).0;
      len = b.len + length xs;
      nvm = record b.nvm {
        buf_end = wrap b.capacity (b.start + (b.len + length xs));
        bytes = copy_to_ring memcpy b.nvm.bytes b.capacity pos xs;
      };
    }

    pub append_to_ring_lem :
        append_to_ring os memcpy xs (record b { file = (os.write b.file xs).0 }) ≡ done appended
    unfolding append_to_ring ring_forward appended
    append_to_ring_lem =
        let at_pos : u64 (b.start + b.len) ≡ b.start + b.len =
          omega (arith, f.valid.len_le, f.valid.start_lt, f.valid.max_blocks) in
        let new_len : u64 (b.len + length xs) ≡ b.len + length xs =
          omega (arith, room, f.valid.max_blocks) in
        let at_end : u64 (b.start + (b.len + length xs)) ≡ b.start + (b.len + length xs) =
          omega (arith, room, f.valid.start_lt, f.valid.max_blocks) in
        ground (arith, f.valid.start_lt, f.valid.len_le, room)

    pub Appended-appended : Appended appended
    unfolding appended
    Appended-appended = record {
      valid = record {
        whole_blocks = f.valid.whole_blocks;
        two_blocks = f.valid.two_blocks;
        max_blocks = f.valid.max_blocks;
        start_lt = f.valid.start_lt;
        start_aligned = f.valid.start_aligned;
        len_le = room;
        pending = omega (arith, f.valid.pending);
        offsets = omega (arith, f.same_total);
        meta_word = f.valid.meta_word;
        end_word = refl;
      };
      new_log =
          let (synced, whole, synced_len) = f.log in
          (
            synced,
            laws.write_append b.file xs wrote
                ∙ ap (λ r. r ++ xs) whole
                ∙ append_assoc synced (held b) xs
                ∙ ap (λ r. synced ++ r)
                    (sym (
                      ring_append memcpy copy_laws b.nvm.bytes b.capacity b.start b.len
                        (wrap b.capacity (b.start + b.len)) xs f.valid.start_lt room
                        (omega (arith, f.valid.max_blocks)) refl)),
            synced_len,
          );
      new_synced = λ s. omega (arith, f.synced s, safe.write_durable b.file xs wrote);
      new_content = laws.write_append b.file xs wrote ∙ ap (λ r. r ++ xs) f.same_content;
      same_capacity = f.same_capacity;
      new_total = omega (arith, f.same_total);
    }

  start_afsync-Ensures :
      (b : Aofguard File)
      → Appended b
      → Ensures Appended (Failure os sems a xs) (start_afsync os memcpy sems b)
  unfolding start_afsync
  start_afsync-Ensures b p = elim (Bool-cases (leb block_size b.len && (b.block_count == 0))) [
    | inl full ↦ rw full (by_post full sems.post_ok refl)
    | inr wait ↦ rw wait p
  ]
    where
      handed : Aofguard File
      handed = record b { block_count = b.len / block_size }

      handed-Appended : Appended handed
      handed-Appended = record {
        valid = record {
          whole_blocks = p.valid.whole_blocks;
          two_blocks = p.valid.two_blocks;
          max_blocks = p.valid.max_blocks;
          start_lt = p.valid.start_lt;
          start_aligned = p.valid.start_aligned;
          len_le = p.valid.len_le;
          pending = omega arith;
          offsets = p.valid.offsets;
          meta_word = p.valid.meta_word;
          end_word = p.valid.end_word;
        };
        new_log = p.new_log;
        new_synced = p.new_synced;
        new_content = p.new_content;
        same_capacity = p.same_capacity;
        new_total = p.new_total;
      }

      by_post :
          leb block_size b.len && (b.block_count == 0) ≡ true
          → (ok : Bool) → sems.post_ok ≡ ok
          → Ensures Appended (Failure os sems a xs) (if ok then done handed else failed handed)
      by_post full true e = handed-Appended
      by_post full false e = post_failed e

  written :
      (b : Aofguard File)
      → HasRoom content durable a (length xs) b
      → a.fsync_len + a.len + length xs < 2 ^ 48
      → Ensures Appended (Failure os sems a xs) (
          assert_that (leb (u64 (b.len + length xs)) b.capacity) (
            let (file, written) = os.write b.file xs in
            let a2 = record b { file = file } in
            if written == length xs
            then (append_to_ring os memcpy xs a2 >>= start_afsync os memcpy sems)
            else failed a2))
  written b (f, room) offsets =
      let fits : leb (u64 (b.len + length xs)) b.capacity ≡ true =
        ground (arith, f.valid.max_blocks) in
      rw fits (elim (ℕ_discrete (os.write b.file xs).1 (length xs)) [
        | yes whole ↦
            let e : ((os.write b.file xs).1 == length xs) ≡ true = ground arith in
            rw (e, append_to_ring_lem b f room offsets whole)
              (start_afsync-Ensures (appended b f room offsets whole)
                (Appended-appended b f room offsets whole))
        | no short ↦
            let e : ((os.write b.file xs).1 == length xs) ≡ false = ground arith in
            rw e (short_write b.file short)
      ])

  -- aofguard_write on a valid guard that holds its log, for fewer than 2^63 bytes and offsets
  -- below 2^48, fails no assertion; when it returns 1 the guard is valid, the file has the bytes
  -- appended and is again fsync_len bytes and then the bytes of the ring, and the first fsync_len
  -- bytes of the file are on stable storage if they were before; and it returns 0 only for one of
  -- the reasons of `Failure`.
  pub aofguard_write-Ensures :
      length xs < 2 ^ 63
      → a.fsync_len + a.len + length xs < 2 ^ 48
      → Ensures Appended (Failure os sems a xs) (aofguard_write os memcpy sems xs a)
  unfolding aofguard_write
  aofguard_write-Ensures small offsets =
      bind-Ensures (HasRoom content durable a (length xs)) Appended (Failure os sems a xs)
        (make_room os memcpy sems (length xs) a) _
        (room-Ensures os content durable laws safe memcpy sems xs a v log small)
        (λ b p. written b p offsets)

  -- aofguard_write on a valid guard that holds its log returns 1, with the guard as
  -- aofguard_write-Ensures says, for fewer than 2^63 bytes and offsets below 2^48, when no
  -- semaphore call fails, every sync succeeds, every write of the bytes is whole, and the bytes
  -- fit the ring beside those that do not fill a block.
  pub aofguard_write_succeeds :
      length xs < 2 ^ 63
      → a.fsync_len + a.len + length xs < 2 ^ 48
      → sems.try_wait ≢ broken
      → sems.wait_ok ≡ true
      → sems.post_ok ≡ true
      → a.len % block_size + length xs ≤ a.capacity
      → ((f : File) → (os.fdatasync f).1 ≡ true)
      → ((f : File) → (os.write f xs).1 ≡ length xs)
      → (b : Aofguard File) × (aofguard_write os memcpy sems xs a ≡ done b) × Appended b
  aofguard_write_succeeds small offsets try_ok wait_ok post_ok fits syncs writes =
      succeeds Appended (Failure os sems a xs) (aofguard_write os memcpy sems xs a)
        (aofguard_write-Ensures small offsets) no_failure
    where
      no_failure : Failure os sems a xs → ⊥
      no_failure (try_wait_broken e) = try_ok e
      no_failure (wait_failed e) = true≢false (sym wait_ok ∙ e)
      no_failure (post_failed e) = true≢false (sym post_ok ∙ e)
      no_failure (too_big h) = omega arith
      no_failure (sync_failed f e) = true≢false (sym (syncs f) ∙ e)
      no_failure (short_write f e) = e (writes f)
