-- ===== src/Aofguard/Interrupted.antt =====
-- A crash between the stores of aofguard_write to persistent memory, and aofguard_init.
use pmem_program.Base.{
  ℕ, zero, suc, ◌+◌, ◌*◌, ◌/◌, ◌^◌, ◌≤◌, ◌<◌, ◌≡◌, refl, ap, ap₂, ◌∙◌, sym, Bool, true, false, some,
  List, [], ◌∷◌, ◌++◌, length, take, leb, ◌==◌, ◌&&◌, if◌then◌else◌, arith, inl, inr, Bool-cases,
}
use mathlib.Core.Path.{subst}
use pmem_program.Base.Words.{u64}
use pmem_program.Aofguard.{block_size, Os, Aofguard, done, failed, ring_forward}
use pmem_program.Aofguard.Ops.{
  Sems, make_room, start_afsync, append_stores, aofguard_write, copy_to_ring,
}
use pmem_program.Aofguard.Init.{Setup, map_ok, aofguard_init}
use pmem_program.Aofguard.Slices.{CopyLaws}
use pmem_program.Aofguard.Ring.{wrap, ring_old}
use pmem_program.Aofguard.Invariant.{
  OsLaws, DurableLaws, Synced, IsValid, HoldsLog, HoldsLog-length, Follows,
}
use pmem_program.Aofguard.Ensures.{Failure, Ensures}
use pmem_program.Aofguard.Room.{HasRoom, room-Ensures}
use pmem_program.Aofguard.Log.{appended, append_to_ring_lem, Appended, Appended-appended}
use pmem_program.Aofguard.Recovery.{aofguard_init-Restored}
use pmem_program.Aofguard.Durability.{shorter_take}

take_front : (n : ℕ) (xs ys : List ℕ) → n ≤ length xs → take n (xs ++ ys) ≡ take n xs
take_front zero xs ys h = refl
take_front (suc n) [] ys h = absurd (omega arith)
take_front (suc n) (x ∷ xs) ys h = ap (λ r. x ∷ r) (take_front n xs ys (omega arith))

module _ {File : Type 0} (os : Os File) (memcpy : (ℕ → ℕ) → ℕ → List ℕ → ℕ → ℕ) where
  -- Handing blocks to the thread stores nothing in the memory.
  start_afsync-nvm :
      (sems : Sems) (a : Aofguard File)
      → Ensures (λ d. d.nvm ≡ a.nvm) (Unit {0}) (start_afsync os memcpy sems a)
  unfolding start_afsync
  start_afsync-nvm sems a = elim (Bool-cases (leb block_size a.len && (a.block_count == 0))) [
    | inl full ↦ rw full (by_post sems.post_ok)
    | inr wait ↦ rw wait refl
  ]
    where
      by_post :
          (ok : Bool)
          → Ensures
              (λ d. d.nvm ≡ a.nvm)
              (Unit {0})
              (if ok
                then done (record a { block_count = a.len / block_size })
                else failed (record a { block_count = a.len / block_size }))
      by_post true = refl
      by_post false = tt

-- The ring with other bytes behind its end is the same log.
module _ {File : Type 0} (content : File → List ℕ) (memcpy : (ℕ → ℕ) → ℕ → List ℕ → ℕ → ℕ)
    (copy_laws : CopyLaws memcpy) (b : Aofguard File) (v : IsValid b) (log : HoldsLog content b)
    (ys : List ℕ) (room : b.len + length ys ≤ b.capacity) where
  pub at_end : ring_forward b.start b.len b.capacity ≡ wrap b.capacity (b.start + b.len)
  unfolding ring_forward
  at_end = ground (arith, v.start_lt, v.len_le, v.max_blocks)

  abbrev copied : Aofguard File
  copied = record b {
    nvm = record b.nvm {
      bytes = copy_to_ring memcpy b.nvm.bytes b.capacity (ring_forward b.start b.len b.capacity) ys;
    };
  }

  copied-IsValid : IsValid copied
  copied-IsValid = record {
    whole_blocks = v.whole_blocks;
    two_blocks = v.two_blocks;
    max_blocks = v.max_blocks;
    start_lt = v.start_lt;
    start_aligned = v.start_aligned;
    len_le = v.len_le;
    pending = v.pending;
    offsets = v.offsets;
    meta_word = v.meta_word;
    end_word = v.end_word;
  }

  copied-HoldsLog : HoldsLog content copied
  copied-HoldsLog =
      let (synced, whole, synced_len) = log in
      (
        synced,
        whole
            ∙ ap (λ r. synced ++ r)
                (sym (
                  ring_old memcpy copy_laws b.nvm.bytes b.capacity b.start b.len
                    (ring_forward b.start b.len b.capacity) ys v.start_lt room
                    (omega (arith, v.max_blocks)) at_end)),
        synced_len,
      )

module _ {File : Type 0} (os : Os File) (content : File → List ℕ) (durable : File → ℕ)
    (laws : OsLaws os content) (safe : DurableLaws os content durable)
    (writes : (f : File) (xs : List ℕ) → (os.write f xs).1 ≡ length xs)
    (truncates : (f : File) (n : ℕ) → (os.ftruncate f n).1 ≡ true)
    (memcpy : (ℕ → ℕ) → ℕ → List ℕ → ℕ → ℕ) (copy_laws : CopyLaws memcpy) (setup : Setup)
    (nvm_size : ℕ) (mapped : map_ok setup (nvm_size / block_size) ≡ true)
    (exists : setup.nvm_file_exist ≡ true) (sems_ok : setup.sems_ok ≡ true)
    (thread_ok : setup.thread_ok ≡ true) (a : Aofguard File) (v : IsValid a)
    (log : HoldsLog content a) (synced : Synced durable a)
    (same_size : nvm_size / block_size * block_size ≡ a.capacity) (file : File) (size : ℕ)
    (stat : os.fstat file ≡ some size) where
  module _ (sems : Sems) (xs : List ℕ) (offsets : a.fsync_len + a.len + length xs < 2 ^ 48)
      (b : Aofguard File) (f : Follows content durable a b)
      (not_full : b.len + length xs < b.capacity) (long : durable b.file ≤ size)
      (kept : take (durable b.file) (content file) ≡ take (durable b.file) (content b.file)) where
    room : b.len + length xs ≤ b.capacity
    room = omega (arith, not_full)

    abbrev whole : Aofguard File
    whole =
        appended os content durable laws safe memcpy copy_laws sems xs a v log b f room offsets
          (writes b.file xs)

    whole-Appended : Appended os content durable laws safe memcpy copy_laws sems xs a v log whole
    whole-Appended =
        Appended-appended os content durable laws safe memcpy copy_laws sems xs a v log b f room
          offsets (writes b.file xs)

    old_bytes : take b.fsync_len (content file) ≡ take b.fsync_len (content b.file)
    old_bytes =
        shorter_take b.fsync_len (durable b.file) (content file) (content b.file) (f.synced synced)
          kept

    at_least : b.fsync_len ≤ size
    at_least = omega (arith, f.synced synced, long)

    -- The stores before the end of the ring.
    recovers_old :
        (ys : List ℕ)
        → length ys ≡ length xs
        → (c : Aofguard File) × (aofguard_init os setup
              (record b.nvm {
                bytes =
                    copy_to_ring memcpy b.nvm.bytes b.capacity
                      (ring_forward b.start b.len b.capacity)
                      ys;
              })
              nvm_size
              false
              file
            ≡ done c)
          × (content c.file ≡ content a.file)
    recovers_old ys same =
        let fits : b.len + length ys ≤ b.capacity = omega (arith, same, not_full) in
        let (c, opened, r) =
          aofguard_init-Restored os content laws writes truncates
            (copied content memcpy copy_laws b f.valid f.log ys fits)
            (copied-IsValid content memcpy copy_laws b f.valid f.log ys fits)
            (copied-HoldsLog content memcpy copy_laws b f.valid f.log ys fits) file size stat
            at_least old_bytes setup nvm_size mapped exists sems_ok thread_ok
            (same_size ∙ sym f.same_capacity) (omega (arith, not_full)) in
        (c, opened, r.same_content ∙ f.same_content)

    recovers_unchanged :
        (c : Aofguard File) × (aofguard_init os setup b.nvm nvm_size false file ≡ done c)
        × (content c.file ≡ content a.file)
    recovers_unchanged =
        let (c, opened, r) =
          aofguard_init-Restored os content laws writes truncates b f.valid f.log file size stat
            at_least old_bytes setup nvm_size mapped exists sems_ok thread_ok
            (same_size ∙ sym f.same_capacity) (omega (arith, not_full)) in
        (c, opened, r.same_content ∙ f.same_content)

    -- The last store publishes the bytes.
    published :
        ring_forward b.start (u64 (b.len + length xs)) b.capacity
        ≡ wrap b.capacity (b.start + (b.len + length xs))
    unfolding ring_forward
    published =
        let new_len : u64 (b.len + length xs) ≡ b.len + length xs =
          omega (arith, room, f.valid.max_blocks) in
        let last : u64 (b.start + (b.len + length xs)) ≡ b.start + (b.len + length xs) =
          omega (arith, room, f.valid.start_lt, f.valid.max_blocks) in
        rw (new_len, last) (ground arith)

    all_stores :
        (torn : List ℕ) (n : ℕ) → append_stores memcpy (suc (suc (suc n))) torn xs b ≡ whole.nvm
    unfolding appended append_stores
    all_stores torn n =
        let start = at_end content memcpy copy_laws b f.valid f.log xs room in
        ap₂
          (λ p e. record b.nvm {
            buf_end = e;
            bytes = copy_to_ring memcpy b.nvm.bytes b.capacity p xs;
          })
          start published

    recovers_new :
        (c : Aofguard File) × (aofguard_init os setup whole.nvm nvm_size false file ≡ done c)
        × (content c.file ≡ content a.file ++ xs)
    unfolding appended
    recovers_new =
        let p = whole-Appended in
        let inside : b.fsync_len ≤ length (content b.file) =
          omega (arith, HoldsLog-length content b f.valid f.log) in
        let same : take b.fsync_len (content file) ≡ take b.fsync_len (content whole.file) =
          old_bytes
          ∙ sym (take_front b.fsync_len (content b.file) xs inside)
          ∙ ap (take b.fsync_len) (sym (laws.write_append b.file xs (writes b.file xs))) in
        let (c, opened, r) =
          aofguard_init-Restored os content laws writes truncates whole p.valid p.new_log file size
            stat at_least same setup nvm_size mapped exists sems_ok thread_ok
            (same_size ∙ sym f.same_capacity) not_full in
        (c, opened, r.same_content ∙ p.new_content)

    -- What aofguard_write leaves in the memory when it returns 1.
    stored :
        (d : Aofguard File)
        → make_room os memcpy sems (length xs) a ≡ done b
        → aofguard_write os memcpy sems xs a ≡ done d
        → d.nvm ≡ whole.nvm
    unfolding aofguard_write
    stored d made run =
        let fits : leb (u64 (b.len + length xs)) b.capacity ≡ true =
          ground (arith, room, f.valid.max_blocks) in
        let w : ((os.write b.file xs).1 == length xs) ≡ true =
          let e = writes b.file xs in ground arith in
        let ends : aofguard_write os memcpy sems xs a ≡ start_afsync os memcpy sems whole =
          rw
            (
              made,
              fits,
              w,
              append_to_ring_lem os content durable laws safe memcpy copy_laws sems xs a v log b f
                  room offsets (writes b.file xs),
            )
            refl in
        subst (Ensures (λ d. d.nvm ≡ whole.nvm) (Unit {0})) (sym ends ∙ run)
          (start_afsync-nvm os memcpy sems whole)

    -- The content that recovery gives after n stores.
    abbrev pub content_after : ℕ → List ℕ
    content_after n = if leb 3 n then content a.file ++ xs else content a.file

    recovers :
        (torn : List ℕ)
        → length torn ≡ length xs
        → (n : ℕ)
        → (c : Aofguard File) × (aofguard_init os setup
              (append_stores memcpy n torn xs b)
              nvm_size
              false
              file
            ≡ done c)
          × (content c.file ≡ content_after n)
    unfolding append_stores
    recovers torn same zero = recovers_unchanged
    recovers torn same (suc zero) = recovers_old torn same
    recovers torn same (suc (suc zero)) = recovers_old xs refl
    recovers torn same (suc (suc (suc n))) =
        let (c, opened, new) = recovers_new in
        (
          c,
          ap (λ m. aofguard_init os setup m nvm_size false file) (all_stores torn n) ∙ opened,
          new ∙ let e : leb 3 (suc (suc (suc n))) ≡ true = ground arith in rw e refl,
        )

  -- Let aofguard_write on a valid guard that holds its log and whose first fsync_len bytes are on
  -- stable storage, for fewer than 2^63 bytes and offsets below 2^48, have made room, in a ring
  -- that the bytes will not fill, and where every write to the file is whole. When it returns 1
  -- the memory is as after all the stores of append_stores. If a crash comes after some of them, a
  -- torn copy of the bytes among these, and leaves a file that has the bytes that were on stable
  -- storage and any others behind them, then aofguard_init on the memory file of that size, whose
  -- calls succeed, returns 1, and the file has its old bytes and, exactly if the end of the ring
  -- was stored, then all the written ones.
  pub aofguard_write_interrupted :
      (sems : Sems) (xs torn : List ℕ) (b : Aofguard File) (n : ℕ)
      → length xs < 2 ^ 63
      → a.fsync_len + a.len + length xs < 2 ^ 48
      → length torn ≡ length xs
      → make_room os memcpy sems (length xs) a ≡ done b
      → b.len + length xs < b.capacity
      → durable b.file ≤ size
      → take (durable b.file) (content file) ≡ take (durable b.file) (content b.file)
      → ((d : Aofguard File)
          → aofguard_write os memcpy sems xs a ≡ done d
          → d.nvm ≡ append_stores memcpy 3 torn xs b)
        × (c : Aofguard File) × (aofguard_init os setup
              (append_stores memcpy n torn xs b)
              nvm_size
              false
              file
            ≡ done c)
        × (content c.file ≡ (if leb 3 n then content a.file ++ xs else content a.file))
  aofguard_write_interrupted sems xs torn b n small offsets same made not_full long kept =
      let (f, room) =
        subst (Ensures (HasRoom content durable a (length xs)) (Failure os sems a xs)) made
          (room-Ensures os content durable laws safe memcpy sems xs a v log small) in
      let (c, opened, new) = recovers sems xs offsets b f not_full long kept torn same n in
      (
        λ d run.
            stored sems xs offsets b f not_full long kept d made run
            ∙ sym (all_stores sems xs offsets b f not_full long kept torn 0),
        c,
        opened,
        new,
      )
