-- ===== src/Aofguard/Recovery.antt =====
-- aofguard_init on an existing memory file: it restores what the guard held before a crash, when
-- the ring was not quite full.
use pmem_program.Base.{
  ℕ, zero, suc, ◌+◌, ◌-◌, ◌*◌, ◌/◌, ◌≤◌, ◌<◌, ◌≡◌, refl, ap, ◌∙◌, sym, Bool, true, false, some,
  List, [], ◌∷◌, ◌++◌, append-nil, append_assoc, length, take, leb, ltb, ◌==◌, if◌then◌else◌, ◌||◌,
  not, arith, inl, inr, Bool-cases, dec_lt,
}
use pmem_program.Aofguard.{block_size, get_fsync_len, get_buf_start, Os, Aofguard, done}
use pmem_program.Aofguard.Init.{
  slice, Setup, recovered_len, map_ok, write_all, replay, recover, aofguard_init,
}
use pmem_program.Aofguard.Meta.{mixed_meta_roundtrip}
use pmem_program.Aofguard.Slices.{slice_at}
use pmem_program.Aofguard.Ring.{wrap, ring, ring-straight, ring-round}
use pmem_program.Aofguard.Invariant.{OsLaws, IsValid, held, HoldsLog}

take_prefix : (xs ys : List ℕ) (n : ℕ) → length xs ≡ n → take n (xs ++ ys) ≡ xs
take_prefix [] ys zero h = refl
take_prefix [] ys (suc n) h = absurd (omega arith)
take_prefix (x ∷ xs) ys zero h = absurd (omega arith)
take_prefix (x ∷ xs) ys (suc n) h = ap (λ r. x ∷ r) (take_prefix xs ys n (omega arith))

take_all : (xs : List ℕ) (n : ℕ) → length xs ≡ n → take n xs ≡ xs
take_all [] zero h = refl
take_all [] (suc n) h = refl
take_all (x ∷ xs) zero h = absurd (omega arith)
take_all (x ∷ xs) (suc n) h = ap (λ r. x ∷ r) (take_all xs n (omega arith))

-- The two meta words give back the length of a ring that is not full.
recovered_len_lem :
    (start len capacity : ℕ)
    → start < capacity
    → len < capacity
    → recovered_len (wrap capacity (start + len)) start capacity ≡ len
unfolding recovered_len
recovered_len_lem start len capacity hs hl = ground arith

-- They give back 0 for a full ring.
pub recovered_len_full :
    (start capacity : ℕ)
    → start < capacity
    → recovered_len (wrap capacity (start + capacity)) start capacity ≡ 0
unfolding recovered_len
recovered_len_full start capacity hs = ground arith

module _ {File : Type 0} (os : Os File) (content : File → List ℕ) (laws : OsLaws os content)
    (writes : (f : File) (xs : List ℕ) → (os.write f xs).1 ≡ length xs) where
  write_all_lem :
      (f : File) (xs : List ℕ)
      → (f' : File) × (write_all os f xs ≡ done f') × (content f' ≡ content f ++ xs)
  unfolding write_all
  write_all_lem f xs =
      let whole = writes f xs in
      let e : ((os.write f xs).1 == length xs) ≡ true = ground arith in
      ((os.write f xs).0, rw e, laws.write_append f xs whole)

  -- The replay appends what the ring holds.
  replay_lem :
      (bytes : ℕ → ℕ) (capacity start len : ℕ) (f : File)
      → start < capacity
      → (f' : File) × (replay os bytes capacity start len f ≡ done f')
        × (content f' ≡ content f ++ ring bytes capacity start len)
  unfolding replay
  replay_lem bytes capacity start len f hs = elim (dec_lt capacity (start + len)) [
    | no inside ↦
        let e : leb (start + len) capacity ≡ true = ground arith in
        let (f', wrote, new) = write_all_lem f (slice bytes start len) in
        (
          f',
          rw (e, wrote),
          new
              ∙ ap (λ r. content f ++ r)
                  (sym (ring-straight bytes capacity start len (omega arith))),
        )
    | yes over ↦
        let e : leb (start + len) capacity ≡ false = ground arith in
        let (f1, wrote1, new1) = write_all_lem f (slice bytes start (capacity - start)) in
        let (f2, wrote2, new2) = write_all_lem f1 (slice bytes 0 (len - (capacity - start))) in
        (
          f2,
          rw (e, wrote1, wrote2),
          new2
              ∙ ap (λ r. r ++ slice bytes 0 (len - (capacity - start))) new1
              ∙ append_assoc (content f) (slice bytes start (capacity - start))
                  (slice bytes 0 (len - (capacity - start)))
              ∙ ap (λ r. content f ++ r)
                  (ap (λ r. slice bytes start (capacity - start) ++ r)
                      (slice_at bytes refl (omega arith))
                    ∙ sym (ring-round bytes capacity start len (omega arith) (omega arith))),
        )
  ]

  module _ (truncates : (f : File) (n : ℕ) → (os.ftruncate f n).1 ≡ true) (a : Aofguard File)
      (v : IsValid a) (log : HoldsLog content a) (file : File) (size : ℕ)
      (stat : os.fstat file ≡ some size) (long : a.fsync_len ≤ size)
      (kept : take a.fsync_len (content file) ≡ take a.fsync_len (content a.file)) where
    -- The file cut to its synced bytes.
    cut : File × Bool
    cut = if ltb a.fsync_len size then os.ftruncate file a.fsync_len else (file, true)

    kept_synced : take a.fsync_len (content file) ≡ log.0
    kept_synced =
        let (synced, whole, synced_len) = log in
        kept ∙ ap (take a.fsync_len) whole ∙ take_prefix synced (held a) a.fsync_len synced_len

    cut_lem : (cut.1 ≡ true) × (content cut.0 ≡ log.0)
    unfolding cut
    cut_lem = elim (Bool-cases (ltb a.fsync_len size)) [
      | inl longer ↦ rw longer (
        truncates file a.fsync_len,
        laws.truncate_content file a.fsync_len (truncates file a.fsync_len) ∙ kept_synced,
      )
      | inr exact ↦
          let same : length (content file) ≡ a.fsync_len =
            ground (arith, laws.stat_size file size stat) in
          rw exact (refl, sym (take_all (content file) a.fsync_len same) ∙ kept_synced)
    ]

    words :
        (get_fsync_len a.nvm.mixed_meta ≡ a.fsync_len) × (get_buf_start a.nvm.mixed_meta ≡ a.start)
    words =
        let (len_back, start_back) =
          mixed_meta_roundtrip a.fsync_len a.start (omega (arith, v.offsets)) v.start_aligned
            (omega (arith, v.start_lt, v.max_blocks)) in
        (ap get_fsync_len v.meta_word ∙ len_back, ap get_buf_start v.meta_word ∙ start_back)

    checks : leb a.capacity a.start || leb a.capacity a.nvm.buf_end || ltb size a.fsync_len ≡ false
    checks = ground (arith, v.start_lt, v.end_word, v.len_le)

    reopened : ℕ → File → Aofguard File
    reopened n f = record a { file = f; len = n; block_count = 0 }

    -- Recovery with n bytes read off the meta words leaves the synced bytes and n bytes of the ring.
    recover_as :
        (n : ℕ)
        → recovered_len a.nvm.buf_end a.start a.capacity ≡ n
        → (f : File) × (recover os a.nvm a.capacity size file ≡ done (reopened n f))
          × (content f ≡ log.0 ++ ring a.nvm.bytes a.capacity a.start n)
    unfolding recover cut reopened
    recover_as n n_eq =
        let (len_word, start_word) = words in
        let (cut_ok, cut_content) = cut_lem in
        let (f, replayed, new) = replay_lem a.nvm.bytes a.capacity a.start n cut.0 v.start_lt in
        (
          f,
          rw (len_word, start_word, n_eq, checks, cut_ok, replayed),
          new ∙ ap (λ r. r ++ ring a.nvm.bytes a.capacity a.start n) cut_content,
        )

    -- The opened guard has the bytes of the file as they were, and is valid with the same log.
    pub record Restored (b : Aofguard File) : Type 0 where
      pub valid : IsValid b
      pub restored_log : HoldsLog content b
      pub same_content : content b.file ≡ content a.file
      pub same_capacity : b.capacity ≡ a.capacity
      pub same_len : b.len ≡ a.len

    reopened-Restored : (f : File) → content f ≡ log.0 ++ held a → Restored (reopened a.len f)
    unfolding reopened
    reopened-Restored f whole = record {
      valid = record {
        whole_blocks = v.whole_blocks;
        two_blocks = v.two_blocks;
        max_blocks = v.max_blocks;
        start_lt = v.start_lt;
        start_aligned = v.start_aligned;
        len_le = v.len_le;
        pending = omega arith;
        offsets = v.offsets;
        meta_word = v.meta_word;
        end_word = v.end_word;
      };
      restored_log = (log.0, whole, log.2);
      same_content = whole ∙ sym log.1;
      same_capacity = refl;
      same_len = refl;
    }

    -- What is left of aofguard_init beside the recovery.
    module _ (setup : Setup) (nvm_size : ℕ) (mapped : map_ok setup (nvm_size / block_size) ≡ true)
        (exists : setup.nvm_file_exist ≡ true) (sems_ok : setup.sems_ok ≡ true)
        (thread_ok : setup.thread_ok ≡ true)
        (same_size : nvm_size / block_size * block_size ≡ a.capacity) where
      init_as :
          (n : ℕ)
          → recovered_len a.nvm.buf_end a.start a.capacity ≡ n
          → (f : File) × (aofguard_init os setup a.nvm nvm_size false file ≡ done (reopened n f))
            × (content f ≡ log.0 ++ ring a.nvm.bytes a.capacity a.start n)
      unfolding aofguard_init
      init_as n n_eq =
          let (f, recovered, new) = recover_as n n_eq in
          let fine : ltb (nvm_size / block_size) 2
                || ltb 65536 (nvm_size / block_size)
                || not (map_ok setup (nvm_size / block_size))
              ≡ false =
            rw mapped (ground (arith, v.two_blocks, v.max_blocks)) in
          (f, rw (fine, stat, exists, same_size, recovered, sems_ok, thread_ok), new)

      -- aofguard_init after a crash restores a valid guard that holds its log and whose ring is
      -- not full: on the existing memory file of that size, if the crash left a file of at least
      -- the synced length that starts with the synced bytes, and all calls succeed, it returns 1,
      -- and the new guard is valid and has the file's bytes, its log, the ring's size and length
      -- as they were.
      pub aofguard_init-Restored :
          a.len < a.capacity
          → (b : Aofguard File) × (aofguard_init os setup a.nvm nvm_size false file ≡ done b)
            × Restored b
      aofguard_init-Restored not_full =
          let end_word =
            ap (λ w. recovered_len w a.start a.capacity) v.end_word
            ∙ recovered_len_lem a.start a.len a.capacity v.start_lt not_full in
          let (f, opened, new) = init_as a.len end_word in
          (reopened a.len f, opened, reopened-Restored f new)

      -- After a crash of a valid guard that holds its log and whose ring is exactly full,
      -- aofguard_init under the same conditions returns 1 but reads the ring as empty: the file
      -- has only its synced bytes, and all of the ring is lost.
      pub aofguard_init_full_ring_lost :
          a.len ≡ a.capacity
          → (b : Aofguard File) × (aofguard_init os setup a.nvm nvm_size false file ≡ done b)
            × (b.len ≡ 0)
            × (content b.file ≡ take a.fsync_len (content a.file))
      unfolding reopened slice
      aofguard_init_full_ring_lost full =
          let end_word =
            ap (λ w. recovered_len w a.start a.capacity)
              (v.end_word ∙ ap (λ n. wrap a.capacity (a.start + n)) full)
            ∙ recovered_len_full a.start a.capacity v.start_lt in
          let (f, opened, new) = init_as 0 end_word in
          (
            reopened 0 f,
            opened,
            refl,
            new
                ∙ ap (λ r. log.0 ++ r)
                    (ring-straight a.nvm.bytes a.capacity a.start 0 (omega (arith, v.start_lt)))
                ∙ append-nil log.0
                ∙ sym kept_synced
                ∙ kept,
          )
