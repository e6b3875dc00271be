-- ===== src/Aofguard/Invariant.antt =====
-- What holds of an open guard between calls: its numbers, and the log that its ring completes.
use pmem_program.Base.{
  ℕ, ◌+◌, ◌-◌, ◌*◌, ◌/◌, ◌%◌, ◌^◌, ◌≤◌, ◌<◌, ◌≡◌, ◌≢◌, refl, ap, ◌∙◌, sym, true, List, ◌++◌,
  append_assoc, length, take, arith, length-append, some, ℕ_discrete,
}
use mathlib.Core.Path.{subst}
use pmem_program.Base.Words.{u64}
use pmem_program.Aofguard.{block_size, make_mixed_meta, Os, Aofguard, done, ring_forward}
use pmem_program.Aofguard.Ops.{update_after_fsync, afsync_turn, finish_afsync}
use pmem_program.Aofguard.Ring.{wrap, ring, ring_split, length-ring}

-- What the kernel documents of a file that is open for appending: a full write appends, a sync
-- changes no byte, a successful ftruncate cuts, and fstat gives the size.
pub record OsLaws {File : Type 0} (os : Os File) (content : File → List ℕ) : Type 0 where
  pub write_append :
      (f : File) (xs : List ℕ)
      → (os.write f xs).1 ≡ length xs
      → content (os.write f xs).0 ≡ content f ++ xs
  pub sync_content : (f : File) → content (os.fdatasync f).0 ≡ content f
  pub truncate_content :
      (f : File) (n : ℕ)
      → (os.ftruncate f n).1 ≡ true
      → content (os.ftruncate f n).0 ≡ take n (content f)
  pub stat_size : (f : File) (n : ℕ) → os.fstat f ≡ some n → length (content f) ≡ n

-- What is known of the file's bytes on stable storage, `durable` of the first ones: a sync that
-- returns 0 puts all bytes there that the file had when it began, and a full write takes none away.
pub record DurableLaws {File : Type 0} (os : Os File) (content : File → List ℕ) (durable : File → ℕ)
    : Type 0 where
  pub write_durable :
      (f : File) (xs : List ℕ)
      → (os.write f xs).1 ≡ length xs
      → durable f ≤ durable (os.write f xs).0
  pub sync_durable :
      (f : File) → (os.fdatasync f).1 ≡ true → length (content f) ≤ durable (os.fdatasync f).0
  pub since_content : (f : File) (n : ℕ) → content (os.fdatasync_since n f) ≡ content f
  pub since_durable :
      (f : File) (n : ℕ) → n ≤ length (content f) → n ≤ durable (os.fdatasync_since n f)

-- The numbers of the guard and its two meta words.
pub record IsValid {File : Type 0} (a : Aofguard File) : Type 0 where
  pub whole_blocks : a.capacity % block_size ≡ 0
  pub two_blocks : 2 * block_size ≤ a.capacity
  pub max_blocks : a.capacity ≤ 65536 * block_size
  pub start_lt : a.start < a.capacity
  pub start_aligned : a.start % block_size ≡ 0
  pub len_le : a.len ≤ a.capacity
  pub pending : a.block_count * block_size ≤ a.len
  pub offsets : a.fsync_len + a.len < 2 ^ 48
  pub meta_word : a.nvm.mixed_meta ≡ make_mixed_meta a.fsync_len a.start
  pub end_word : a.nvm.buf_end ≡ wrap a.capacity (a.start + a.len)

-- The bytes of the ring.
abbrev pub held : {File : Type 0} → Aofguard File → List ℕ
held a = ring a.nvm.bytes a.capacity a.start a.len

-- The file is `fsync_len` bytes and then the bytes of the ring.
abbrev pub HoldsLog : {File : Type 0} → (File → List ℕ) → Aofguard File → Type 0
HoldsLog content a =
    (synced : List ℕ) × (content a.file ≡ synced ++ held a) × (length synced ≡ a.fsync_len)

-- The bytes that the guard takes for synced are on stable storage.
abbrev pub Synced : {File : Type 0} → (File → ℕ) → Aofguard File → Type 0
Synced durable a = a.fsync_len ≤ durable a.file

pub HoldsLog-length :
    {File : Type 0} (content : File → List ℕ) (a : Aofguard File)
    → IsValid a
    → HoldsLog content a
    → length (content a.file) ≡ a.fsync_len + a.len
HoldsLog-length content a v (synced, whole, synced_len) =
    ap length whole
    ∙ omega (
      arith,
      length-append synced (held a),
      length-ring a.nvm.bytes a.capacity a.start a.len (omega (arith, v.start_lt)),
      synced_len,
    )

-- The guard after k bytes at its start are known to be synced.
abbrev pub advanced : {File : Type 0} → ℕ → Aofguard File → Aofguard File
advanced k a = record a {
  start = wrap a.capacity (a.start + k);
  len = a.len - k;
  fsync_len = a.fsync_len + k;
  nvm = record a.nvm {
    mixed_meta = make_mixed_meta (a.fsync_len + k) (wrap a.capacity (a.start + k));
  };
  block_count = 0;
}

module _ {File : Type 0} (a : Aofguard File) (v : IsValid a) (blocks : ℕ)
    (fits : blocks * block_size ≤ a.len) where
  k : ℕ
  k = blocks * block_size

  advanced-IsValid : IsValid (advanced k a)
  unfolding k
  advanced-IsValid = record {
    whole_blocks = v.whole_blocks;
    two_blocks = v.two_blocks;
    max_blocks = v.max_blocks;
    start_lt = ground arith;
    start_aligned = ground arith;
    len_le = ground arith;
    pending = omega arith;
    offsets = omega arith;
    meta_word = refl;
    end_word = v.end_word ∙ ground arith;
  }

  advanced-HoldsLog :
      (content : File → List ℕ) → HoldsLog content a → HoldsLog content (advanced k a)
  unfolding k
  advanced-HoldsLog content (synced, whole, synced_len) = (
    synced ++ ring a.nvm.bytes a.capacity a.start k,
    whole
        ∙ ap (λ r. synced ++ r)
            (ring_split a.nvm.bytes a.capacity a.start k a.len v.start_lt fits v.len_le)
        ∙ sym (append_assoc synced (ring a.nvm.bytes a.capacity a.start k) (held (advanced k a))),
    omega (
      arith,
      length-append synced (ring a.nvm.bytes a.capacity a.start k),
      length-ring a.nvm.bytes a.capacity a.start k (omega (arith, v.start_lt)),
      synced_len,
    ),
  )

  -- update_after_fsync advances the guard, and its assertions hold.
  update_after_fsync_lem :
      blocks ≢ 0
      → update_after_fsync blocks a ≡ done (record (advanced k a) { block_count = a.block_count })
  unfolding update_after_fsync ring_forward k
  update_after_fsync_lem ne =
      let wide : u64 (blocks * block_size) ≡ blocks * block_size =
        omega (arith, v.max_blocks, v.len_le) in
      let later : u64 (a.fsync_len + blocks * block_size) ≡ a.fsync_len + blocks * block_size =
        omega (arith, v.offsets) in
      let sum : u64 (a.start + blocks * block_size) ≡ a.start + blocks * block_size =
        omega (arith, v.max_blocks, v.len_le, v.start_lt) in
      ground arith

-- How a guard stands after room was made: valid, with the same file bytes and ring size, and a
-- shorter ring of the same length beyond its full blocks; and what it takes for synced is on stable
-- storage if it was so before.
pub record Follows {File : Type 0} (content : File → List ℕ) (durable : File → ℕ)
    (a a' : Aofguard File) : Type 0 where
  pub valid : IsValid a'
  pub log : HoldsLog content a'
  pub synced : Synced durable a → Synced durable a'
  pub same_content : content a'.file ≡ content a.file
  pub same_capacity : a'.capacity ≡ a.capacity
  pub shorter : a'.len ≤ a.len
  pub same_rest : a'.len % block_size ≡ a.len % block_size
  pub same_total : a'.fsync_len + a'.len ≡ a.fsync_len + a.len

module _ {File : Type 0} (content : File → List ℕ) (durable : File → ℕ) where
  pub Follows-refl :
      (a : Aofguard File) → IsValid a → HoldsLog content a → Follows content durable a a
  Follows-refl a v log = record {
    valid = v;
    log = log;
    synced = λ s. s;
    same_content = refl;
    same_capacity = refl;
    shorter = omega arith;
    same_rest = refl;
    same_total = refl;
  }

  pub Follows-trans :
      {a b c : Aofguard File}
      → Follows content durable a b
      → Follows content durable b c
      → Follows content durable a c
  Follows-trans f g = record {
    valid = g.valid;
    log = g.log;
    synced = λ s. g.synced (f.synced s);
    same_content = g.same_content ∙ f.same_content;
    same_capacity = g.same_capacity ∙ f.same_capacity;
    shorter = omega (arith, f.shorter, g.shorter);
    same_rest = g.same_rest ∙ f.same_rest;
    same_total = g.same_total ∙ f.same_total;
  }

  -- A sync changes the file only.
  pub Follows-file :
      (a : Aofguard File) (f : File)
      → IsValid a
      → HoldsLog content a
      → content f ≡ content a.file
      → a.fsync_len ≤ durable f
      → Follows content durable a (record a { file = f })
  Follows-file a f v log same safe = record {
    valid = record {
      whole_blocks = v.whole_blocks;
      two_blocks = v.two_blocks;
      max_blocks = v.max_blocks;
      start_lt = v.start_lt;
      start_aligned = v.start_aligned;
      len_le = v.len_le;
      pending = v.pending;
      offsets = v.offsets;
      meta_word = v.meta_word;
      end_word = v.end_word;
    };
    log = let (s, whole, len) = log in (s, same ∙ whole, len);
    synced = λ s. safe;
    same_content = same;
    same_capacity = refl;
    shorter = omega arith;
    same_rest = refl;
    same_total = refl;
  }

  -- The guard moves over bytes that are on stable storage.
  advanced-Follows :
      (a : Aofguard File) (v : IsValid a) (log : HoldsLog content a) (blocks : ℕ)
      → blocks * block_size ≤ a.len
      → a.fsync_len + blocks * block_size ≤ durable a.file
      → Follows content durable a (advanced (blocks * block_size) a)
  unfolding k
  advanced-Follows a v log blocks fits safe = record {
    valid = advanced-IsValid a v blocks fits;
    log = advanced-HoldsLog a v blocks fits content log;
    synced = λ s. safe;
    same_content = refl;
    same_capacity = refl;
    shorter = omega arith;
    same_rest = omega arith;
    same_total = omega arith;
  }

  -- A wait that succeeds makes the thread's blocks part of the synced bytes.
  pub finish_afsync_lem :
      (os : Os File)
      → DurableLaws os content durable
      → (a : Aofguard File) → IsValid a
      → HoldsLog content a
      → a.block_count ≢ 0
      → (a' : Aofguard File) × (finish_afsync os a ≡ done a')
        × Follows content durable a a'
        × (a'.block_count ≡ 0)
  unfolding finish_afsync afsync_turn k
  finish_afsync_lem os laws a v log ne =
      let n = a.fsync_len + a.block_count * block_size in
      let whole : n ≤ length (content a.file) =
        omega (arith, HoldsLog-length content a v log, v.pending) in
      let safe : n ≤ durable (os.fdatasync_since n a.file) = laws.since_durable a.file n whole in
      let f =
        Follows-file a (os.fdatasync_since n a.file) v log (laws.since_content a.file n)
          (omega (arith, safe)) in
      (
        advanced (a.block_count * block_size) (afsync_turn os a),
        rw (update_after_fsync_lem (afsync_turn os a) f.valid a.block_count v.pending ne),
        Follows-trans f
            (advanced-Follows (afsync_turn os a) f.valid f.log a.block_count v.pending safe),
        refl,
      )

  -- An update by the full blocks of the ring, with no blocks at the thread and all bytes on stable
  -- storage.
  pub update_full_lem :
      (a : Aofguard File)
      → IsValid a
      → HoldsLog content a
      → a.fsync_len + a.len ≤ durable a.file
      → a.block_count ≡ 0
      → (a' : Aofguard File) × (update_after_fsync (a.len / block_size) a ≡ done a')
        × Follows content durable a a'
        × (a'.len < block_size)
  unfolding update_after_fsync k
  update_full_lem a v log safe idle = elim (ℕ_discrete (a.len / block_size) 0) [
    | yes none_full ↦ (a, rw none_full unchanged, Follows-refl a v log, omega arith)
    | no some_full ↦ (
      record (advanced (a.len / block_size * block_size) a) { block_count = a.block_count },
      update_after_fsync_lem a v (a.len / block_size) (omega arith) some_full,
      subst
          (λ n.
            Follows content durable a
              (record (advanced (a.len / block_size * block_size) a) { block_count = n }))
          (sym idle)
          (advanced-Follows a v log (a.len / block_size) (omega arith) (omega (arith, safe))),
      omega arith,
    )
  ]
    where
      unchanged : update_after_fsync 0 a ≡ done a
      unchanged = refl
