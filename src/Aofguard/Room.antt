-- ===== src/Aofguard/Room.antt =====
-- The first part of aofguard_write: the waits and syncs that make room keep the guard's log.
use pmem_program.Base.{
  ℕ, ◌+◌, ◌%◌, ◌^◌, ◌≤◌, ◌<◌, ◌≡◌, ◌≢◌, refl, Bool, true, false, List, length, ltb, ltb→lt, ◌==◌,
  if◌then◌else◌, arith, Bool-cases, inl, inr, ℕ_discrete,
}
use pmem_program.Base.Words.{u64}
use pmem_program.Aofguard.{block_size, Os, Aofguard, done, failed, ◌>>=◌}
use pmem_program.Aofguard.Ops.{
  finish_afsync, TryWait, taken, again, broken, Sems, handle_afsync_if_finish, wait_afsync_done,
  do_fsync, make_room,
}
use pmem_program.Aofguard.Invariant.{
  OsLaws, DurableLaws, HoldsLog-length, Follows-file, IsValid, HoldsLog, Follows, Follows-refl,
  Follows-trans, finish_afsync_lem, update_full_lem,
}
use pmem_program.Aofguard.Ensures.{
  Failure, try_wait_broken, wait_failed, too_big, sync_failed, Ensures, bind-Ensures, map-Ensures,
}

-- Room for n more bytes, with the log as it was.
abbrev pub HasRoom :
    {File : Type 0} → (File → List ℕ) → (File → ℕ) → Aofguard File → ℕ → Aofguard File → Type 0
HasRoom content durable a n b = Follows content durable a b × (b.len + n ≤ b.capacity)

ltb-false : (m n : ℕ) → ltb m n ≡ false → n ≤ m
ltb-false m n h = ground arith

module _ {File : Type 0} (os : Os File) (content : File → List ℕ) (durable : File → ℕ)
    (laws : OsLaws os content) (safe : DurableLaws os content durable)
    (memcpy : (ℕ → ℕ) → ℕ → List ℕ → ℕ → ℕ) (sems : Sems) (xs : List ℕ) (a : Aofguard File)
    (v : IsValid a) (log : HoldsLog content a) where
  start-Follows : Follows content durable a a
  start-Follows = Follows-refl content durable a v log

  handle-Ensures :
      Ensures
        (Follows content durable a)
        (Failure os sems a xs)
        (handle_afsync_if_finish os sems.try_wait a)
  unfolding handle_afsync_if_finish
  handle-Ensures = elim (ℕ_discrete a.block_count 0) [
    | yes idle ↦ let e : (a.block_count == 0) ≡ true = ground arith in rw e start-Follows
    | no busy ↦
        let e : (a.block_count == 0) ≡ false = ground arith in
        rw e (by_outcome busy sems.try_wait refl)
  ]
    where
      by_outcome :
          a.block_count ≢ 0
          → (t : TryWait) → sems.try_wait ≡ t
          → Ensures
              (Follows content durable a)
              (Failure os sems a xs)
              (elim t [ taken ↦ finish_afsync os a | again ↦ done a | broken ↦ failed a ])
      by_outcome busy taken e =
          let (b, finished, f, idle) = finish_afsync_lem content durable os safe a v log busy in
          rw finished f
      by_outcome busy again e = start-Follows
      by_outcome busy broken e = try_wait_broken e

  wait-Ensures :
      (b : Aofguard File)
      → Follows content durable a b
      → Ensures
          (λ c. Follows content durable a c × (c.block_count ≡ 0))
          (Failure os sems a xs)
          (wait_afsync_done os sems.wait_ok b)
  unfolding wait_afsync_done
  wait-Ensures b f = elim (ℕ_discrete b.block_count 0) [
    | yes idle ↦ let e : (b.block_count == 0) ≡ true = ground arith in rw e (f, idle)
    | no busy ↦
        let e : (b.block_count == 0) ≡ false = ground arith in rw e (by_wait busy sems.wait_ok refl)
  ]
    where
      by_wait :
          b.block_count ≢ 0
          → (ok : Bool) → sems.wait_ok ≡ ok
          → Ensures
              (λ c. Follows content durable a c × (c.block_count ≡ 0))
              (Failure os sems a xs)
              (if ok then finish_afsync os b else failed b)
      by_wait busy true e =
          let (c, finished, g, idle) =
            finish_afsync_lem content durable os safe b f.valid f.log busy in
          rw finished (Follows-trans content durable f g, idle)
      by_wait busy false e = wait_failed e

  sync-Ensures :
      (b : Aofguard File)
      → Follows content durable a b
      → b.block_count ≡ 0
      → Ensures
          (λ c. Follows content durable a c × (c.len < block_size))
          (Failure os sems a xs)
          (do_fsync os memcpy b)
  unfolding do_fsync
  sync-Ensures b f idle = elim (Bool-cases (os.fdatasync b.file).1) [
    | inl ok ↦
        let all : b.fsync_len + b.len ≤ durable (os.fdatasync b.file).0 =
          omega (arith, HoldsLog-length content b f.valid f.log, safe.sync_durable b.file ok) in
        let g =
          Follows-file content durable b (os.fdatasync b.file).0 f.valid f.log
            (laws.sync_content b.file) (omega (arith, all)) in
        let (c, updated, h, short) =
          update_full_lem content durable (record b { file = (os.fdatasync b.file).0 }) g.valid
            g.log all idle in
        rw (ok, updated)
          (Follows-trans content durable f (Follows-trans content durable g h), short)
    | inr bad ↦ rw bad (sync_failed b.file bad)
  ]

  pub room-Ensures :
      length xs < 2 ^ 63
      → Ensures
          (HasRoom content durable a (length xs))
          (Failure os sems a xs)
          (make_room os memcpy sems (length xs) a)
  unfolding make_room
  room-Ensures small =
      bind-Ensures (Follows content durable a) (HasRoom content durable a (length xs))
        (Failure os sems a xs) (handle_afsync_if_finish os sems.try_wait a) _ handle-Ensures
        after_handle
    where
      sum :
          (b : Aofguard File)
          → Follows content durable a b
          → u64 (b.len + length xs) ≡ b.len + length xs
      sum b f = omega (arith, f.valid.len_le, f.valid.max_blocks)

      room_left :
          (b : Aofguard File)
          → Follows content durable a b
          → ltb b.capacity (u64 (b.len + length xs)) ≡ false
          → b.len + length xs ≤ b.capacity
      room_left b f under = let e = sum b f in ground arith

      rest_sum :
          (b : Aofguard File)
          → u64 (b.len % block_size + length xs) ≡ b.len % block_size + length xs
      rest_sum b = omega arith

      beyond :
          (b : Aofguard File)
          → Follows content durable a b
          → ltb b.capacity (u64 (b.len % block_size + length xs)) ≡ true
          → a.capacity < a.len % block_size + length xs
      beyond b f over =
          let e = rest_sum b in
          let c = f.same_rest in
          let d = f.same_capacity in
          omega (arith, ltb→lt b.capacity (u64 (b.len % block_size + length xs)) over)

      within :
          (b : Aofguard File)
          → Follows content durable a b
          → ltb b.capacity (u64 (b.len % block_size + length xs)) ≡ false
          → a.len % block_size + length xs ≤ a.capacity
      within b f under =
          let e = rest_sum b in
          let c = f.same_rest in
          let d = f.same_capacity in
          omega (arith, ltb-false b.capacity (u64 (b.len % block_size + length xs)) under)

      after_wait :
          (b : Aofguard File)
          → a.len % block_size + length xs ≤ a.capacity
          → Follows content durable a b × (b.block_count ≡ 0)
          → Ensures
              (HasRoom content durable a (length xs))
              (Failure os sems a xs)
              (if ltb b.capacity (u64 (b.len + length xs)) then do_fsync os memcpy b else done b)
      after_wait b rest (f, idle) = elim (Bool-cases (ltb b.capacity (u64 (b.len + length xs)))) [
        | inl over ↦ rw over (
            map-Ensures (λ c. Follows content durable a c × (c.len < block_size))
              (HasRoom content durable a (length xs)) (Failure os sems a xs) (do_fsync os memcpy b)
              (sync-Ensures b f idle)
              (λ c p. (p.0, omega (arith, p.0.same_rest, p.0.same_capacity, p.1))))
        | inr under ↦ rw under (f, room_left b f under)
      ]

      after_handle :
          (b : Aofguard File)
          → Follows content durable a b
          → Ensures (HasRoom content durable a (length xs)) (Failure os sems a xs) (
              if ltb b.capacity (u64 (b.len + length xs))
              then (if ltb b.capacity (u64 (b.len % block_size + length xs))
                  then failed b
                  else (wait_afsync_done os sems.wait_ok b >>= λ c.
                      if ltb c.capacity (u64 (c.len + length xs))
                      then do_fsync os memcpy c
                      else done c))
              else done b)
      after_handle b f = elim (Bool-cases (ltb b.capacity (u64 (b.len + length xs)))) [
        | inl over ↦
            rw over (elim (Bool-cases (ltb b.capacity (u64 (b.len % block_size + length xs)))) [
              | inl too_long ↦ rw too_long (too_big (beyond b f too_long))
              | inr enough ↦ rw enough (
                  bind-Ensures (λ c. Follows content durable a c × (c.block_count ≡ 0))
                    (HasRoom content durable a (length xs)) (Failure os sems a xs)
                    (wait_afsync_done os sems.wait_ok b) _ (wait-Ensures b f)
                    (λ c p. after_wait c (within b f enough) p))
            ])
        | inr under ↦ rw under (f, room_left b f under)
      ]
