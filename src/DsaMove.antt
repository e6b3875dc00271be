-- ===== src/DsaMove.antt =====
-- cxl_memory_sharing/dsa_move.c: dsa_move_data cuts a copy into blocks and hands them to a number
-- of hardware jobs. The data mover library is not part of the program: what its calls do to the
-- state of its jobs, and whether they succeed, is a parameter.
pub mod Jobs
pub mod Coverage
use pmem_program.Base.{
  ℕ, zero, suc, ◌+◌, ◌-◌, ◌*◌, ◌%◌, ◌^◌, Bool, true, false, Option, none, some, ltb, if◌then◌else◌,
}
use pmem_program.Base.Words.{u64}

-- What the code sets in `jobs[index]` before it submits it.
pub record Job : Type 0 where
  pub index : ℕ
  pub source : ℕ
  pub dest : ℕ
  pub len : ℕ

-- dml_submit_job, dml_wait_job and dml_finalize_job
pub record Dml (S : Type 0) : Type 0 where
  pub submit : S → Job → S × Bool
  pub wait : S → ℕ → S × Bool
  pub finalize : S → ℕ → S

-- The variables source, dest and src_size.
pub record Cursor : Type 0 where
  pub source : ℕ
  pub dest : ℕ
  pub src_size : ℕ

-- The code goes on, or jumps to dml_error.
pub data Run (S A : Type 0) : Type 0 where
  ran : S → A → Run S A
  dml_error : S → Run S A

unfoldable pub and_then : {S A B : Type 0} → Run S A → (S → A → Run S B) → Run S B
and_then (ran s a) f = f s a
and_then (dml_error s) f = dml_error s

-- `source += block_size; dest += block_size; src_size -= block_size;`
unfoldable pub advance : ℕ → Cursor → Cursor
advance block_size c = record {
  source = u64 (c.source + block_size);
  dest = u64 (c.dest + block_size);
  src_size = u64 (c.src_size + (2 ^ 64 - block_size));
}

module _ {S : Type 0} (dml : Dml S) where
  unfoldable pub submit_job : ℕ → ℕ → S → Cursor → Run S Unit
  submit_job i len s c =
      let (s', ok) =
        dml.submit s (record { index = i; source = c.source; dest = c.dest; len = len }) in
      if ok then ran s' tt else dml_error s'

  -- The loop that submits n full blocks, from job i on.
  unfoldable pub submit_blocks : ℕ → ℕ → ℕ → S → Cursor → Run S Cursor
  unfolding and_then submit_job advance
  submit_blocks block_size zero i s c = ran s c
  submit_blocks block_size (suc n) i s c =
      and_then (submit_job i block_size s c)
        (λ s' _. submit_blocks block_size n (i + 1) s' (advance block_size c))

  -- The loop that waits for n jobs, from job i on. What a finished job has moved is not in the model.
  unfoldable pub wait_jobs : ℕ → ℕ → S → Run S Unit
  wait_jobs zero i s = ran s tt
  wait_jobs (suc n) i s =
      let (s', ok) = dml.wait s i in
      let rest = wait_jobs n (i + 1) s' in if ok then rest else dml_error s'

  -- The `while` loop, in rounds of job_num full blocks: `none` when the fuel does not suffice.
  unfoldable pub move_rounds : ℕ → ℕ → ℕ → S → Cursor → Option (Run S Cursor)
  unfolding submit_blocks wait_jobs and_then
  move_rounds zero job_num block_size s c = none
  move_rounds (suc fuel) job_num block_size s c =
      let round =
        and_then (submit_blocks block_size job_num 0 s c)
          (λ s1 c1. and_then (wait_jobs job_num 0 s1) (λ s2 _. ran s2 c1)) in
      let next : Option (Run S Cursor) = elim round [
        | ran s1 c1 ↦ move_rounds fuel job_num block_size s1 c1
        | dml_error s1 ↦ some (dml_error s1)
      ] in
      if ltb (u64 (block_size * job_num)) c.src_size then next else some (ran s c)

  -- The `for` loop after it, with n jobs left from job i on: the next free job and the cursor.
  unfoldable pub submit_last : ℕ → ℕ → ℕ → S → Cursor → Run S (ℕ × Cursor)
  unfolding and_then submit_job advance
  submit_last block_size zero i s c = ran s (i, c)
  submit_last block_size (suc n) i s c =
      let c' = advance block_size c in
      let body = and_then (submit_job i block_size s c) (λ s' _.
        let rest = submit_last block_size n (i + 1) s' c' in
        if ltb c'.src_size block_size then ran s' (i + 1, c') else rest) in
      if ltb block_size c.src_size then body else ran s (i, c)

  -- What follows the two loops: the rest of the data, and the wait for the jobs in use.
  unfoldable pub submit_rest : ℕ → S → Cursor → Run S ℕ
  unfolding and_then submit_job
  submit_rest i s c =
      if ltb 0 c.src_size
      then and_then (submit_job i c.src_size s c) (λ s' _. ran s' (i + 1))
      else ran s i

  unfoldable pub move_last : ℕ → ℕ → S → Cursor → Run S Unit
  unfolding and_then submit_last submit_rest wait_jobs
  move_last job_num block_size s c =
      and_then (submit_last block_size job_num 0 s c)
        (λ s1 r. and_then (submit_rest r.0 s1 r.1) (λ s2 used_job_num. wait_jobs used_job_num 0 s2))

  -- The loop at the label dml_error
  unfoldable pub finalize_jobs : ℕ → ℕ → S → S
  finalize_jobs zero i s = s
  finalize_jobs (suc n) i s = finalize_jobs n (i + 1) (dml.finalize s i)

  -- dsa_move_data: the state after it, and whether it got there without an error.
  unfoldable pub dsa_move_data : ℕ → ℕ → ℕ → S → Cursor → Option (S × Bool)
  unfolding move_rounds move_last finalize_jobs
  dsa_move_data fuel job_num block_size s c = elim (move_rounds fuel job_num block_size s c) [
    | none ↦ none
    | some (ran s1 c1) ↦ elim (move_last job_num block_size s1 c1) [
      | ran s2 done ↦ some (s2, true)
      | dml_error s2 ↦ some (finalize_jobs job_num 0 s2, false)
    ]
    | some (dml_error s1) ↦ some (finalize_jobs job_num 0 s1, false)
  ]
