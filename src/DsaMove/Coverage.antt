-- ===== src/DsaMove/Coverage.antt =====
-- The jobs that dsa_move_data submits make up the whole copy.
use pmem_program.Base.{
  ℕ, zero, suc, ◌+◌, ◌-◌, ◌*◌, ◌^◌, ◌≤◌, ◌<◌, ◌≡◌, refl, ap, sym, ◌∙◌, Bool, true, false, Option,
  some, List, [], ◌∷◌, ◌++◌, ltb→lt, append-nil, append_assoc, ltb, arith, Bool-cases, inl, inr,
}
use mathlib.Core.Path.{subst}
use pmem_program.Base.Words.{u64}
use pmem_program.DsaMove.{
  Job, Dml, Cursor, Run, ran, dml_error, and_then, advance, submit_job, submit_blocks, wait_jobs,
  move_rounds, submit_last, submit_rest, move_last, finalize_jobs, dsa_move_data,
}
use pmem_program.DsaMove.Jobs.{
  DmlLaws, step, Covers, Fits, Reaches, Reaches-then, product_pos, more_left, Reaches-map,
}

module _ {S : Type 0} (dml : Dml S) (submitted : S → List Job) (laws : DmlLaws dml submitted)
    (block_size job_num : ℕ) (positive : 0 < block_size) (jobs_exist : 0 < job_num)
    (small : block_size * job_num < 2 ^ 64) where
  -- From one state and cursor to the next, by jobs that copy what lies between.
  record Moved (s : S) (c : Cursor) (s' : S) (c' : Cursor) : Type 0 where
    jobs : List Job
    logged : submitted s' ≡ submitted s ++ jobs
    covers :
        (rest : List Job)
        → Covers block_size job_num c' rest
        → Covers block_size job_num c (jobs ++ rest)
    fits : Fits c'

  Moved-refl : (s s' : S) (c : Cursor) → submitted s' ≡ submitted s → Fits c → Moved s c s' c
  Moved-refl s s' c same fits = record {
    jobs = [];
    logged = same ∙ sym (append-nil (submitted s));
    covers = λ rest h. h;
    fits = fits;
  }

  Moved-trans :
      {s s1 s2 : S} {c c1 c2 : Cursor} → Moved s c s1 c1 → Moved s1 c1 s2 c2 → Moved s c s2 c2
  Moved-trans {s} {c = c} m n = record {
    jobs = m.jobs ++ n.jobs;
    logged = n.logged ∙ ap (λ r. r ++ n.jobs) m.logged ∙ append_assoc (submitted s) m.jobs n.jobs;
    covers = λ rest h.
        subst (Covers block_size job_num c) (sym (append_assoc m.jobs n.jobs rest))
          (m.covers (n.jobs ++ rest) (n.covers rest h));
    fits = n.fits;
  }

  submit_job_lem :
      (i len : ℕ) (s : S) (c : Cursor)
      → Fits c
      → i < job_num
      → 0 < len
      → len ≤ block_size
      → len ≤ c.src_size
      → Reaches (λ s' u. Moved s c s' (step len c)) (submit_job dml i len s c)
  unfolding submit_job
  submit_job_lem i len s c fits hi pos hb hc =
      let j : Job = record { index = i; source = c.source; dest = c.dest; len = len } in
      rw (laws.submit_ok s j) record {
        jobs = j ∷ [];
        logged = laws.submit_takes s j;
        covers = λ rest h. (hi, refl, refl, pos, hb, hc, h);
        fits = record {
          source_fits = omega (arith, fits.source_fits);
          dest_fits = omega (arith, fits.dest_fits);
        };
      }

  advance_lem :
      (c : Cursor) → Fits c → block_size ≤ c.src_size → advance block_size c ≡ step block_size c
  unfolding advance
  advance_lem c fits h =
      let e : u64 (c.source + block_size) ≡ c.source + block_size =
        omega (arith, fits.source_fits) in
      let f : u64 (c.dest + block_size) ≡ c.dest + block_size = omega (arith, fits.dest_fits) in
      let g : u64 (c.src_size + (2 ^ 64 - block_size)) ≡ c.src_size - block_size =
        omega (arith, fits.source_fits) in
      rw (e, f, g)

  submit_blocks_lem :
      (n i : ℕ) (s : S) (c : Cursor)
      → Fits c
      → i + n ≤ job_num
      → block_size * n ≤ c.src_size
      → Reaches
          (λ s' c'. Moved s c s' c' × (c'.src_size ≡ c.src_size - block_size * n))
          (submit_blocks dml block_size n i s c)
  unfolding submit_blocks
  submit_blocks_lem zero i s c fits hi h = (Moved-refl s s c refl fits, omega arith)
  submit_blocks_lem (suc n) i s c fits hi h =
      let more : block_size * suc n ≡ block_size + block_size * n = omega arith in
      Reaches-then (λ s' u. Moved s c s' (step block_size c)) _ (submit_job dml i block_size s c) _
        (submit_job_lem i block_size s c fits (omega arith) positive (omega arith) (omega arith))
        (λ s' u m. rw (advance_lem c fits (omega arith)) (
          Reaches-map _ _ (submit_blocks dml block_size n (i + 1) s' (step block_size c))
            (submit_blocks_lem n (i + 1) s' (step block_size c) m.fits (omega arith) (omega arith))
            (λ s2 c2 p. (Moved-trans m p.0, omega (arith, p.1)))))

  wait_jobs_lem :
      (n i : ℕ) (s : S) → Reaches (λ s' u. submitted s' ≡ submitted s) (wait_jobs dml n i s)
  unfolding wait_jobs
  wait_jobs_lem zero i s = refl
  wait_jobs_lem (suc n) i s = rw (laws.wait_ok s i) (
      Reaches-map _ _ (wait_jobs dml n (i + 1) (dml.wait s i).0)
        (wait_jobs_lem n (i + 1) (dml.wait s i).0) (λ s' u h. h ∙ laws.wait_keeps s i))

  -- One round of the first loop.
  round_lem :
      (s : S) (c : Cursor)
      → Fits c
      → block_size * job_num ≤ c.src_size
      → Reaches
          (λ s' c'. Moved s c s' c' × (c'.src_size ≡ c.src_size - block_size * job_num))
          (and_then
            (submit_blocks dml block_size job_num 0 s c)
            (λ s1 c1. and_then (wait_jobs dml job_num 0 s1) (λ s2 _. ran s2 c1)))
  unfolding and_then
  round_lem s c fits h =
      Reaches-then _ _ (submit_blocks dml block_size job_num 0 s c) _
        (submit_blocks_lem job_num 0 s c fits (omega arith) h)
        (λ s1 c1 p.
          Reaches-then _ _ (wait_jobs dml job_num 0 s1) _ (wait_jobs_lem job_num 0 s1)
            (λ s2 u same. (Moved-trans p.0 (Moved-refl s1 s2 c1 same p.0.fits), p.1)))

  -- The first loop ends within its fuel and leaves at most one round.
  move_rounds_lem :
      (fuel : ℕ) (s : S) (c : Cursor)
      → Fits c
      → c.src_size < fuel
      → (s' : S) × (c' : Cursor) × (move_rounds dml fuel job_num block_size s c ≡ some (ran s' c'))
        × Moved s c s' c'
        × (c'.src_size ≤ block_size * job_num)
  unfolding move_rounds
  move_rounds_lem zero s c fits h = absurd (omega arith)
  move_rounds_lem (suc fuel) s c fits h =
      let wide : u64 (block_size * job_num) ≡ block_size * job_num = omega arith in
      elim (Bool-cases (ltb (u64 (block_size * job_num)) c.src_size)) [
        | inl more ↦
            rw more
              (by_round (move_rounds_lem fuel) _ (round_lem s c fits (ground arith)) (ground arith))
        | inr fits_one ↦ rw fits_one (s, c, refl, Moved-refl s s c refl fits, ground arith)
      ]
    where
      by_round :
          ((s1 : S) (c1 : Cursor)
            → Fits c1
            → c1.src_size < fuel
            → (s' : S) × (c' : Cursor) × (move_rounds dml fuel job_num block_size s1 c1
                ≡ some (ran s' c'))
              × Moved s1 c1 s' c'
              × (c'.src_size ≤ block_size * job_num))
          → (r : Run S Cursor)
          → Reaches (λ s' c'. Moved s c s' c' × (c'.src_size ≡ c.src_size - block_size * job_num)) r
          → block_size * job_num < c.src_size
          → (s' : S) × (c' : Cursor) × (elim r as (λ r. Option (Run S Cursor)) [
            | ran s1 c1 ↦ move_rounds dml fuel job_num block_size s1 c1
            | dml_error s1 ↦ some (dml_error s1)
          ]
              ≡ some (ran s' c'))
            × Moved s c s' c'
            × (c'.src_size ≤ block_size * job_num)
      by_round again (ran s1 c1) (m, left) over =
          let product : 0 < block_size * job_num =
            product_pos block_size job_num positive jobs_exist in
          let (s', c', moved, m', last) = again s1 c1 m.fits (omega arith) in
          (s', c', moved, Moved-trans m m', last)
      by_round again (dml_error s1) h over = absurd h

  -- The second loop leaves at most a block, and a job for it.
  submit_last_lem :
      (n i : ℕ) (s : S) (c : Cursor)
      → Fits c
      → i + n ≤ job_num
      → 0 < n
      → c.src_size ≤ block_size * n
      → Reaches
          (λ s' r. Moved s c s' r.1 × (r.1.src_size ≤ block_size) × (r.0 < job_num))
          (submit_last dml block_size n i s c)
  unfolding submit_last
  submit_last_lem zero i s c fits hi hn h = absurd (omega arith)
  submit_last_lem (suc n) i s c fits hi hn h =
      let more : block_size * suc n ≡ block_size + block_size * n = omega arith in
      elim (Bool-cases (ltb block_size c.src_size)) [
        | inl over ↦
            let left : (advance block_size c).src_size ≡ c.src_size - block_size =
              ap (λ r. r.src_size) (advance_lem c fits (ground arith)) in
            let n_pos : 0 < n = more_left n block_size c.src_size h (ground arith) in
            rw (over, advance_lem c fits (ground arith))
              (Reaches-then (λ s' u. Moved s c s' (step block_size c)) _
                (submit_job dml i block_size s c) _
                (submit_job_lem i block_size s c fits (omega arith) positive (omega arith)
                  (ground arith))
                (λ s' u m. elim (Bool-cases (ltb (advance block_size c).src_size block_size)) [
                  | inl short ↦ rw short (
                    m,
                    omega (arith, left, ltb→lt (advance block_size c).src_size block_size short),
                    omega arith,
                  )
                  | inr long ↦ rw long (
                      Reaches-map _ _ (submit_last dml block_size n (i + 1) s' (step block_size c))
                        (submit_last_lem n (i + 1) s' (step block_size c) m.fits (omega arith) n_pos
                          (omega arith))
                        (λ s2 r p. (Moved-trans m p.0, p.1, p.2)))
                ]))
        | inr enough ↦ rw enough (Moved-refl s s c refl fits, ground arith, omega arith)
      ]

  submit_rest_lem :
      (i : ℕ) (s : S) (c : Cursor)
      → Fits c
      → i < job_num
      → c.src_size ≤ block_size
      → Reaches
          (λ s' used. (c' : Cursor) × Moved s c s' c' × (c'.src_size ≡ 0))
          (submit_rest dml i s c)
  unfolding submit_rest
  submit_rest_lem i s c fits hi h = elim (Bool-cases (ltb 0 c.src_size)) [
    | inl some_left ↦ rw some_left (
        Reaches-then _ _ (submit_job dml i c.src_size s c) _
          (submit_job_lem i c.src_size s c fits hi (ground arith) h (omega arith))
          (λ s' u m. (step c.src_size c, m, omega arith)))
    | inr none_left ↦ rw none_left (c, Moved-refl s s c refl fits, ground arith)
  ]

  move_last_lem :
      (s : S) (c : Cursor)
      → Fits c
      → c.src_size ≤ block_size * job_num
      → Reaches
          (λ s' u. (c' : Cursor) × Moved s c s' c' × (c'.src_size ≡ 0))
          (move_last dml job_num block_size s c)
  unfolding move_last
  move_last_lem s c fits h =
      Reaches-then _ _ (submit_last dml block_size job_num 0 s c) _
        (submit_last_lem job_num 0 s c fits (omega arith) jobs_exist h)
        (λ s1 r p.
          Reaches-then _ _ (submit_rest dml r.0 s1 r.1) _
            (submit_rest_lem r.0 s1 r.1 p.0.fits p.2 p.1)
            (λ s2 used q.
              let (c2, m, empty) = q in
              Reaches-map _ _ (wait_jobs dml used 0 s2) (wait_jobs_lem used 0 s2) (λ s3 u same.
                (c2, Moved-trans p.0 (Moved-trans m (Moved-refl s2 s3 c2 same m.fits)), empty))))

  -- dsa_move_data with fuel beyond the size ends without an error if the library meets none, and
  -- the jobs that it submits copy the whole source: in order, each byte once, in pieces of 1 to
  -- block_size bytes, and with no index beyond the array of jobs. The conditions are at least one
  -- job, a block that is not empty, a product of the two below 2^64, and both ends of the copy
  -- below 2^64.
  pub dsa_move_data-Covers :
      (fuel : ℕ) (s : S) (c : Cursor)
      → Fits c
      → c.src_size < fuel
      → (s' : S) × (jobs : List Job) × (dsa_move_data dml fuel job_num block_size s c
          ≡ some (s', true))
        × (submitted s' ≡ submitted s ++ jobs)
        × Covers block_size job_num c jobs
  unfolding dsa_move_data
  dsa_move_data-Covers fuel s c fits enough =
      let (s1, c1, rounds, m, last) = move_rounds_lem fuel s c fits enough in
      rw (dsa_move_data, rounds)
        (by_last s1 c1 m (move_last dml job_num block_size s1 c1) (move_last_lem s1 c1 m.fits last))
    where
      by_last :
          (s1 : S) (c1 : Cursor)
          → Moved s c s1 c1
          → (r : Run S Unit)
          → Reaches (λ s' u. (c' : Cursor) × Moved s1 c1 s' c' × (c'.src_size ≡ 0)) r
          → (s' : S) × (jobs : List Job) × (elim r as (λ r. Option (S × Bool)) [
            | ran s2 u ↦ some (s2, true)
            | dml_error s2 ↦ some (finalize_jobs dml job_num 0 s2, false)
          ]
              ≡ some (s', true))
            × (submitted s' ≡ submitted s ++ jobs)
            × Covers block_size job_num c jobs
      by_last s1 c1 m (ran s2 u) (c2, m2, empty) =
          let whole = Moved-trans m m2 in
          (
            s2,
            whole.jobs,
            refl,
            whole.logged,
            subst (Covers block_size job_num c) (append-nil whole.jobs) (whole.covers [] empty),
          )
      by_last s1 c1 m (dml_error s2) h = absurd h
