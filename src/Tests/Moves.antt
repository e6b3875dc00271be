-- ===== src/Tests/Moves.antt =====
-- A copy of ten bytes in blocks of four, by two jobs of a library that records what it is given.
use pmem_program.Base.{◌≡◌, refl, true, some, List, [], ◌∷◌, ◌++◌, arith}
use pmem_program.DsaMove.{Job, Dml, Cursor, dsa_move_data}
use pmem_program.DsaMove.Jobs.{DmlLaws, Covers, Fits}
use pmem_program.DsaMove.Coverage.{dsa_move_data-Covers}

abbrev recorder : Dml (List Job)
recorder = record {
  submit = λ jobs job. (jobs ++ (job ∷ []), true);
  wait = λ jobs i. (jobs, true);
  finalize = λ jobs i. jobs;
}

recorder-DmlLaws : DmlLaws recorder (λ jobs. jobs)
recorder-DmlLaws = record {
  submit_ok = λ s j. refl;
  submit_takes = λ s j. refl;
  wait_ok = λ s i. refl;
  wait_keeps = λ s i. refl;
}

abbrev ten_bytes : Cursor
ten_bytes = record { source = 1000; dest = 2000; src_size = 10 }

ten_bytes-Fits : Fits ten_bytes
ten_bytes-Fits = record { source_fits = omega arith; dest_fits = omega arith }

ten_bytes_moved :
    dsa_move_data recorder 2 2 4 [] ten_bytes
    ≡ some (
      record { index = 0; source = 1000; dest = 2000; len = 4 }
          ∷ record { index = 1; source = 1004; dest = 2004; len = 4 }
          ∷ record { index = 0; source = 1008; dest = 2008; len = 2 }
          ∷ [],
      true,
    )
unfolding dsa_move_data
ten_bytes_moved = refl

dsa_move_data-Covers_example :
    (s : List Job) × (jobs : List Job) × (dsa_move_data recorder 11 2 4 [] ten_bytes
      ≡ some (s, true))
    × (s ≡ [] ++ jobs)
    × Covers 4 2 ten_bytes jobs
dsa_move_data-Covers_example =
    dsa_move_data-Covers recorder (λ jobs. jobs) recorder-DmlLaws 4 2 (omega arith) (omega arith)
      (omega arith) 11 [] ten_bytes ten_bytes-Fits (omega arith)
