-- ===== src/DsaMove/Jobs.antt =====
-- What a run of dsa_move_data is to achieve: jobs that cover the copy, and runs without an error.
use pmem_program.Base.{
  ℕ, zero, suc, ◌+◌, ◌-◌, ◌*◌, ◌^◌, ◌≤◌, ◌<◌, ◌≡◌, true, List, [], ◌∷◌, ◌++◌, arith,
}
use pmem_program.DsaMove.{Job, Dml, Cursor, Run, ran, dml_error, and_then}

-- What the library documents, of a state in which no call fails: a submitted job is taken as it
-- was set, and a wait submits nothing.
pub record DmlLaws {S : Type 0} (dml : Dml S) (submitted : S → List Job) : Type 0 where
  pub submit_ok : (s : S) (j : Job) → (dml.submit s j).1 ≡ true
  pub submit_takes : (s : S) (j : Job) → submitted (dml.submit s j).0 ≡ submitted s ++ (j ∷ [])
  pub wait_ok : (s : S) (i : ℕ) → (dml.wait s i).1 ≡ true
  pub wait_keeps : (s : S) (i : ℕ) → submitted (dml.wait s i).0 ≡ submitted s

-- The cursor k bytes on.
abbrev pub step : ℕ → Cursor → Cursor
step k c = record { source = c.source + k; dest = c.dest + k; src_size = c.src_size - k }

-- The jobs copy what is left at the cursor, each byte once, in order and without a gap, in pieces of
-- 1 to block_size bytes, with jobs of the array.
abbrev pub Covers : ℕ → ℕ → Cursor → List Job → Type 0
Covers block_size job_num c [] = c.src_size ≡ 0
Covers block_size job_num c (j ∷ js) =
    (j.index < job_num)
    × (j.source ≡ c.source)
    × (j.dest ≡ c.dest)
    × (0 < j.len)
    × (j.len ≤ block_size)
    × (j.len ≤ c.src_size)
    × Covers block_size job_num (step j.len c) js

-- Neither end of the copy passes the end of the address space.
pub record Fits (c : Cursor) : Type 0 where
  pub source_fits : c.source + c.src_size < 2 ^ 64
  pub dest_fits : c.dest + c.src_size < 2 ^ 64

abbrev pub Reaches : {S A : Type 0} → (S → A → Type 0) → Run S A → Type 0
Reaches P (ran s a) = P s a
Reaches P (dml_error s) = ⊥

pub Reaches-then :
    {S A B : Type 0} (P : S → A → Type 0) (Q : S → B → Type 0) (m : Run S A) (f : S → A → Run S B)
    → Reaches P m
    → ((s : S) (a : A) → P s a → Reaches Q (f s a))
    → Reaches Q (and_then m f)
unfolding and_then
Reaches-then P Q (ran s a) f h next = next s a h
Reaches-then P Q (dml_error s) f h next = h

pub product_pos : (m n : ℕ) → 0 < m → 0 < n → 0 < m * n
product_pos zero n hm hn = absurd (omega arith)
product_pos (suc m) zero hm hn = absurd (omega arith)
product_pos (suc m) (suc n) hm hn = omega arith

pub more_left : (n m x : ℕ) → x ≤ m * suc n → m < x → 0 < n
more_left zero m x h k = absurd (omega arith)
more_left (suc n) m x h k = omega arith

pub Reaches-map :
    {S A : Type 0} (P Q : S → A → Type 0) (m : Run S A)
    → Reaches P m
    → ((s : S) (a : A) → P s a → Q s a)
    → Reaches Q m
Reaches-map P Q (ran s a) h next = next s a h
Reaches-map P Q (dml_error s) h next = h
