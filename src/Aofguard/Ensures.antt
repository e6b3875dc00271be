-- ===== src/Aofguard/Ensures.antt =====
-- How a function of aofguard.c may end: what holds when it returns 1, and why it returns 0.
use pmem_program.Base.{ℕ, ◌+◌, ◌%◌, ◌<◌, ◌≡◌, ◌≢◌, refl, false, List, length}
use pmem_program.Aofguard.{block_size, Os, Aofguard, Result, done, failed, aborted, ◌>>=◌}
use pmem_program.Aofguard.Ops.{broken, Sems}

-- Why a call returns 0.
pub data Failure {File : Type 0} (os : Os File) (sems : Sems) (a : Aofguard File) (xs : List ℕ)
    : Type 0 where
  try_wait_broken : sems.try_wait ≡ broken → Failure os sems a xs
  wait_failed : sems.wait_ok ≡ false → Failure os sems a xs
  post_failed : sems.post_ok ≡ false → Failure os sems a xs
  too_big : a.capacity < a.len % block_size + length xs → Failure os sems a xs
  sync_failed : (f : File) → (os.fdatasync f).1 ≡ false → Failure os sems a xs
  short_write : (f : File) → (os.write f xs).1 ≢ length xs → Failure os sems a xs

-- A result that satisfies P when the call returns 1, and Q when it returns 0; no assertion fails.
abbrev pub Ensures : {E A : Type 0} → (A → Type 0) → Type 0 → Result E A → Type 0
Ensures P Q (done a) = P a
Ensures P Q (failed e) = Q
Ensures P Q aborted = ⊥

pub bind-Ensures :
    {E A B : Type 0} (P : A → Type 0) (R : B → Type 0) (Q : Type 0) (m : Result E A)
    (f : A → Result E B)
    → Ensures P Q m
    → ((a : A) → P a → Ensures R Q (f a))
    → Ensures R Q (m >>= f)
bind-Ensures P R Q (done a) f h next = next a h
bind-Ensures P R Q (failed e) f h next = h
bind-Ensures P R Q aborted f h next = h

pub map-Ensures :
    {E A : Type 0} (P R : A → Type 0) (Q : Type 0) (m : Result E A)
    → Ensures P Q m
    → ((a : A) → P a → R a)
    → Ensures R Q m
map-Ensures P R Q (done a) h weaken = weaken a h
map-Ensures P R Q (failed e) h weaken = h
map-Ensures P R Q aborted h weaken = h

-- Without a reason for Q, the result is a success.
pub succeeds :
    {E A : Type 0} (P : A → Type 0) (Q : Type 0) (m : Result E A)
    → Ensures P Q m
    → (Q → ⊥)
    → (a : A) × (m ≡ done a) × P a
succeeds P Q (done a) h none_of = (a, refl, h)
succeeds P Q (failed e) h none_of = absurd (none_of h)
succeeds P Q aborted h none_of = absurd h
