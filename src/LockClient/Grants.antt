-- ===== src/LockClient/Grants.antt =====
-- When the loops of writelock and readlock end.
use pmem_program.Base.{
  ℕ, ◌^◌, ◌<◌, ◌≡◌, ◌≢◌, refl, Bool, true, false, Option, none, some, List, [], ◌∷◌, ◌++◌, ◌==◌,
  if◌then◌else◌, arith,
}
use pmem_program.LockClient.{ask, writelock, readlock, message}
use pmem_program.LockClient.Messages.{message-eq_sum}

-- The server has answered 1 to one of the requests.
abbrev pub yes_among : List (Option ℕ) → Bool
yes_among [] = false
yes_among (none ∷ rest) = yes_among rest
yes_among (some v ∷ rest) = if v == 1 then true else yes_among rest

ask_lem :
    (request : ℕ) (responses : List (Option ℕ))
    → request ≢ 1
    → (ask request responses).granted ≡ yes_among responses
unfolding ask
ask_lem request [] ne = refl
ask_lem request (none ∷ rest) ne = ground (arith, ask_lem request rest ne)
ask_lem request (some v ∷ rest) ne = ground (arith, ask_lem request rest ne)

-- writelock of a block below 2^30 returns exactly when one of the responses is 1, whatever reads
-- fail in between.
pub writelock_granted :
    (uuid : ℕ) (responses : List (Option ℕ))
    → uuid < 2 ^ 30
    → (writelock uuid responses).granted ≡ yes_among responses
unfolding writelock
writelock_granted uuid responses h =
    ask_lem (message uuid 2) responses (omega (arith, message-eq_sum uuid 2 h (omega arith)))

-- readlock of a block below 2^30 other than block 0 returns exactly when one of the responses is
-- 1, whatever reads fail in between.
pub readlock_granted :
    (uuid : ℕ) (responses : List (Option ℕ))
    → 0 < uuid
    → uuid < 2 ^ 30
    → (readlock uuid responses).granted ≡ yes_among responses
unfolding readlock
readlock_granted uuid responses pos h =
    ask_lem (message uuid 1) responses (omega (arith, message-eq_sum uuid 1 h (omega arith)))

-- On block 0 a failed read at any point leaves the request, which is 1, in `lock`: readlock
-- returns as if it had the lock, whatever the responses before and after.
pub readlock_zero_unsafe :
    (before after : List (Option ℕ)) → (readlock 0 (before ++ none ∷ after)).granted ≡ true
unfolding readlock ask message
readlock_zero_unsafe [] after = refl
readlock_zero_unsafe (none ∷ before) after = refl
readlock_zero_unsafe (some v ∷ before) after = ground (arith, readlock_zero_unsafe before after)
