-- ===== src/LockSystem/Invariant.antt =====
-- The table counts the clients that hold each block, and every step keeps it so.
mod Count
mod Handled
pub use Count.*
pub use Handled.{request_of, message_fields}
use pmem_program.Base.{ℕ, ◌<◌, ◌≡◌, refl, ap, sym, ◌∙◌, arith, true, some}
use pmem_program.Base.Int.{pos}
use pmem_program.HashKv.{HashTable, create_hash_table}
use pmem_program.HashKv.Lookup.{pos-InRange, get_key_value-create_hash_table}
use pmem_program.LockService.Value.{unused}
use pmem_program.LockSystem.{
  Mode, reader, writer, Client, idle, asking, told, holding, releasing, queued, System, Step,
  send_request, handle_request, hear_yes, hear_no, send_release, send_behind, handle_release,
  handle_release_behind, Reach, start, later,
}
use pmem_program.LockSystem.Family.{total-zero}
use Count.{granted, neutral-Inv}
use Handled.{request-Inv, release-Inv}

-- Every step keeps the counts.
pub Step-Inv : {n : ℕ} {s u : System} → Step n s u → Inv n s → Inv n u
Step-Inv {s} (send_request i b m lt small at) inv =
    neutral-Inv i (asking m b) inv lt (λ k j. rw at refl)
Step-Inv {s} (handle_request i b r m t lt small at handled) inv =
    request-Inv i b r s m t inv lt small at handled
Step-Inv {s} (hear_yes i b r m lt at yes_answer) inv =
    neutral-Inv i (holding m b) inv lt (λ k j. rw (at, yes_answer) refl)
Step-Inv {s} (hear_no i b r m lt at no_answer) inv =
    neutral-Inv i (asking m b) inv lt (λ k j. rw at (ground arith))
Step-Inv {s} (send_release i b m lt at) inv =
    neutral-Inv i (releasing m b) inv lt (λ k j. rw at refl)
Step-Inv {s} (send_behind i b b' m m' lt small at) inv =
    neutral-Inv i (queued m b m' b') inv lt (λ k j. rw at refl)
Step-Inv {s} (handle_release i b m t lt small at handled) inv =
    release-Inv i b s m (releasing m b) idle t inv lt small at (λ k j. refl) (λ k j. refl) handled
Step-Inv {s} (handle_release_behind i b b' m m' t lt small at handled) inv =
    release-Inv i b s m (queued m b m' b') (asking m' b') t inv lt small at (λ k j. refl)
      (λ k j. refl) handled

start-Inv :
    (n : ℕ) (t : HashTable)
    → create_hash_table true ≡ some t
    → Inv n (record { table = t; clients = λ i. idle })
start-Inv n t e = record {
  slots = (get_key_value-create_hash_table t (pos 0) e (pos-InRange 0)).0;
  counts = λ b. (
    unused,
    (get_key_value-create_hash_table t (pos b) e (pos-InRange b)).1,
    total-zero (granted reader b) n idle refl,
    total-zero (granted writer b) n idle refl,
  );
}

-- So the table counts the holders in every state that the clients and the server reach.
pub Reach-Inv : {n : ℕ} {s : System} → Reach n s → Inv n s
Reach-Inv {n} (start {t} e) = start-Inv n t e
Reach-Inv (later r step) = Step-Inv step (Reach-Inv r)
