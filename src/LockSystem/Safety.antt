-- ===== src/LockSystem/Safety.antt =====
-- What no interleaving of the clients and the server breaks.
use pmem_program.Base.{
  ℕ, ◌<◌, ◌≤◌, ◌≡◌, ◌≢◌, Bool, true, false, ◌==◌, arith, some, ◌*◌, ◌+◌, ◌^◌, ℕ_discrete, refl,
  if◌then◌else◌, ◌&&◌,
}
use pmem_program.Base.Int.{pos}
use pmem_program.HashKv.{HashTable, get_key_value}
use pmem_program.LockService.{answer, handle_lock}
use pmem_program.LockClient.{message}
use pmem_program.LockService.Refine.{handle_lock_refines}
use pmem_program.LockService.Value.{
  BlockLock, unused, unlocked, written, reading, write, reply, value_of,
}
use pmem_program.LockSystem.{
  Mode, reader, writer, lock_of, Client, idle, asking, told, holding, releasing, queued, System,
  Reach,
}
use pmem_program.LockSystem.Family.{total-le, weight-le-total, pair-le-total, total}
use pmem_program.LockSystem.Invariant.{
  granted, holders, one_if, same_mode, message_fields, Reach-Inv,
}

holding-granted :
    (s : System) (i b : ℕ) (m : Mode) → s.clients i ≡ holding m b → granted m b (s.clients i) ≡ 1
holding-granted s i b reader e = rw e (ground arith)
holding-granted s i b writer e = rw e (ground arith)

-- With a writer there are no readers, and one writer.
one_writer :
    (lock : BlockLock)
    → 1 ≤ holders writer lock
    → (holders reader lock ≡ 0) × (holders writer lock ≡ 1)
one_writer unused h = absurd (omega arith)
one_writer unlocked h = absurd (omega arith)
one_writer written h = omega arith
one_writer (reading k) h = absurd (omega arith)

-- In every state that n clients and the server reach from a fresh table, in any interleaving, two
-- clients below n of which one stands between its writelock and its releaselock on a block, and
-- the other between a readlock or writelock and its releaselock on the same block, are the same
-- client.
pub mutual_exclusion :
    {n : ℕ} {s : System} (i j b : ℕ) (m : Mode)
    → Reach n s
    → i < n
    → j < n
    → s.clients i ≡ holding writer b
    → s.clients j ≡ holding m b
    → i ≡ j
mutual_exclusion {n} {s} i j b m r i_lt j_lt writes holds = elim (ℕ_discrete i j) [
  | yes same ↦ same
  | no other ↦
      let (lock, value, readers, writers) = (Reach-Inv r).counts b in
      absurd (excluded m other holds lock readers writers)
]
  where
    excluded :
        (m : Mode)
        → i ≢ j
        → s.clients j ≡ holding m b
        → (lock : BlockLock) → total (granted reader b) n s.clients ≡ holders reader lock
        → total (granted writer b) n s.clients ≡ holders writer lock
        → ⊥
    excluded reader other holds lock readers writers = omega (
      arith,
      one_writer lock,
      holding-granted s i b writer writes,
      weight-le-total (granted writer b) n i s.clients i_lt,
      holding-granted s j b reader holds,
      weight-le-total (granted reader b) n j s.clients j_lt,
    )
    excluded writer other holds lock readers writers = omega (
      arith,
      one_writer lock,
      holding-granted s i b writer writes,
      holding-granted s j b writer holds,
      pair-le-total (granted writer b) n i j s.clients i_lt j_lt other,
    )

write_reply :
    (lock : BlockLock)
    → reply write lock ≡ answer (if holders reader lock + holders writer lock == 0 then 1 else 0)
write_reply unused = refl
write_reply unlocked = refl
write_reply written = refl
write_reply (reading k) = ground arith

-- In every state that n clients and the server reach, the server handles a write request for a
-- block below 2^30, and answers 1 if no client has a lock on the block granted, in use or on its
-- way back, and 0 otherwise.
pub write_request_answer :
    {n : ℕ} {s : System} (b : ℕ)
    → Reach n s
    → b < 2 ^ 30
    → (t : HashTable) × (handle_lock true (some s.table) (message b (lock_of writer))
        ≡ some (record {
          table = some t;
          reply = answer (
              if total (granted reader b) n s.clients + total (granted writer b) n s.clients == 0
              then 1
              else 0);
        }))
write_request_answer {n} {s} b r small =
    let (lock, value, readers, writers) = (Reach-Inv r).counts b in
    let (range, ind, block) = message_fields b writer small in
    let (t, e, slots, found) =
      handle_lock_refines write lock s.table (message b 2) (Reach-Inv r).slots range ind
        (rw block value) in
    (t, rw (readers, writers, ← write_reply lock) e)

one_if-le : (t : Bool) → one_if t ≤ 1
one_if-le true = omega arith
one_if-le false = omega arith

granted-le-one : (m : Mode) (b : ℕ) (c : Client) → granted m b c ≤ 1
granted-le-one m b idle = omega arith
granted-le-one m b (asking m' b') = omega arith
granted-le-one m b (told m' b' r) = one_if-le (r == 1 && (same_mode m m' && b == b'))
granted-le-one m b (holding m' b') = one_if-le (same_mode m m' && b == b')
granted-le-one m b (releasing m' b') = one_if-le (same_mode m m' && b == b')
granted-le-one m b (queued m' b' m'' b'') = one_if-le (same_mode m m' && b == b')

-- In every state that n clients and the server reach, a block's number in the table, where it is
-- not negative, is at most twice the number of clients.
pub block_value_bound :
    {n : ℕ} {s : System} (b v : ℕ)
    → Reach n s
    → get_key_value (some s.table) (pos b) ≡ some (pos v)
    → v ≤ 2 * n
block_value_bound {n} {s} b v r e =
    let (lock, value, readers, writers) = (Reach-Inv r).counts b in bound lock value readers writers
  where
    bound :
        (lock : BlockLock)
        → get_key_value (some s.table) (pos b) ≡ some (value_of lock)
        → total (granted reader b) n s.clients ≡ holders reader lock
        → total (granted writer b) n s.clients ≡ holders writer lock
        → v ≤ 2 * n
    bound unused value readers writers = absurd (cc)
    bound unlocked value readers writers = ground arith
    bound written value readers writers =
        ground (arith, total-le (granted writer b) n s.clients (granted-le-one writer b))
    bound (reading k) value readers writers =
        ground (arith, total-le (granted reader b) n s.clients (granted-le-one reader b))
