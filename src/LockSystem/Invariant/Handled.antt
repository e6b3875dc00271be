-- ===== src/LockSystem/Invariant/Handled.antt =====
-- The steps in which the server handles a message.
use pmem_program.Base.{
  ◌*◌, ◌&&◌, ℕ, zero, suc, ◌+◌, ◌/◌, ◌%◌, ◌≤◌, ◌<◌, ◌^◌, ◌≡◌, ◌≢◌, sym, ap, ◌∙◌, true, Option, some,
  ◌==◌, if◌then◌else◌, arith, ℕ_discrete,
}
use mathlib.Core.Path.{subst}
use pmem_program.Base.Int.{pos}
use pmem_program.HashKv.{HashTable, get_key_value}
use pmem_program.HashKv.Lookup.{HasSlots}
use pmem_program.LockService.{Reply, answer, no_answer, Handled, handle_lock}
use pmem_program.LockService.Value.{
  BlockLock, unused, unlocked, written, reading, value_of, Message, release, read, write, indicator,
  next, reply,
}
use pmem_program.LockService.Refine.{Serves, handle_lock_refines}
use pmem_program.LockClient.{message, releaselock}
use pmem_program.LockClient.Messages.{message-eq_sum}
use pmem_program.LockSystem.{Mode, reader, writer, lock_of, Client, asking, told, System}
use pmem_program.LockSystem.Family.{update, total, total-update, weight-le-total}
use pmem_program.LockSystem.Invariant.Count.{
  total-neutral, same_mode, one_if, granted, holders, Counts, Inv,
}

-- A handled message leaves the one table and gives the one reply.
Serves-inv :
    (table : HashTable) (b : ℕ) (lock : BlockLock) {t : HashTable} {r r' : Reply}
    {result : Option Handled}
    → Serves table b lock r result
    → result ≡ some (record { table = some t; reply = r' })
    → (r ≡ r')
      × HasSlots t
      × ((j : ℕ)
          → get_key_value (some t) (pos j)
            ≡ (if b == j then some (value_of lock) else get_key_value (some table) (pos j)))
Serves-inv table b lock {t} (t', e, slots, found) e' =
    let same : t' ≡ t = cc in
    let (slots', found') = subst Kept same (slots, found) in (cc, slots', found')
  where
    Kept : HashTable → Type 0
    Kept u =
        HasSlots u
        × ((j : ℕ)
            → get_key_value (some u) (pos j)
              ≡ (if b == j then some (value_of lock) else get_key_value (some table) (pos j)))

-- A message on block b, after which client i stands at c: the counts go on if they do on b,
-- whatever the lock was, and the move is neutral on every other block.
module _ (n i x b : ℕ) (s : System) (c : Client) (msg : Message) (t : HashTable) (r : Reply)
    (inv : Inv n s) (i_lt : i < n) (range : x < 2 ^ 32) (ind : x % 4 ≡ indicator msg)
    (block : x / 4 ≡ b)
    (handled : handle_lock true (some s.table) x ≡ some (record { table = some t; reply = r }))
    (here : (lock : BlockLock)
      → reply msg lock ≡ r
      → ((m : Mode) → granted m b (s.clients i) ≤ holders m lock)
      → (m : Mode)
      → granted m b c + holders m lock ≡ holders m (next msg lock) + granted m b (s.clients i))
    (elsewhere : (m : Mode) (j : ℕ) → j ≢ b → granted m j c ≡ granted m j (s.clients i)) where
  module _ (lock : BlockLock) (value : get_key_value (some s.table) (pos b) ≡ some (value_of lock))
      (readers : total (granted reader b) n s.clients ≡ holders reader lock)
      (writers : total (granted writer b) n s.clients ≡ holders writer lock) where
    served :
        (reply msg lock ≡ r)
        × HasSlots t
        × ((j : ℕ)
            → get_key_value (some t) (pos j) ≡ (
                if b == j
                then some (value_of (next msg lock))
                else get_key_value (some s.table) (pos j)))
    served =
        Serves-inv s.table b (next msg lock)
          (subst
            (λ k.
              Serves s.table k (next msg lock) (reply msg lock) (handle_lock true (some s.table) x))
            block
            (handle_lock_refines msg lock s.table x inv.slots range ind (
              subst (λ k. get_key_value (some s.table) (pos k) ≡ some (value_of lock)) (sym block)
                value)))
          handled

    enough : (m : Mode) → granted m b (s.clients i) ≤ holders m lock
    enough reader = omega (arith, weight-le-total (granted reader b) n i s.clients i_lt)
    enough writer = omega (arith, weight-le-total (granted writer b) n i s.clients i_lt)

    here_total :
        (m : Mode)
        → total (granted m b) n s.clients ≡ holders m lock
        → total (granted m b) n (update s.clients i c) ≡ holders m (next msg lock)
    here_total m before =
        omega (arith, total-update (granted m b) n i s.clients c i_lt, here lock served.0 enough m)

    counted : (j : ℕ) → Counts n t (update s.clients i c) j
    counted j = elim (ℕ_discrete b j) [
      | yes own ↦ subst (Counts n t (update s.clients i c)) own (
        next msg lock,
        ground (arith, served.2 b),
        here_total reader readers,
        here_total writer writers,
      )
      | no other ↦
          let (lock', value', readers', writers') = inv.counts j in
          (
            lock',
            ground (arith, served.2 j),
            total-neutral n i s.clients c reader j i_lt (elsewhere reader j (λ e. other (sym e)))
                ∙ readers',
            total-neutral n i s.clients c writer j i_lt (elsewhere writer j (λ e. other (sym e)))
                ∙ writers',
          )
    ]

  handled-Inv : Inv n (record { table = t; clients = update s.clients i c })
  handled-Inv =
      let (lock, value, readers, writers) = inv.counts b in
      record {
        slots = (served lock value readers writers).1;
        counts = counted lock value readers writers;
      }

abbrev pub request_of : Mode → Message
request_of reader = read
request_of writer = write

-- The counts over a handled request and over a handled release.
request_counts :
    (m : Mode) (b r : ℕ) (lock : BlockLock)
    → reply (request_of m) lock ≡ answer r
    → (k : Mode)
    → granted k b (told m b r) + holders k lock ≡ holders k (next (request_of m) lock) + 0
request_counts reader b r unused e reader = ground arith
request_counts reader b r unlocked e reader = ground arith
request_counts reader b r written e reader = ground arith
request_counts m b r lock e k = ground arith

release_counts :
    (m : Mode) (b : ℕ) (lock : BlockLock)
    → ((k : Mode) → one_if (same_mode k m) ≤ holders k lock)
    → (k : Mode) → holders k lock ≡ holders k (next release lock) + one_if (same_mode k m)
release_counts reader b unused h k = absurd (omega (arith, h reader))
release_counts reader b unlocked h k = absurd (omega (arith, h reader))
release_counts reader b written h k = absurd (omega (arith, h reader))
release_counts reader b (reading zero) h reader = omega arith
release_counts reader b (reading zero) h writer = omega arith
release_counts reader b (reading (suc j)) h reader = omega arith
release_counts reader b (reading (suc j)) h writer = omega arith
release_counts writer b unused h k = absurd (omega (arith, h writer))
release_counts writer b unlocked h k = absurd (omega (arith, h writer))
release_counts writer b written h reader = omega arith
release_counts writer b written h writer = omega arith
release_counts writer b (reading j) h k = absurd (omega (arith, h writer))

-- The server reads the block and the kind of a request back.
pub message_fields :
    (b : ℕ) (m : Mode)
    → b < 2 ^ 30
    → (message b (lock_of m) < 2 ^ 32)
      × (message b (lock_of m) % 4 ≡ indicator (request_of m))
      × (message b (lock_of m) / 4 ≡ b)
message_fields b reader small = omega (arith, message-eq_sum b 1 small (omega arith))
message_fields b writer small = omega (arith, message-eq_sum b 2 small (omega arith))

-- The server handles a request of client i, and answers.
pub request-Inv :
    {n : ℕ} (i b r : ℕ) (s : System) (m : Mode) (t : HashTable)
    → Inv n s
    → i < n
    → b < 2 ^ 30
    → s.clients i ≡ asking m b
    → handle_lock true (some s.table) (message b (lock_of m))
      ≡ some (record { table = some t; reply = answer r })
    → Inv n (record { table = t; clients = update s.clients i (told m b r) })
request-Inv {n} i b r s m t inv lt small at handled =
    let (range, ind, block) = message_fields b m small in
    handled-Inv n i (message b (lock_of m)) b s (told m b r) (request_of m) t (answer r) inv lt
      range ind block handled (λ lock e low k. rw at (request_counts m b r lock e k))
      (λ k j ne. rw at (ground arith))

-- The server handles a release of client i, which stands at `before` until then.
pub release-Inv :
    {n : ℕ} (i b : ℕ) (s : System) (m : Mode) (before after : Client) (t : HashTable)
    → Inv n s
    → i < n
    → b < 2 ^ 30
    → s.clients i ≡ before
    → ((k : Mode) (j : ℕ) → granted k j before ≡ one_if (same_mode k m && j == b))
    → ((k : Mode) (j : ℕ) → granted k j after ≡ 0)
    → handle_lock true (some s.table) (releaselock b)
      ≡ some (record { table = some t; reply = no_answer })
    → Inv n (record { table = t; clients = update s.clients i after })
unfolding releaselock
release-Inv {n} i b s m before after t inv lt small at had has handled =
    handled-Inv n i (message b 0) b s after release t no_answer inv lt (omega (arith, sum))
      (omega (arith, sum)) (omega (arith, sum)) handled
      (λ lock e low k.
        omega
          (arith, has k b, held k, release_counts m b lock (λ k. omega (arith, held k, low k)) k))
      (λ k j ne. rw at (ground (arith, had k j, has k j)))
  where
    sum : message b 0 ≡ 4 * b + 0
    sum = message-eq_sum b 0 small (omega arith)

    held : (k : Mode) → granted k b (s.clients i) ≡ one_if (same_mode k m)
    held k = ap (granted k b) at ∙ had k b ∙ ground arith
