-- ===== src/LockSystem/Invariant/Count.antt =====
-- How many clients have been granted a block, and how a client's move changes that.
use pmem_program.Base.{ℕ, ◌+◌, ◌<◌, ◌≡◌, Bool, true, false, ◌&&◌, some, ◌==◌, arith, ◌∙◌}
use pmem_program.Base.Int.{pos}
use pmem_program.HashKv.{HashTable, get_key_value}
use pmem_program.HashKv.Lookup.{HasSlots}
use pmem_program.LockService.Value.{BlockLock, written, reading, value_of}
use pmem_program.LockSystem.{
  Mode, reader, writer, Client, idle, asking, told, holding, releasing, queued, System,
}
use pmem_program.LockSystem.Family.{update, total, total-update}

abbrev pub same_mode : Mode → Mode → Bool
same_mode reader reader = true
same_mode writer writer = true
same_mode _ _ = false

abbrev pub one_if : Bool → ℕ
one_if true = 1
one_if false = 0

-- 1 for a client that the server has granted the lock of the mode on the block, from the moment
-- of its answer until it handles the release.
abbrev pub granted : Mode → ℕ → Client → ℕ
granted m b idle = 0
granted m b (asking m' b') = 0
granted m b (told m' b' r) = one_if (r == 1 && (same_mode m m' && b == b'))
granted m b (holding m' b') = one_if (same_mode m m' && b == b')
granted m b (releasing m' b') = one_if (same_mode m m' && b == b')
granted m b (queued m' b' m'' b'') = one_if (same_mode m m' && b == b')

abbrev pub holders : Mode → BlockLock → ℕ
holders reader (reading k) = k + 1
holders reader _ = 0
holders writer written = 1
holders writer _ = 0

-- The number of block `b` stands for a lock with as many holders of each mode as were granted it.
abbrev pub Counts : ℕ → HashTable → (ℕ → Client) → ℕ → Type 0
Counts n table clients b =
    (lock : BlockLock) × (get_key_value (some table) (pos b) ≡ some (value_of lock))
    × (total (granted reader b) n clients ≡ holders reader lock)
    × (total (granted writer b) n clients ≡ holders writer lock)

pub record Inv (n : ℕ) (s : System) : Type 0 where
  pub slots : HasSlots s.table
  pub counts : (b : ℕ) → Counts n s.table s.clients b

-- A move that grants and releases nothing keeps every count.
pub total-neutral :
    (n i : ℕ) (clients : ℕ → Client) (c : Client) (m : Mode) (b : ℕ)
    → i < n
    → granted m b c ≡ granted m b (clients i)
    → total (granted m b) n (update clients i c) ≡ total (granted m b) n clients
total-neutral n i clients c m b h e = omega (arith, total-update (granted m b) n i clients c h)

pub neutral-Inv :
    {n : ℕ} {s : System} (i : ℕ) (c : Client)
    → Inv n s
    → i < n
    → ((m : Mode) (b : ℕ) → granted m b c ≡ granted m b (s.clients i))
    → Inv n (record { table = s.table; clients = update s.clients i c })
neutral-Inv {n} {s} i c inv h e = record {
  slots = inv.slots;
  counts = λ b.
      let (lock, value, readers, writers) = inv.counts b in
      (
        lock,
        value,
        total-neutral n i s.clients c reader b h (e reader b) ∙ readers,
        total-neutral n i s.clients c writer b h (e writer b) ∙ writers,
      );
}
