-- ===== src/LockService/Keeps.antt =====
-- handle_lock stays inside the table and keeps it valid.
use pmem_program.Base.{
  ℕ, ◌≡◌, refl, Bool, true, false, ◌&&◌, not, Option, some, if◌then◌else◌, Option-cases, inl, inr,
}
use pmem_program.Base.Int.{ℤ, pos, negsuc, ◌==ℤ◌}
use pmem_program.HashKv.{HashTable, get_key_value}
use pmem_program.HashKv.Lookup.{pos-InRange, get_key_value-eq_none}
use pmem_program.HashKv.Valid.{IsValid, set_key_value-IsValid}
use pmem_program.LockService.{
  Reply, answer, no_answer, aborted, Handled, blockid_of, store, on_write, on_read, on_release,
  handle_lock, shl1, dec, shr1,
}

-- The result is there, with a valid table.
abbrev pub Keeps : Option Handled → Type 0
Keeps result =
    (handled : Handled) × (table : HashTable) × (result ≡ some handled)
    × (handled.table ≡ some table)
    × IsValid table

module _ (malloc_ok : Bool) (table : HashTable) (valid : IsValid table) (b : ℕ) (value : ℤ) where
  store-Keeps : (v : ℤ) (r : Reply) → Keeps (store malloc_ok (some table) (pos b) v r)
  unfolding store
  store-Keeps v r =
      let (table', stored, valid') =
        set_key_value-IsValid malloc_ok table (pos b) v valid (pos-InRange b) in
      let whole : store malloc_ok (some table) (pos b) v r
          ≡ some (record { table = some table'; reply = r }) =
        rw (store, stored) in
      (record { table = some table'; reply = r }, table', whole, refl, valid')

  kept-Keeps : (r : Reply) → Keeps (some (record { table = some table; reply = r }))
  kept-Keeps r = (record { table = some table; reply = r }, table, refl, refl, valid)

  either-Keeps : (t : Bool) (x y : Option Handled) → Keeps x → Keeps y → Keeps (if t then x else y)
  either-Keeps true x y h k = h
  either-Keeps false x y h k = k

  on_write-Keeps : Keeps (on_write malloc_ok (some table) (pos b) value)
  unfolding on_write
  on_write-Keeps = either-Keeps _ _ _ (store-Keeps (pos 1) (answer 1)) (kept-Keeps (answer 0))

  on_read-Keeps : Keeps (on_read malloc_ok (some table) (pos b) value)
  unfolding on_read
  on_read-Keeps = either-Keeps _ _ _ (kept-Keeps (answer 0)) (store-Keeps _ (answer 1))

  on_release-Keeps : Keeps (on_release malloc_ok (some table) (pos b) value)
  unfolding on_release
  on_release-Keeps = either-Keeps (value ==ℤ pos 1) _ _ (store-Keeps (pos 0) no_answer) (
      either-Keeps (not (value ==ℤ pos 0) && not (value ==ℤ negsuc 0)) _ _
        (store-Keeps (shl1 (dec (shr1 value))) no_answer) (kept-Keeps no_answer))

-- handle_lock answers every message, on a valid table, and leaves a valid table.
pub handle_lock-Keeps :
    (malloc_ok : Bool) (table : HashTable) (x : ℕ)
    → IsValid table
    → Keeps (handle_lock malloc_ok (some table) x)
unfolding handle_lock
handle_lock-Keeps malloc_ok table x valid =
    elim (Option-cases (get_key_value (some table) (pos (blockid_of x)))) [
      | inl missing ↦
          let (n, negative, rest) =
            (get_key_value-eq_none table (pos (blockid_of x)) valid.slots).0 missing in
          absurd (cc negative)
      | inr (value, found) ↦
          rw (handle_lock, found)
            (either-Keeps malloc_ok table valid (blockid_of x) value _ _ _
              (on_write-Keeps malloc_ok table valid (blockid_of x) value)
              (either-Keeps malloc_ok table valid (blockid_of x) value _ _ _
                (on_read-Keeps malloc_ok table valid (blockid_of x) value)
                (either-Keeps malloc_ok table valid (blockid_of x) value _ _ _
                  (on_release-Keeps malloc_ok table valid (blockid_of x) value)
                  (kept-Keeps malloc_ok table valid (blockid_of x) value aborted))))
    ]
