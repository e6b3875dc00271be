-- ===== src/Tests/Tables.antt =====
-- The hash table on small inputs.
use pmem_program.Base.{
  ℕ, ◌+◌, ◌%◌, ◌≡◌, ◌≢◌, ◌↔◌, refl, true, false, none, some, List, [], length, get_elem?, replicate,
  if◌then◌else◌,
}
use pmem_program.Base.Int.{ℤ, pos, negsuc, ◌==ℤ◌}
use pmem_program.HashKv.{
  Node, HashTable, table_size, hash_function, create_hash_table, set_key_value, get_key_value,
  free_hash_table,
}
use pmem_program.HashKv.Chain.{has_key}
use pmem_program.HashKv.Lookup.{
  HasSlots, pos-InRange, get_key_value-set_key_value, get_key_value-set_key_value_no_memory,
  get_key_value-eq_none,
}
use pmem_program.HashKv.Valid.{IsValid, set_key_value-IsValid, create_hash_table-IsValid}
use pmem_program.HashKv.Memory.{free_hash_table-set_key_value}

abbrev fresh : HashTable
fresh = record { list = replicate table_size [] }

fresh-created : create_hash_table true ≡ some fresh
unfolding create_hash_table
fresh-created = refl

create_hash_table-IsValid_example : IsValid fresh
create_hash_table-IsValid_example = create_hash_table-IsValid true fresh fresh-created

get_key_value-set_key_value_example :
    (table : HashTable) × (set_key_value true (some fresh) (pos 7) (pos 1) ≡ some (some table))
    × HasSlots table
    × ((j : ℤ)
        → get_key_value (some table) j
          ≡ (if pos 7 ==ℤ j then some (pos 1) else get_key_value (some fresh) j))
get_key_value-set_key_value_example =
    get_key_value-set_key_value fresh (pos 7) (pos 1) refl (pos-InRange 7)

get_key_value-set_key_value_no_memory_example :
    (table : HashTable) × (chain : List Node) × (get_elem? fresh.list (hash_function (pos 7))
      ≡ some chain)
    × (set_key_value false (some fresh) (pos 7) (pos 1) ≡ some (some table))
    × (get_key_value (some table) (pos 7) ≡ (
        if has_key chain (pos 7)
        then (if pos 7 ==ℤ pos 7 then some (pos 1) else get_key_value (some fresh) (pos 7))
        else get_key_value (some fresh) (pos 7)))
get_key_value-set_key_value_no_memory_example =
    get_key_value-set_key_value_no_memory fresh (pos 7) (pos 1) (pos 7) refl (pos-InRange 7)

get_key_value-eq_none_example :
    (get_key_value (some fresh) (negsuc 4) ≡ none)
    ↔ ((n : ℕ) × (negsuc 4 ≡ negsuc n) × ((n + 1) % table_size ≢ 0))
get_key_value-eq_none_example = get_key_value-eq_none fresh (negsuc 4) refl

set_key_value-IsValid_example :
    (table : HashTable) × (set_key_value true (some fresh) (pos 263) (pos 2) ≡ some (some table))
    × IsValid table
set_key_value-IsValid_example =
    set_key_value-IsValid true fresh (pos 263) (pos 2)
      (create_hash_table-IsValid true fresh fresh-created) (pos-InRange 263)

free_hash_table-set_key_value_example :
    (table : HashTable) × (chain : List Node) × (get_elem? fresh.list (hash_function (pos 7))
      ≡ some chain)
    × (set_key_value true (some fresh) (pos 7) (pos 1) ≡ some (some table))
    × (length (free_hash_table (some table)).0
        ≡ length (free_hash_table (some fresh)).0 + (if has_key chain (pos 7) then 0 else 1))
    × ((free_hash_table (some table)).1 ≡ true)
free_hash_table-set_key_value_example =
    free_hash_table-set_key_value fresh (pos 7) (pos 1) refl (pos-InRange 7)
