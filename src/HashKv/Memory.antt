-- ===== src/HashKv/Memory.antt =====
-- The memory of the table: freeHashTable frees every node that setKeyValue has allocated.
use pmem_program.Base.{
  ℕ, zero, suc, ◌+◌, ◌≡◌, refl, ap, true, some, List, [], ◌∷◌, if◌then◌else◌, length, get_elem?,
  set, length-append, get_elem?-is_some, arith,
}
use pmem_program.Base.Int.{ℤ}
use pmem_program.HashKv.{
  Node, HashTable, hash_function, set_chain, set_key_value, free_chains, free_hash_table,
}
use pmem_program.HashKv.Chain.{has_key, length-set_chain}
use pmem_program.HashKv.Lookup.{HasSlots, InRange, stored}

-- Storing a chain changes the count of nodes by what that chain gains.
free_chains-set :
    (chains : List (List Node)) (i : ℕ) {old : List Node} (new : List Node)
    → get_elem? chains i ≡ some old
    → length (free_chains (set chains i new)) + length old
      ≡ length (free_chains chains) + length new
unfolding free_chains
free_chains-set [] i new e = cc
free_chains-set (chain ∷ rest) zero {old} new e =
    let same : chain ≡ old = cc e in
    omega (
      arith,
      length-append new (free_chains rest),
      length-append chain (free_chains rest),
      ap length same,
    )
free_chains-set (chain ∷ rest) (suc i) {old} new e = omega (
  arith,
  length-append chain (free_chains (set rest i new)),
  length-append chain (free_chains rest),
  free_chains-set rest i new e,
)

-- In a table with its slots, storing at a key whose index lies among them, with memory for a node,
-- adds one node to those that freeHashTable frees if the key was not in its chain and none if it
-- was; and freeHashTable frees the table too.
pub free_hash_table-set_key_value :
    (table : HashTable) (key value : ℤ)
    → HasSlots table
    → InRange key
    → (table' : HashTable) × (chain : List Node) × (get_elem? table.list (hash_function key)
        ≡ some chain)
      × (set_key_value true (some table) key value ≡ some (some table'))
      × (length (free_hash_table (some table')).0
          ≡ length (free_hash_table (some table)).0 + (if has_key chain key then 0 else 1))
      × ((free_hash_table (some table')).1 ≡ true)
unfolding set_key_value free_hash_table
free_hash_table-set_key_value table key value slots in_range =
    let (chain, e) = get_elem?-is_some table.list (hash_function key) (omega arith) in
    (
      stored true table key value chain,
      chain,
      e,
      ground arith,
      omega (
        arith,
        free_chains-set table.list (hash_function key) (set_chain true chain key value) e,
        length-set_chain chain key value,
      ),
      refl,
    )
