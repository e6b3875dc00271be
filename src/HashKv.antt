-- ===== src/HashKv.antt =====
-- cxl_memory_sharing/hash_kv.h and hash_kv.c: the chained hash table of the lock service.
-- A pointer that may be NULL is an `Option`, a chain of nodes is a list from its head on, and a
-- function that changes the table returns it. `malloc` is not part of the program: each call of
-- it is an argument that says whether it gives memory. Where the code would index the array
-- of chains out of its bounds the result is `none`.
pub mod Chain
pub mod Lookup
pub mod Valid
pub mod Memory
use pmem_program.Base.{
  ℕ, zero, suc, ◌+◌, ◌-◌, ◌%◌, ◌^◌, Bool, true, false, Option, none, some, List, [], ◌∷◌, ◌++◌,
  if◌then◌else◌, length, get_elem?, set, replicate,
}
use pmem_program.Base.Words.{u64}
use pmem_program.Base.Int.{ℤ, pos, negsuc, ◌==ℤ◌}

-- TABLE_SIZE
abbrev pub table_size : ℕ
table_size = 256

-- struct Node, without its `next`
pub record Node : Type 0 where
  pub key : ℤ
  pub value : ℤ

-- HashTable
pub record HashTable : Type 0 where
  pub list : List (List Node)

-- hashFunction: C's remainder has the sign of `key`, and the result is converted to an
-- unsigned 64-bit number.
unfoldable pub hash_function : ℤ → ℕ
hash_function (pos n) = n % table_size
hash_function (negsuc n) = u64 (2 ^ 64 - (n + 1) % table_size)

-- createHashTable
unfoldable pub create_hash_table : Bool → Option HashTable
create_hash_table malloc_ok =
    if malloc_ok then some (record { list = replicate table_size [] }) else none

-- The first loop of setKeyValue: `none` when it reaches the end without meeting the key.
unfoldable pub update_node : List Node → ℤ → ℤ → Option (List Node)
update_node [] key value = none
update_node (node ∷ rest) key value =
    let later : Option (List Node) = elim (update_node rest key value) [
      | none ↦ none
      | some rest' ↦ some (node ∷ rest')
    ] in
    if node.key ==ℤ key then some (record node { value = value } ∷ rest) else later

-- setKeyValue on the chain that the key belongs to: update, else a new node at the head.
unfoldable pub set_chain : Bool → List Node → ℤ → ℤ → List Node
unfolding update_node
set_chain malloc_ok chain key value = elim (update_node chain key value) [
  | some chain' ↦ chain'
  | none ↦ if malloc_ok then record { key = key; value = value } ∷ chain else chain
]

-- setKeyValue
unfoldable pub set_key_value : Bool → Option HashTable → ℤ → ℤ → Option (Option HashTable)
unfolding set_chain hash_function
set_key_value malloc_ok none key value = some none
set_key_value malloc_ok (some table) key value =
    let index = hash_function key in
    elim (get_elem? table.list index) [
      | none ↦ none
      | some chain ↦
          some (some (record { list = set table.list index (set_chain malloc_ok chain key value) }))
    ]

-- The loop of getKeyValue: -1 at the end of the chain.
unfoldable pub find_node : List Node → ℤ → ℤ
find_node [] key = negsuc 0
find_node (node ∷ rest) key = if node.key ==ℤ key then node.value else find_node rest key

-- getKeyValue
unfoldable pub get_key_value : Option HashTable → ℤ → Option ℤ
unfolding find_node hash_function
get_key_value none key = some (negsuc 0)
get_key_value (some table) key = elim (get_elem? table.list (hash_function key)) [
  | none ↦ none
  | some chain ↦ some (find_node chain key)
]

-- The loops of freeHashTable: the nodes that it frees, in order.
unfoldable pub free_chains : List (List Node) → List Node
free_chains [] = []
free_chains (chain ∷ rest) = chain ++ free_chains rest

-- freeHashTable: the nodes freed, and whether the table itself is freed after them.
unfoldable pub free_hash_table : Option HashTable → List Node × Bool
unfolding free_chains
free_hash_table none = ([], false)
free_hash_table (some table) = (free_chains table.list, true)
