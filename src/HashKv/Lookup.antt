-- ===== src/HashKv/Lookup.antt =====
-- What getKeyValue returns after createHashTable and after setKeyValue.
use pmem_program.Base.{
  ℕ, ◌+◌, ◌%◌, ◌<◌, ◌≤◌, ◌≡◌, ◌≢◌, ◌↔◌, refl, sym, ap, ◌∙◌, Bool, true, false, none, some, List,
  if◌then◌else◌, length, get_elem?, set, length-set, get_elem?-set_self, get_elem?-set_ne,
  get_elem?-is_some, get_elem?-eq_none, get_elem?-replicate, length-replicate, [], arith, inl, inr,
  Bool-cases, ℕ_discrete,
}
use mathlib.Core.Option.{some-injective}
use mathlib.Core.Path.{subst}
use pmem_program.Base.Int.{ℤ, pos, negsuc, ◌==ℤ◌, ==ℤ_iff}
use pmem_program.HashKv.{
  Node, HashTable, table_size, hash_function, create_hash_table, set_chain, set_key_value,
  find_node, get_key_value,
}
use pmem_program.HashKv.Chain.{has_key, find_node-set_chain, find_node-set_chain_no_memory}

-- The table has its array, and the key's index lies in it.
abbrev pub HasSlots : HashTable → Type 0
HasSlots table = length table.list ≡ table_size

abbrev pub InRange : ℤ → Type 0
InRange key = hash_function key < table_size

pub pos-InRange : (n : ℕ) → InRange (pos n)
unfolding hash_function
pos-InRange n = omega arith

chain_of :
    (table : HashTable) (key : ℤ)
    → HasSlots table
    → InRange key
    → (chain : List Node) × (get_elem? table.list (hash_function key) ≡ some chain)
chain_of table key slots in_range = get_elem?-is_some table.list (hash_function key) (omega arith)

get_key_value-of_chain :
    (table : HashTable) (key : ℤ) {chain : List Node}
    → get_elem? table.list (hash_function key) ≡ some chain
    → get_key_value (some table) key ≡ some (find_node chain key)
unfolding get_key_value
get_key_value-of_chain table key e = ground arith

-- The table that a store leaves.
abbrev pub stored : Bool → HashTable → ℤ → ℤ → List Node → HashTable
stored malloc_ok table key value chain = record {
  list = set table.list (hash_function key) (set_chain malloc_ok chain key value);
}

set_key_value-of_chain :
    (malloc_ok : Bool) (table : HashTable) (key value : ℤ) {chain : List Node}
    → get_elem? table.list (hash_function key) ≡ some chain
    → set_key_value malloc_ok (some table) key value
      ≡ some (some (stored malloc_ok table key value chain))
unfolding set_key_value
set_key_value-of_chain malloc_ok table key value e = ground arith

module _ (malloc_ok : Bool) (table : HashTable) (key value j : ℤ) (slots : HasSlots table)
    (in_key : InRange key) {chain : List Node}
    (e : get_elem? table.list (hash_function key) ≡ some chain) where
  same_slot :
      hash_function key ≡ hash_function j
      → (get_key_value (some (stored malloc_ok table key value chain)) j
          ≡ some (find_node (set_chain malloc_ok chain key value) j))
        × (get_key_value (some table) j ≡ some (find_node chain j))
  same_slot same = (
    get_key_value-of_chain (stored malloc_ok table key value chain) j (
        ap (get_elem? (stored malloc_ok table key value chain).list) (sym same)
        ∙ get_elem?-set_self table.list (hash_function key) _ (omega arith)),
    get_key_value-of_chain table j (ap (get_elem? table.list) (sym same) ∙ e),
  )

  other_slot :
      hash_function key ≢ hash_function j
      → get_key_value (some (stored malloc_ok table key value chain)) j
        ≡ get_key_value (some table) j
  unfolding get_key_value
  other_slot other = ground (
    arith,
    get_elem?-set_ne table.list (hash_function key) (hash_function j)
        (set_chain malloc_ok chain key value) other,
  )

other_keys : (key j : ℤ) → hash_function key ≢ hash_function j → (key ==ℤ j) ≡ false
other_keys key j other = elim (Bool-cases (key ==ℤ j)) [
  | inl same ↦ absurd (other (ap hash_function ((==ℤ_iff key j).0 same)))
  | inr different ↦ different
]

-- In a table with its 256 slots, for a key whose index lies among them and with memory for a node,
-- setKeyValue stays inside the array and keeps its length, and after it getKeyValue returns the
-- value at that key and what it returned before at every other key.
pub get_key_value-set_key_value :
    (table : HashTable) (key value : ℤ)
    → HasSlots table
    → InRange key
    → (table' : HashTable) × (set_key_value true (some table) key value ≡ some (some table'))
      × HasSlots table'
      × ((j : ℤ)
          → get_key_value (some table') j
            ≡ (if key ==ℤ j then some value else get_key_value (some table) j))
get_key_value-set_key_value table key value slots in_key =
    let (chain, e) = chain_of table key slots in_key in
    (
      stored true table key value chain,
      set_key_value-of_chain true table key value e,
      length-set table.list (hash_function key) _ ∙ slots,
      λ j. elim (ℕ_discrete (hash_function key) (hash_function j)) [
        | yes same ↦ ground (
          arith,
          same_slot true table key value j slots in_key e same,
          find_node-set_chain chain key value j,
        )
        | no other ↦
            rw (other_keys key j other) (other_slot true table key value j slots in_key e other)
      ],
    )

-- In a table with its slots and for a key whose index lies among them, with no memory for a node
-- setKeyValue still updates a key that its chain has, and otherwise changes the result of no
-- lookup.
pub get_key_value-set_key_value_no_memory :
    (table : HashTable) (key value j : ℤ)
    → HasSlots table
    → InRange key
    → (table' : HashTable) × (chain : List Node) × (get_elem? table.list (hash_function key)
        ≡ some chain)
      × (set_key_value false (some table) key value ≡ some (some table'))
      × (get_key_value (some table') j ≡ (
          if has_key chain key
          then (if key ==ℤ j then some value else get_key_value (some table) j)
          else get_key_value (some table) j))
get_key_value-set_key_value_no_memory table key value j slots in_key =
    let (chain, e) = chain_of table key slots in_key in
    (
      stored false table key value chain,
      chain,
      e,
      set_key_value-of_chain false table key value e,
      elim (ℕ_discrete (hash_function key) (hash_function j)) [
        | yes same ↦ ground (
          arith,
          same_slot false table key value j slots in_key e same,
          find_node-set_chain_no_memory chain key value j,
        )
        | no other ↦
            rw (other_keys key j other)
              (ground (arith, other_slot false table key value j slots in_key e other))
      ],
    )

create_hash_table-HasSlots :
    (table : HashTable) → create_hash_table true ≡ some table → HasSlots table
unfolding create_hash_table
create_hash_table-HasSlots table e =
    subst HasSlots (some-injective _ _ e) (length-replicate {A = List Node} table_size [])

-- A fresh table has its slots, and a lookup in it of a key whose index lies among them gives -1,
-- the answer for a missing key.
pub get_key_value-create_hash_table :
    (table : HashTable) (key : ℤ)
    → create_hash_table true ≡ some table
    → InRange key
    → HasSlots table × (get_key_value (some table) key ≡ some (negsuc 0))
unfolding create_hash_table get_key_value find_node
get_key_value-create_hash_table table key e in_range = (
  create_hash_table-HasSlots table e,
  subst (λ t. get_key_value (some t) key ≡ some (negsuc 0)) (some-injective _ _ e)
      (ground
        (arith, get_elem?-replicate {A = List Node} table_size [] (hash_function key) in_range)),
)

-- A lookup of a key in range stays inside the array.
found-of_InRange :
    (table : HashTable) (key : ℤ)
    → HasSlots table
    → InRange key
    → get_key_value (some table) key ≢ none
found-of_InRange table key slots in_range none_found =
    let (chain, e) = chain_of table key slots in_range in cc (get_key_value-of_chain table key e)

missing-of_out :
    (table : HashTable) (key : ℤ)
    → HasSlots table
    → table_size ≤ hash_function key
    → get_key_value (some table) key ≡ none
unfolding get_key_value
missing-of_out table key slots out =
    ground (arith, get_elem?-eq_none table.list (hash_function key) (omega arith))

negsuc-InRange : (n : ℕ) → (n + 1) % table_size ≡ 0 → InRange (negsuc n)
unfolding hash_function
negsuc-InRange n e = omega arith

negsuc-out : (n : ℕ) → (n + 1) % table_size ≢ 0 → table_size ≤ hash_function (negsuc n)
unfolding hash_function
negsuc-out n ne = omega arith

-- In a table with its slots, getKeyValue indexes outside the array exactly when the key is
-- negative and no multiple of TABLE_SIZE.
pub get_key_value-eq_none :
    (table : HashTable) (key : ℤ)
    → HasSlots table
    → (get_key_value (some table) key ≡ none)
      ↔ ((n : ℕ) × (key ≡ negsuc n) × ((n + 1) % table_size ≢ 0))
get_key_value-eq_none table (pos n) slots =
    (λ e. absurd (found-of_InRange table (pos n) slots (pos-InRange n) e), λ w. cc w.1)
get_key_value-eq_none table (negsuc n) slots = (
  λ e. elim (ℕ_discrete ((n + 1) % table_size) 0) [
    | yes multiple ↦ absurd (found-of_InRange table (negsuc n) slots (negsuc-InRange n multiple) e)
    | no other ↦ (n, refl, other)
  ],
  λ w.
      let same : n ≡ w.0 = cc w.1 in
      missing-of_out table (negsuc n) slots
        (negsuc-out n (λ z. w.2 (ap (λ m. (m + 1) % table_size) (sym same) ∙ z))),
)
