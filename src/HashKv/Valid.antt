-- ===== src/HashKv/Valid.antt =====
-- The representation invariant of the table: 256 chains, every node in the chain of its key's
-- index, and no key twice in a chain.
use pmem_program.Base.{
  ℕ, ◌≡◌, ap, sym, ◌∙◌, Bool, true, false, some, List, [], ◌∷◌, ◌&&◌, not, get_elem?, length-set,
  get_elem?-set_self, get_elem?-set_ne, get_elem?-is_some, length-replicate, arith, ◌⊎◌, inl, inr,
  replicate_only, Option-cases, Bool-cases, ℕ_discrete,
}
use mathlib.Core.Option.{some-injective}
use mathlib.Core.Path.{subst}
use pmem_program.Base.Int.{ℤ, ◌==ℤ◌, ==ℤ_iff}
use pmem_program.HashKv.{
  Node, HashTable, table_size, hash_function, create_hash_table, update_node, set_chain,
  set_key_value,
}
use pmem_program.HashKv.Chain.{
  has_key, update_node-has_key, update_node-no_key, has_key-update_node,
}
use pmem_program.HashKv.Lookup.{HasSlots, InRange, stored}

abbrev pub distinct_keys : List Node → Bool
distinct_keys [] = true
distinct_keys (node ∷ rest) = not (has_key rest node.key) && distinct_keys rest

pub record IsValid (table : HashTable) : Type 0 where
  pub slots : HasSlots table
  pub placed :
      (i : ℕ) (chain : List Node)
      → get_elem? table.list i ≡ some chain
      → (key : ℤ) → has_key chain key ≡ true
      → hash_function key ≡ i
  pub distinct :
      (i : ℕ) (chain : List Node) → get_elem? table.list i ≡ some chain → distinct_keys chain ≡ true

distinct_keys-update_node :
    (chain : List Node) {chain' : List Node} (key value : ℤ)
    → update_node chain key value ≡ some chain'
    → distinct_keys chain ≡ true
    → distinct_keys chain' ≡ true
unfolding update_node
distinct_keys-update_node [] key value h d = cc
distinct_keys-update_node (node ∷ rest) key value h d =
    elim (Option-cases (update_node rest key value)) [
      | inl missing ↦ ground arith
      | inr (rest', e) ↦ ground (
        arith,
        distinct_keys-update_node rest key value e,
        has_key-update_node rest key value node.key e,
      )
    ]

-- A store keeps the keys of a chain distinct, with memory for a node or not.
pub distinct_keys-set_chain :
    (malloc_ok : Bool) (chain : List Node) (key value : ℤ)
    → distinct_keys chain ≡ true
    → distinct_keys (set_chain malloc_ok chain key value) ≡ true
unfolding set_chain
distinct_keys-set_chain malloc_ok chain key value d = elim (Bool-cases (has_key chain key)) [
  | inl there ↦
      let (chain', e) = update_node-has_key chain key value there in
      ground (arith, distinct_keys-update_node chain key value e)
  | inr missing ↦ ground (arith, update_node-no_key chain key value missing)
]

-- A store adds no key to the chain but its own.
pub has_key-set_chain :
    (malloc_ok : Bool) (chain : List Node) (key value j : ℤ)
    → has_key (set_chain malloc_ok chain key value) j ≡ true
    → (key ==ℤ j) ≡ false
    → has_key chain j ≡ true
unfolding set_chain
has_key-set_chain malloc_ok chain key value j h other = elim (Bool-cases (has_key chain key)) [
  | inl there ↦
      let (chain', e) = update_node-has_key chain key value there in
      ground (arith, has_key-update_node chain key value j e)
  | inr missing ↦ ground (arith, update_node-no_key chain key value missing)
]

module _ (malloc_ok : Bool) (table : HashTable) (key value : ℤ) (valid : IsValid table)
    (in_range : InRange key) {chain : List Node}
    (e : get_elem? table.list (hash_function key) ≡ some chain) where
  -- A chain of the new table is the stored one, at its index, or an old one.
  chain_cases :
      (i : ℕ) (c : List Node)
      → get_elem? (stored malloc_ok table key value chain).list i ≡ some c
      → ((i ≡ hash_function key) × (c ≡ set_chain malloc_ok chain key value))
        ⊎ (get_elem? table.list i ≡ some c)
  chain_cases i c h = elim (ℕ_discrete (hash_function key) i) [
    | yes same ↦ inl (
      sym same,
      some-injective _ _ (
          sym h
          ∙ ap (get_elem? (stored malloc_ok table key value chain).list) (sym same)
          ∙ get_elem?-set_self table.list (hash_function key) _
              (omega (arith, valid.slots, in_range))),
    )
    | no other ↦ inr (sym (get_elem?-set_ne table.list (hash_function key) i _ other) ∙ h)
  ]

  stored-IsValid : IsValid (stored malloc_ok table key value chain)
  stored-IsValid = record {
    slots = length-set table.list (hash_function key) _ ∙ valid.slots;
    placed = λ i c h k there. elim (chain_cases i c h) [
      | inl (here, same) ↦ elim (Bool-cases (key ==ℤ k)) [
        | inl own ↦ sym (here ∙ ap hash_function ((==ℤ_iff key k).0 own))
        | inr other ↦
            valid.placed (hash_function key) chain e k
              (has_key-set_chain malloc_ok chain key value k (rw (← same) there) other)
            ∙ sym here
      ]
      | inr old ↦ valid.placed i c old k there
    ];
    distinct = λ i c h. elim (chain_cases i c h) [
      | inl (here, same) ↦ rw same (
          distinct_keys-set_chain malloc_ok chain key value
            (valid.distinct (hash_function key) chain e))
      | inr old ↦ valid.distinct i c old
    ];
  }

-- setKeyValue of a key whose index lies among the slots keeps the table's invariant, whether or
-- not malloc gives memory: 256 chains, every node in the chain of its key's index, and no key
-- twice in a chain.
pub set_key_value-IsValid :
    (malloc_ok : Bool) (table : HashTable) (key value : ℤ)
    → IsValid table
    → InRange key
    → (table' : HashTable) × (set_key_value malloc_ok (some table) key value ≡ some (some table'))
      × IsValid table'
unfolding set_key_value
set_key_value-IsValid malloc_ok table key value valid in_range =
    let (chain, e) =
      get_elem?-is_some table.list (hash_function key) (omega (arith, valid.slots, in_range)) in
    (
      stored malloc_ok table key value chain,
      ground arith,
      stored-IsValid malloc_ok table key value valid in_range e,
    )

nothing : {c : List Node} (k : ℤ) → [] ≡ c → has_key c k ≡ true → ⊥
nothing k e = subst (λ c. has_key c k ≡ true → ⊥) e (λ h. cc)

-- If createHashTable returns a table, the table satisfies the invariant.
pub create_hash_table-IsValid :
    (malloc_ok : Bool) (table : HashTable)
    → create_hash_table malloc_ok ≡ some table
    → IsValid table
unfolding create_hash_table
create_hash_table-IsValid false table h = cc
create_hash_table-IsValid true table h = subst IsValid (some-injective _ _ h) (record {
  slots = length-replicate {A = List Node} table_size [];
  placed = λ i c e k there. absurd (nothing k (replicate_only table_size [] i e) there);
  distinct = λ i c e. let empty : [] ≡ c = replicate_only table_size [] i e in rw (← empty);
})
