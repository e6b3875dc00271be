-- ===== src/HashKv/Chain.antt =====
-- Facts about one chain: what a lookup finds after a store, and its length and keys.
use pmem_program.Base.{
  ◌+◌, ◌≡◌, refl, Bool, true, false, none, some, List, [], ◌∷◌, if◌then◌else◌, length, arith, inl,
  inr, Bool-cases, Option-cases,
}
use pmem_program.Base.Int.{ℤ, ◌==ℤ◌, ==ℤ_iff}
use pmem_program.HashKv.{Node, update_node, set_chain, find_node}

-- Whether the chain has a node with the key.
abbrev pub has_key : List Node → ℤ → Bool
has_key [] key = false
has_key (node ∷ rest) key = if node.key ==ℤ key then true else has_key rest key

pub update_node-has_key :
    (chain : List Node) (key value : ℤ)
    → has_key chain key ≡ true
    → (chain' : List Node) × (update_node chain key value ≡ some chain')
unfolding update_node
update_node-has_key [] key value h = cc
update_node-has_key (node ∷ rest) key value h = elim (Bool-cases (node.key ==ℤ key)) [
  | inl same ↦ (record node { value = value } ∷ rest, rw same)
  | inr other ↦
      let (rest', e) = update_node-has_key rest key value (ground arith) in
      (node ∷ rest', ground arith)
]

pub update_node-no_key :
    (chain : List Node) (key value : ℤ)
    → has_key chain key ≡ false
    → update_node chain key value ≡ none
unfolding update_node
update_node-no_key [] key value h = refl
update_node-no_key (node ∷ rest) key value h = ground (arith, update_node-no_key rest key value)

find_node-update_node :
    (chain : List Node) {chain' : List Node} (key value j : ℤ)
    → update_node chain key value ≡ some chain'
    → find_node chain' j ≡ (if key ==ℤ j then value else find_node chain j)
unfolding update_node find_node
find_node-update_node [] key value j h = cc
find_node-update_node (node ∷ rest) key value j h =
    elim (Option-cases (update_node rest key value)) [
      | inl missing ↦ ground (arith, ==ℤ_iff node.key key, ==ℤ_iff node.key j, ==ℤ_iff key j)
      | inr (rest', e) ↦ ground (
        arith,
        ==ℤ_iff node.key key,
        ==ℤ_iff node.key j,
        ==ℤ_iff key j,
        find_node-update_node rest key value j e,
      )
    ]

-- A lookup after a store that finds its key or memory for a node.
pub find_node-set_chain :
    (chain : List Node) (key value j : ℤ)
    → find_node (set_chain true chain key value) j
      ≡ (if key ==ℤ j then value else find_node chain j)
unfolding set_chain find_node
find_node-set_chain chain key value j = elim (Option-cases (update_node chain key value)) [
  | inl missing ↦ ground arith
  | inr (chain', e) ↦ ground (arith, find_node-update_node chain key value j e)
]

-- A store with no memory for a node still updates a key that is there, and else does nothing.
pub find_node-set_chain_no_memory :
    (chain : List Node) (key value j : ℤ)
    → find_node (set_chain false chain key value) j ≡ (
        if has_key chain key
        then (if key ==ℤ j then value else find_node chain j)
        else find_node chain j)
unfolding set_chain find_node
find_node-set_chain_no_memory chain key value j = elim (Bool-cases (has_key chain key)) [
  | inl there ↦
      let (chain', e) = update_node-has_key chain key value there in
      ground (arith, find_node-update_node chain key value j e)
  | inr missing ↦ ground (arith, update_node-no_key chain key value missing)
]

-- The number of nodes.
pub length-update_node :
    (chain : List Node) {chain' : List Node} (key value : ℤ)
    → update_node chain key value ≡ some chain'
    → length chain' ≡ length chain
unfolding update_node
length-update_node [] key value h = cc
length-update_node (node ∷ rest) key value h = elim (Option-cases (update_node rest key value)) [
  | inl missing ↦ ground arith
  | inr (rest', e) ↦ ground (arith, length-update_node rest key value e)
]

pub length-set_chain :
    (chain : List Node) (key value : ℤ)
    → length (set_chain true chain key value) ≡ length chain + (if has_key chain key then 0 else 1)
unfolding set_chain
length-set_chain chain key value = elim (Bool-cases (has_key chain key)) [
  | inl there ↦
      let (chain', e) = update_node-has_key chain key value there in
      ground (arith, length-update_node chain key value e)
  | inr missing ↦ ground (arith, update_node-no_key chain key value missing)
]

-- The keys: a store adds its own key and keeps the others.
pub has_key-update_node :
    (chain : List Node) {chain' : List Node} (key value j : ℤ)
    → update_node chain key value ≡ some chain'
    → has_key chain' j ≡ has_key chain j
unfolding update_node
has_key-update_node [] key value j h = cc
has_key-update_node (node ∷ rest) key value j h = elim (Option-cases (update_node rest key value)) [
  | inl missing ↦ ground arith
  | inr (rest', e) ↦ ground (arith, has_key-update_node rest key value j e)
]
