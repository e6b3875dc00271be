-- ===== src/FifoQueue/Heap.antt =====
-- The nodes of a queue in the heap: a chain of addresses from its head, and the values they hold.
use pmem_program.Base.{
  ℕ, zero, suc, ◌≤◌, ◌≡◌, ◌≢◌, refl, sym, ap, ap₂, ◌∙◌, Option, none, some, List, [], ◌∷◌, ◌++◌,
  arith, length,
}
use mathlib.Core.Option.{some-injective}
use pmem_program.Base.Int.{ℤ}
use pmem_program.FifoQueue.{QueueNode, QueueEnds, State, set_node, show_nodes}

-- No member of the list is the number.
abbrev pub Off : ℕ → List ℕ → Type 0
Off a [] = Unit {0}
Off a (x ∷ xs) = (a ≢ x) × Off a xs

abbrev pub Distinct : List ℕ → Type 0
Distinct [] = Unit {0}
Distinct (x ∷ xs) = Off x xs × Distinct xs

abbrev pub last : List ℕ → Option ℕ
last [] = none
last (x ∷ []) = some x
last (x ∷ y ∷ ys) = last (y ∷ ys)

-- The addresses from a pointer on, to the NULL behind the last one.
abbrev pub Linked : (ℕ → QueueNode) → Option ℕ → List ℕ → Type 0
Linked heap p [] = p ≡ none
Linked heap p (x ∷ xs) = (p ≡ some x) × Linked heap (heap x).next xs

abbrev pub values : (ℕ → QueueNode) → List ℕ → List ℤ
values heap [] = []
values heap (x ∷ xs) = (heap x).value ∷ values heap xs

pub record Holds (s : State) (nodes : List ℕ) : Type 0 where
  pub queue : QueueEnds
  pub there : s.pmem_queue ≡ some queue
  pub linked : Linked s.heap queue.head nodes
  pub ends : queue.tail ≡ last nodes
  pub distinct : Distinct nodes

pub set_node_other :
    (heap : ℕ → QueueNode) (a : ℕ) (node : QueueNode) (b : ℕ)
    → a ≢ b
    → set_node heap a node b ≡ heap b
set_node_other heap a node b ne = ground arith

pub set_node_self :
    (heap : ℕ → QueueNode) (a : ℕ) (node : QueueNode) → set_node heap a node a ≡ node
set_node_self heap a node = ground arith

pub Off-last : (x : ℕ) (xs : List ℕ) {t : ℕ} → Off x xs → last xs ≡ some t → x ≢ t
Off-last x [] h e = cc
Off-last x (y ∷ []) h e = λ same. h.0 (same ∙ sym (some-injective _ _ e))
Off-last x (y ∷ z ∷ zs) h e = Off-last x (z ∷ zs) h.1 e

pub Linked-set_node :
    (heap : ℕ → QueueNode) (p : Option ℕ) (xs : List ℕ) (a : ℕ) (node : QueueNode)
    → Off a xs
    → Linked heap p xs
    → Linked (set_node heap a node) p xs
Linked-set_node heap p [] a node off h = h
Linked-set_node heap p (x ∷ xs) a node (ne, off) (here, rest) = (
  here,
  rw (set_node_other heap a node x ne) (Linked-set_node heap (heap x).next xs a node off rest),
)

pub values-set_node :
    (heap : ℕ → QueueNode) (xs : List ℕ) (a : ℕ) (node : QueueNode)
    → Off a xs
    → values (set_node heap a node) xs ≡ values heap xs
values-set_node heap [] a node off = refl
values-set_node heap (x ∷ xs) a node (ne, off) =
    ap₂ (λ v vs. v ∷ vs) (ap (λ t. t.value) (set_node_other heap a node x ne))
      (values-set_node heap xs a node off)

pub values-append :
    (heap : ℕ → QueueNode) (xs : List ℕ) (n : ℕ)
    → values heap (xs ++ n ∷ []) ≡ values heap xs ++ (heap n).value ∷ []
values-append heap [] n = refl
values-append heap (x ∷ xs) n = ap (λ vs. (heap x).value ∷ vs) (values-append heap xs n)

-- A change of a node's pointer leaves every value.
pub values-next :
    (heap : ℕ → QueueNode) (xs : List ℕ) (a : ℕ) (next : Option ℕ)
    → values (set_node heap a (record (heap a) { next = next })) xs ≡ values heap xs
values-next heap [] a next = refl
values-next heap (x ∷ xs) a next = ap₂ (λ v vs. v ∷ vs) (value x) (values-next heap xs a next)
  where
    value : (x : ℕ) → (set_node heap a (record (heap a) { next = next }) x).value ≡ (heap x).value
    value x = ground arith

-- The assignment `tail->next=node` lengthens the chain by the node.
pub Linked-append :
    (heap : ℕ → QueueNode) (p : Option ℕ) (xs : List ℕ) (n t : ℕ)
    → Linked heap p xs
    → Distinct xs
    → last xs ≡ some t
    → Off n xs
    → (heap n).next ≡ none
    → Linked (set_node heap t (record (heap t) { next = some n })) p (xs ++ n ∷ [])
Linked-append heap p [] n t h d e off last_node = cc
Linked-append heap p (x ∷ []) n t (here, rest) d e (ne, off) last_node =
    let same : x ≡ t = some-injective _ _ e in
    let heap' = set_node heap t (record (heap t) { next = some n }) in
    (
      here,
      (
        (let l : (heap' x).next ≡ some n = ground arith in l),
        ap (λ q. q.next) (set_node_other heap t _ n (λ z. ne (sym z ∙ sym same))) ∙ last_node,
      ),
    )
Linked-append heap p (x ∷ y ∷ ys) n t (here, rest) (d, ds) e (ne, off) last_node = (
  here,
  rw
      (set_node_other heap t (record (heap t) { next = some n }) x
        (λ z. Off-last x (y ∷ ys) d e (sym z)))
      (Linked-append heap (heap x).next (y ∷ ys) n t rest ds e off last_node),
)

pub Distinct-append : (xs : List ℕ) (n : ℕ) → Distinct xs → Off n xs → Distinct (xs ++ n ∷ [])
Distinct-append [] n d off = (tt, tt)
Distinct-append (x ∷ xs) n (d, ds) (ne, off) =
    (Off-append xs (λ z. ne (sym z)) d, Distinct-append xs n ds off)
  where
    Off-append : (xs : List ℕ) → x ≢ n → Off x xs → Off x (xs ++ n ∷ [])
    Off-append [] h o = (h, tt)
    Off-append (y ∷ ys) h (o, os) = (o, Off-append ys h os)

pub last-append : (xs : List ℕ) (n : ℕ) → last (xs ++ n ∷ []) ≡ some n
last-append [] n = refl
last-append (x ∷ []) n = refl
last-append (x ∷ y ∷ ys) n = last-append (y ∷ ys) n

-- queue_show prints the values of the chain, given fuel for its nodes.
pub show_nodes-Linked :
    (fuel : ℕ) (heap : ℕ → QueueNode) (p : Option ℕ) (xs : List ℕ)
    → Linked heap p xs
    → length xs ≤ fuel
    → show_nodes fuel heap p ≡ some (values heap xs)
unfolding show_nodes
show_nodes-Linked fuel heap p [] h few = ap (show_nodes fuel heap) h
show_nodes-Linked zero heap p (x ∷ xs) h few = absurd (omega (arith, few))
show_nodes-Linked (suc fuel) heap p (x ∷ xs) (here, rest) few =
    ap (show_nodes (suc fuel) heap) here
    ∙ rw (show_nodes-Linked fuel heap (heap x).next xs rest (omega (arith, few))) refl
