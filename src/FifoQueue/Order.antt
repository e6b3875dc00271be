-- ===== src/FifoQueue/Order.antt =====
-- The queue's operations in order: first in, first out, and what a queue that was emptied does.
use pmem_program.Base.{
  ℕ, ◌+◌, ◌≡◌, ◌≢◌, refl, sym, ap, ap₂, ◌∙◌, ◌⊎◌, inl, inr, Bool, true, false, Option, none, some,
  List, [], ◌∷◌, ◌++◌, ◌==◌, arith,
}
use pmem_program.Base.Int.{ℤ}
use pmem_program.FifoQueue.{
  State, done, crashes, set_node, Memory, same_pointer, link_node, enque_node, enque_with,
  queue_enque_v, deque_head, deque_from, queue_deque_v,
}
use pmem_program.FifoQueue.Heap.{
  Off, last, values, Holds, set_node_self, Off-last, Linked-set_node, values-set_node,
  values-append, values-next, Linked-append, Distinct-append, last-append,
}

last-some : (x : ℕ) (xs : List ℕ) → (t : ℕ) × (last (x ∷ xs) ≡ some t)
last-some x [] = (x, refl)
last-some x (y ∷ ys) = last-some y ys

-- queue_enque_v behind a queue that holds a node, when malloc gives a new one, puts the value
-- behind those it holds.
pub queue_enque_v-Holds :
    (memory : Memory) (value : ℤ) (s : State) (x n : ℕ) (xs : List ℕ)
    → Holds s (x ∷ xs)
    → memory.new_node s.mallocs ≡ some n
    → Off n (x ∷ xs)
    → (s' : State) × (queue_enque_v memory value s ≡ done s')
      × Holds s' (x ∷ xs ++ n ∷ [])
      × (values s'.heap (x ∷ xs ++ n ∷ []) ≡ values s.heap (x ∷ xs) ++ value ∷ [])
      × (s'.mallocs ≡ s.mallocs + 1)
unfolding queue_enque_v enque_with enque_node link_node
queue_enque_v-Holds memory value s x n xs h new off =
    let (t, e) = last-some x xs in
    let heap = set_node s.heap n (record { value = value; next = none }) in
    let s1 = record s { heap = heap; mallocs = s.mallocs + 1 } in
    let own = set_node_self s.heap n (record { value = value; next = none }) in
    (
      record s1 {
        heap = set_node heap t (record (heap t) { next = some n });
        pmem_queue = some (record h.queue { tail = some n });
      },
      ap (λ o. enque_with o memory.queue_ok value s) new
          ∙ ap (enque_node memory.queue_ok n s1) h.there
          ∙ ap (link_node n s1 h.queue) (h.ends ∙ e),
      record {
        queue = record h.queue { tail = some n };
        there = refl;
        linked =
            Linked-append heap h.queue.head (x ∷ xs) n t
              (Linked-set_node s.heap h.queue.head (x ∷ xs) n _ off h.linked) h.distinct e off
              (ap (λ q. q.next) own);
        ends = sym (last-append (x ∷ xs) n);
        distinct = Distinct-append (x ∷ xs) n h.distinct off;
      },
      values-next heap (x ∷ xs ++ n ∷ []) t (some n)
          ∙ values-append heap (x ∷ xs) n
          ∙ ap₂ (λ vs v. vs ++ v ∷ []) (values-set_node s.heap (x ∷ xs) n _ off)
              (ap (λ q. q.value) own),
      refl,
    )

-- The first queue_enque_v makes the queue, with the value alone.
pub queue_enque_v-first :
    (memory : Memory) (value : ℤ) (s : State) (n : ℕ)
    → s.pmem_queue ≡ none
    → memory.new_node s.mallocs ≡ some n
    → memory.queue_ok ≡ true
    → (s' : State) × (queue_enque_v memory value s ≡ done s')
      × Holds s' (n ∷ [])
      × (values s'.heap (n ∷ []) ≡ value ∷ [])
      × (s'.mallocs ≡ s.mallocs + 1)
unfolding queue_enque_v enque_with enque_node
queue_enque_v-first memory value s n absent new ok =
    let own = set_node_self s.heap n (record { value = value; next = none }) in
    let s1 = record s {
      heap = set_node s.heap n (record { value = value; next = none });
      mallocs = s.mallocs + 1;
    } in
    (
      record s1 { pmem_queue = some (record { head = some n; tail = some n }) },
      ap (λ o. enque_with o memory.queue_ok value s) new
          ∙ ap₂ (λ k q. enque_node k n s1 q) ok absent,
      record {
        queue = record { head = some n; tail = some n };
        there = refl;
        linked = (refl, ap (λ q. q.next) own);
        ends = refl;
        distinct = (tt, tt);
      },
      ap (λ q. q.value ∷ []) own,
      refl,
    )

-- A queue that crashes whatever is done next.
pub Broken : State → Type 0
Broken s =
    (queue_deque_v s ≡ crashes)
    × ((memory : Memory) (value : ℤ) → queue_enque_v memory value s ≡ crashes)

deque_more :
    (s : State) (x y : ℕ) (ys : List ℕ)
    → Holds s (x ∷ y ∷ ys)
    → (s' : State) × (queue_deque_v s ≡ done (some (s.heap x).value, s'))
      × (s'.heap ≡ s.heap)
      × Holds s' (y ∷ ys)
unfolding queue_deque_v deque_from deque_head same_pointer
deque_more s x y ys h =
    let (t, e) = last-some y ys in
    let ne : (x == t) ≡ false = let o = Off-last x (y ∷ ys) h.distinct.0 e in ground arith in
    (
      record s { pmem_queue = some (record { head = (s.heap x).next; tail = some t }) },
      ap (λ q. deque_from q s) h.there
          ∙ ap₂ (λ a b. deque_head a b s) h.linked.0 (h.ends ∙ e)
          ∙ rw ne refl,
      refl,
      record {
        queue = record { head = (s.heap x).next; tail = some t };
        there = refl;
        linked = h.linked.1;
        ends = sym e;
        distinct = h.distinct.1;
      },
    )

enque_drained :
    (o : Option ℕ) (ok : Bool) (value : ℤ) (s : State)
    → s.pmem_queue ≡ some (record { head = none; tail = none })
    → enque_with o ok value s ≡ crashes
unfolding enque_with enque_node link_node
enque_drained none ok value s e = refl
enque_drained (some a) ok value s e =
    let heap = set_node s.heap a (record { value = value; next = none }) in
    ap (enque_node ok a (record s { heap = heap; mallocs = s.mallocs + 1 })) e

deque_last :
    (s : State) (x : ℕ)
    → Holds s (x ∷ [])
    → (s' : State) × (queue_deque_v s ≡ done (some (s.heap x).value, s'))
      × (s'.heap ≡ s.heap)
      × Broken s'
unfolding queue_deque_v deque_from deque_head same_pointer Broken queue_enque_v
deque_last s x h =
    let same : (x == x) ≡ true = ground arith in
    let s' = record s { pmem_queue = some (record { head = none; tail = none }) } in
    (
      s',
      ap (λ q. deque_from q s) h.there
          ∙ ap₂ (λ a b. deque_head a b s) h.linked.0 h.ends
          ∙ rw (same, h.linked.1) refl,
      refl,
      (
        refl,
        λ memory value. enque_drained (memory.new_node s.mallocs) memory.queue_ok value s' refl,
      ),
    )

-- queue_deque_v of a queue that holds nodes gives the first one's value and leaves the values of
-- the others; if there are others it leaves a queue that holds them, and if there are none one
-- with which the next queue_deque_v or queue_enque_v, with any memory, follows a NULL pointer.
pub queue_deque_v-Holds :
    (s : State) (x : ℕ) (xs : List ℕ)
    → Holds s (x ∷ xs)
    → (s' : State) × (queue_deque_v s ≡ done (some (s.heap x).value, s'))
      × (values s'.heap xs ≡ values s.heap xs)
      × (((xs ≡ []) × Broken s') ⊎ ((xs ≢ []) × Holds s' xs))
queue_deque_v-Holds s x [] h =
    let (s', run, same, broken) = deque_last s x h in (s', run, refl, inl (refl, broken))
queue_deque_v-Holds s x (y ∷ ys) h =
    let (s', run, same, holds) = deque_more s x y ys h in
    (s', run, ap (λ heap. values heap (y ∷ ys)) same, inr (λ e. cc, holds))
