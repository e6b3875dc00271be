-- ===== src/Tests/Queues.antt =====
-- The queue with a malloc that counts its addresses up, and numbers printed in unary.
use pmem_program.Base.{
  ℕ, zero, suc, ◌≡◌, ◌≢◌, ◌⊎◌, refl, sym, ap, ◌∙◌, true, arith, Option, none, some, List, [], ◌∷◌,
  ◌++◌, ◌==◌, if◌then◌else◌,
}
use mathlib.Core.Option.{some-injective}
use pmem_program.Base.Int.{ℤ, pos, negsuc}
use pmem_program.FifoQueue.{
  QueueNode, State, done, Memory, Numbers, initial, queue_enque_v, queue_deque_v, replay_log,
}
use pmem_program.FifoQueue.Heap.{Off, Holds, values}
use pmem_program.FifoQueue.Order.{queue_enque_v-Holds, Broken, queue_deque_v-Holds}
use pmem_program.FifoQueue.Log.{
  Logged, put_in, taken, put_values, Readable, Plenty, lines_of, Queued, replay_log-put_values,
}

abbrev counting : Memory
counting = record { new_node = λ k. some k; queue_ok = true }

abbrev node : ℤ → Option ℕ → QueueNode
node value next = record { value = value; next = next }

-- Nodes 0 and 1 with the values 10 and 11.
abbrev two : State
two = record {
  heap = λ a. elim a [ zero ↦ node (pos 10) (some 1) | suc k ↦ node (pos 11) none ];
  mallocs = 2;
  pmem_queue = some (record { head = some 0; tail = some 1 });
}

two-Holds : Holds two (0 ∷ 1 ∷ [])
two-Holds = record {
  queue = record { head = some 0; tail = some 1 };
  there = refl;
  linked = (refl, (refl, refl));
  ends = refl;
  distinct = (((λ e. omega (arith, e)), tt), (tt, tt));
}

queue_enque_v-Holds_example :
    (s' : State) × (queue_enque_v counting (pos 12) two ≡ done s')
    × Holds s' (0 ∷ 1 ∷ 2 ∷ [])
    × (values s'.heap (0 ∷ 1 ∷ 2 ∷ []) ≡ pos 10 ∷ pos 11 ∷ pos 12 ∷ [])
    × (s'.mallocs ≡ 3)
queue_enque_v-Holds_example =
    queue_enque_v-Holds counting (pos 12) two 0 2 (1 ∷ []) two-Holds refl
      ((λ e. omega (arith, e)), ((λ e. omega (arith, e)), tt))

abbrev one : List ℕ
one = 1 ∷ []

queue_deque_v-Holds_example :
    (s' : State) × (queue_deque_v two ≡ done (some (pos 10), s'))
    × (values s'.heap (1 ∷ []) ≡ pos 11 ∷ [])
    × (((one ≡ []) × Broken s') ⊎ ((one ≢ []) × Holds s' one))
queue_deque_v-Holds_example = queue_deque_v-Holds two 0 (1 ∷ []) two-Holds

counting-Plenty : Plenty counting
counting-Plenty = record {
  new = λ k. (k, refl);
  different = λ i j n hi hj. some-injective _ _ (hi ∙ sym hj);
  queue_ok = refl;
}

-- A number as its sign, 48 or 45, and as many ones, 49.
abbrev ones : ℕ → List ℕ
ones zero = []
ones (suc n) = 49 ∷ ones n

abbrev count_ones : List ℕ → ℕ
count_ones [] = 0
count_ones (c ∷ cs) = let rest = count_ones cs in if c == 49 then suc rest else 0

abbrev print : ℤ → List ℕ
print (pos n) = 48 ∷ ones n
print (negsuc n) = 45 ∷ ones n

abbrev read : List ℕ → ℤ
read [] = pos 0
read (c ∷ cs) = if c == 48 then pos (count_ones cs) else negsuc (count_ones cs)

abbrev unary : Numbers
unary = record { digits = print; atoi = read }

ones-Off : (n : ℕ) → Off 32 (ones n ++ 10 ∷ [])
ones-Off zero = ((λ e. omega (arith, e)), tt)
ones-Off (suc n) = ((λ e. omega (arith, e)), ones-Off n)

ones_counted : (n : ℕ) → count_ones (ones n ++ 10 ∷ []) ≡ n
ones_counted zero = refl
ones_counted (suc n) = ap (λ k. suc k) (ones_counted n)

unary-Readable : Readable unary
unary-Readable = record { no_space = off; read_back = back }
  where
    off : (value : ℤ) → Off 32 (print value ++ 10 ∷ [])
    off (pos n) = ((λ e. omega (arith, e)), ones-Off n)
    off (negsuc n) = ((λ e. omega (arith, e)), ones-Off n)

    back : (value : ℤ) → read (print value ++ 10 ∷ []) ≡ value
    back (pos n) = ap pos (ones_counted n)
    back (negsuc n) = ap negsuc (ones_counted n)

-- Put 1 and 2 in, take one out: the queue of the next start has both.
abbrev session : List Logged
session = put_in (pos 1) ∷ taken ∷ put_in (pos 2) ∷ []

replay_log-put_values_example :
    (s : State) × (replay_log counting unary (lines_of counting unary session) (initial two.heap)
      ≡ done s)
    × (((s.pmem_queue ≡ none) × (put_values session ≡ [])) ⊎ Queued counting s (put_values session))
replay_log-put_values_example =
    replay_log-put_values counting unary unary-Readable counting-Plenty session two.heap
