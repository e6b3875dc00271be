-- ===== src/FifoQueue.antt =====
-- simple_fifo_queue/queue_aof.cpp: a queue in memory and the log file that it is rebuilt from.
-- A pointer is an address or `none`, the heap gives a node for each address, and a step through
-- NULL is `crashes`. malloc is an argument, by the number of the call. A string is the
-- list of its characters, and the log file the list of its lines, each with its newline.
pub mod Heap
pub mod Order
pub mod Log
use pmem_program.Base.{
  ℕ, zero, suc, ◌+◌, Bool, true, false, Option, none, some, List, [], ◌∷◌, ◌++◌, ◌==◌,
  if◌then◌else◌,
}
use pmem_program.Base.Int.{ℤ, pos}
use pmem_program.Base.Strings.{same_string}

-- queue_node
pub record QueueNode : Type 0 where
  pub value : ℤ
  pub next : Option ℕ

-- queue
pub record QueueEnds : Type 0 where
  pub head : Option ℕ
  pub tail : Option ℕ

-- The heap, the number of nodes asked of malloc so far, and pmem_queue.
pub record State : Type 0 where
  pub heap : ℕ → QueueNode
  pub mallocs : ℕ
  pub pmem_queue : Option QueueEnds

pub data Attempt (A : Type 0) : Type 0 where
  done : A → Attempt A
  crashes : Attempt A

infixl 5 ◌>>=◌
abbrev pub ◌>>=◌ : {A B : Type 0} → Attempt A → (A → Attempt B) → Attempt B
done a >>= f = f a
crashes >>= f = crashes

abbrev pub set_node : (ℕ → QueueNode) → ℕ → QueueNode → ℕ → QueueNode
set_node heap a node b = if a == b then node else heap b

-- `head == tail`
unfoldable pub same_pointer : Option ℕ → Option ℕ → Bool
same_pointer none none = true
same_pointer none (some b) = false
same_pointer (some a) none = false
same_pointer (some a) (some b) = a == b

-- The calls of malloc: the address of each node asked for, and whether there is memory for the
-- queue.
pub record Memory : Type 0 where
  pub new_node : ℕ → Option ℕ
  pub queue_ok : Bool

-- The last lines of queue_enque_v, behind the tail of the queue there is.
unfoldable pub link_node : ℕ → State → QueueEnds → Option ℕ → Attempt State
link_node a s queue none = crashes
link_node a s queue (some tail) = done (record s {
  heap = set_node s.heap tail (record (s.heap tail) { next = some a });
  pmem_queue = some (record queue { tail = some a });
})

unfoldable pub enque_node : Bool → ℕ → State → Option QueueEnds → Attempt State
unfolding link_node
enque_node queue_ok a s none =
    if queue_ok
    then done (record s { pmem_queue = some (record { head = some a; tail = some a }) })
    else crashes
enque_node queue_ok a s (some queue) = link_node a s queue queue.tail

-- queue_enque_v with what malloc gives
unfoldable pub enque_with : Option ℕ → Bool → ℤ → State → Attempt State
unfolding enque_node
enque_with none queue_ok value s = crashes
enque_with (some a) queue_ok value s =
    let heap = set_node s.heap a (record { value = value; next = none }) in
    enque_node queue_ok a (record s { heap = heap; mallocs = s.mallocs + 1 }) s.pmem_queue

unfoldable pub queue_enque_v : Memory → ℤ → State → Attempt State
unfolding enque_with
queue_enque_v memory value s = enque_with (memory.new_node s.mallocs) memory.queue_ok value s

-- queue_deque_v, where there is a queue
unfoldable pub deque_head : Option ℕ → Option ℕ → State → Attempt (Option ℤ × State)
unfolding same_pointer
deque_head none tail s = crashes
deque_head (some a) tail s = done (
  some (s.heap a).value,
  record s {
    pmem_queue = some (record {
      head = (s.heap a).next;
      tail = if same_pointer (some a) tail then none else tail;
    });
  },
)

-- queue_deque_v: `none` for -1.
unfoldable pub deque_from : Option QueueEnds → State → Attempt (Option ℤ × State)
unfolding deque_head
deque_from none s = done (none, s)
deque_from (some queue) s = deque_head queue.head queue.tail s

unfoldable pub queue_deque_v : State → Attempt (Option ℤ × State)
unfolding deque_from
queue_deque_v s = deque_from s.pmem_queue s

-- The loop of queue_show, for at most fuel nodes: what it prints.
unfoldable pub show_nodes : ℕ → (ℕ → QueueNode) → Option ℕ → Option (List ℤ)
show_nodes fuel heap none = some []
show_nodes zero heap (some a) = none
show_nodes (suc fuel) heap (some a) = elim (show_nodes fuel heap (heap a).next) [
  | none ↦ none
  | some rest ↦ some ((heap a).value ∷ rest)
]

-- que_op and ops_str
pub data QueOp : Type 0 where
  enque deque show preque max_ops : QueOp

abbrev pub enque_str : List ℕ
enque_str = 101 ∷ 110 ∷ 113 ∷ 117 ∷ 101 ∷ []

abbrev pub deque_str : List ℕ
deque_str = 100 ∷ 101 ∷ 113 ∷ 117 ∷ 101 ∷ []

abbrev pub show_str : List ℕ
show_str = 115 ∷ 104 ∷ 111 ∷ 119 ∷ []

abbrev pub preque_str : List ℕ
preque_str = 112 ∷ 114 ∷ 101 ∷ 113 ∷ 117 ∷ 101 ∷ []

-- parse_que_ops
unfoldable pub parse_que_ops : List ℕ → QueOp
unfolding same_string
parse_que_ops ops =
    if same_string enque_str ops
    then enque
    else (if same_string deque_str ops
        then deque
        else (if same_string show_str ops
            then show
            else (if same_string preque_str ops then preque else max_ops)))

-- strtok with the separator " ": the next token and what is behind it, `none` for NULL.
unfoldable pub skip_spaces : List ℕ → List ℕ
skip_spaces [] = []
skip_spaces (c ∷ cs) = let rest = skip_spaces cs in if c == 32 then rest else c ∷ cs

unfoldable pub split_token : List ℕ → List ℕ × List ℕ
split_token [] = ([], [])
split_token (c ∷ cs) =
    let (token, rest) = split_token cs in if c == 32 then ([], cs) else (c ∷ token, rest)

unfoldable pub token_of : List ℕ → Option (List ℕ × List ℕ)
unfolding split_token
token_of [] = none
token_of (c ∷ cs) = some (split_token (c ∷ cs))

unfoldable pub strtok : List ℕ → Option (List ℕ × List ℕ)
unfolding skip_spaces token_of
strtok s = token_of (skip_spaces s)

-- What the code takes of the C library for numbers: sprintf's "%d", and atoi.
pub record Numbers : Type 0 where
  pub digits : ℤ → List ℕ
  pub atoi : List ℕ → ℤ

module _ (memory : Memory) (numbers : Numbers) where
  -- The lines that the commands write.
  unfoldable pub enque_line : ℤ → List ℕ
  enque_line value = enque_str ++ 32 ∷ numbers.digits value ++ 10 ∷ []

  unfoldable pub deque_line : List ℕ
  deque_line = deque_str ++ 10 ∷ []

  -- The replay_log of one line of the log.
  unfoldable pub enque_token : Option (List ℕ × List ℕ) → State → Attempt State
  unfolding queue_enque_v
  enque_token none s = crashes
  enque_token (some (token, rest)) s = queue_enque_v memory (numbers.atoi token) s

  unfoldable pub replay_op : QueOp → List ℕ → State → Attempt State
  unfolding enque_token queue_deque_v strtok
  replay_op enque rest s = enque_token (strtok rest) s
  replay_op deque rest s = queue_deque_v s >>= λ (_, s'). done s'
  replay_op _ rest s = done s

  unfoldable pub replay_line : List ℕ → State → Attempt State
  unfolding replay_op parse_que_ops strtok
  replay_line line s = elim (strtok line) [
    | none ↦ crashes
    | some (token, rest) ↦ replay_op (parse_que_ops token) rest s
  ]

  -- main's first loop
  unfoldable pub replay_log : List (List ℕ) → State → Attempt State
  unfolding replay_line
  replay_log [] s = done s
  replay_log (line ∷ lines) s = replay_line line s >>= replay_log lines

  -- preque: the first n turns of its loop, and the lines that they write
  unfoldable pub preque_values : ℕ → State → Attempt State
  unfolding queue_enque_v
  preque_values zero s = done s
  preque_values (suc n) s = preque_values n s >>= queue_enque_v memory (pos n)

  unfoldable pub preque_lines : ℕ → List (List ℕ)
  unfolding enque_line
  preque_lines zero = []
  preque_lines (suc n) = preque_lines n ++ enque_line (pos n) ∷ []

  -- main's second loop, one command: the state, and the log with the lines that it writes.
  unfoldable pub run_command : QueOp → ℤ → State × List (List ℕ) → Attempt (State × List (List ℕ))
  unfolding queue_enque_v queue_deque_v preque_values preque_lines enque_line deque_line
  run_command enque value (s, log) =
      queue_enque_v memory value s >>= λ s'. done (s', log ++ enque_line value ∷ [])
  run_command deque value (s, log) =
      queue_deque_v s >>= λ (_, s'). done (s', log ++ deque_line ∷ [])
  run_command show value (s, log) = done (s, log)
  run_command preque value (s, log) =
      preque_values 10000 s >>= λ s'. done (s', log ++ preque_lines 10000)
  run_command max_ops value (s, log) = done (s, log)

-- The queue before the log is read.
abbrev pub initial : (ℕ → QueueNode) → State
initial heap = record { heap = heap; mallocs = 0; pmem_queue = none }
