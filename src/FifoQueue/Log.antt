-- ===== src/FifoQueue/Log.antt =====
-- The log file of the queue: what its lines do when the program reads them at its start.
use pmem_program.Base.{
  ℕ, ◌+◌, ◌<◌, ◌≡◌, ◌≢◌, refl, sym, ap, ◌∙◌, true, false, none, some, List, [], ◌∷◌, ◌++◌, ◌==◌,
  arith, append-nil, append_assoc, ◌⊎◌, inl, inr,
}
use mathlib.Core.Path.{subst}
use pmem_program.Base.Int.{ℤ}
use pmem_program.Base.Strings.{same_string}
use pmem_program.FifoQueue.{
  State, done, ◌>>=◌, Memory, Numbers, queue_enque_v, parse_que_ops, skip_spaces, split_token,
  token_of, enque_token, strtok, enque_line, deque_line, replay_op, replay_line, replay_log,
  initial, QueueNode,
}
use pmem_program.FifoQueue.Heap.{Off, values, Holds}
use pmem_program.FifoQueue.Order.{queue_enque_v-Holds, queue_enque_v-first}

-- A command that the program logs, and the values of the enque commands among some.
pub data Logged : Type 0 where
  put_in : ℤ → Logged
  taken : Logged

unfoldable pub put_values : List Logged → List ℤ
put_values [] = []
put_values (put_in value ∷ rest) = value ∷ put_values rest
put_values (taken ∷ rest) = put_values rest

-- A token without spaces is the whole rest of its line.
split_token_whole : (s : List ℕ) → Off 32 s → split_token s ≡ (s, [])
unfolding split_token
split_token_whole [] off = refl
split_token_whole (c ∷ cs) (ne, off) =
    let e : (c == 32) ≡ false = ground arith in rw (split_token_whole cs off, e) refl

skip_spaces_whole : (c : ℕ) (cs : List ℕ) → c ≢ 32 → skip_spaces (c ∷ cs) ≡ c ∷ cs
unfolding skip_spaces
skip_spaces_whole c cs ne = let e : (c == 32) ≡ false = ground arith in rw e refl

strtok_whole : (c : ℕ) (cs : List ℕ) → Off 32 (c ∷ cs) → strtok (c ∷ cs) ≡ some (c ∷ cs, [])
unfolding strtok token_of
strtok_whole c cs (ne, off) =
    ap token_of (skip_spaces_whole c cs (λ e. ne (sym e)))
    ∙ ap some (split_token_whole (c ∷ cs) (ne, off))

strtok_line : (s : List ℕ) → Off 32 (s ++ 10 ∷ []) → strtok (s ++ 10 ∷ []) ≡ some (s ++ 10 ∷ [], [])
strtok_line [] off = strtok_whole 10 [] off
strtok_line (c ∷ cs) off = strtok_whole c (cs ++ 10 ∷ []) off

-- C's numbers: no space is printed, and what is printed is read back, before a newline.
pub record Readable (numbers : Numbers) : Type 0 where
  pub no_space : (value : ℤ) → Off 32 (numbers.digits value ++ 10 ∷ [])
  pub read_back : (value : ℤ) → numbers.atoi (numbers.digits value ++ 10 ∷ []) ≡ value

-- malloc gives different nodes, none of them being freed, and the queue itself.
pub record Plenty (memory : Memory) : Type 0 where
  pub new : (k : ℕ) → (n : ℕ) × (memory.new_node k ≡ some n)
  pub different : (i j n : ℕ) → memory.new_node i ≡ some n → memory.new_node j ≡ some n → i ≡ j
  pub queue_ok : memory.queue_ok ≡ true

-- The nodes come from the first k calls.
abbrev pub Earlier : Memory → ℕ → List ℕ → Type 0
Earlier memory k [] = Unit {0}
Earlier memory k (x ∷ xs) = ((i : ℕ) × (i < k) × (memory.new_node i ≡ some x)) × Earlier memory k xs

Earlier-Off :
    (memory : Memory) (k n : ℕ) (xs : List ℕ)
    → Plenty memory
    → memory.new_node k ≡ some n
    → Earlier memory k xs
    → Off n xs
Earlier-Off memory k n [] plenty new h = tt
Earlier-Off memory k n (x ∷ xs) plenty new ((i, below, old), rest) = (
  λ e. omega (arith, below, plenty.different i k n (old ∙ ap some (sym e)) new),
  Earlier-Off memory k n xs plenty new rest,
)

Earlier-append :
    (memory : Memory) (k n : ℕ) (xs : List ℕ)
    → memory.new_node k ≡ some n
    → Earlier memory k xs
    → Earlier memory (k + 1) (xs ++ n ∷ [])
Earlier-append memory k n [] new h = ((k, omega arith, new), tt)
Earlier-append memory k n (x ∷ xs) new ((i, below, old), rest) =
    ((i, omega (arith, below), old), Earlier-append memory k n xs new rest)

-- A state whose queue holds a node, and the values that it has.
abbrev pub Queued : Memory → State → List ℤ → Type 0
Queued memory s vs =
    (x : ℕ) × (xs : List ℕ) × Holds s (x ∷ xs)
    × (values s.heap (x ∷ xs) ≡ vs)
    × Earlier memory s.mallocs (x ∷ xs)

module _ (memory : Memory) (numbers : Numbers) where
  -- The lines that the program logs for some commands.
  unfoldable pub lines_of : List Logged → List (List ℕ)
  lines_of [] = []
  lines_of (put_in value ∷ rest) = enque_line memory numbers value ∷ lines_of rest
  lines_of (taken ∷ rest) = deque_line memory numbers ∷ lines_of rest

module _ (memory : Memory) (numbers : Numbers) (readable : Readable numbers) where
  replay_enque_line :
      (value : ℤ) (s : State)
      → replay_line memory numbers (enque_line memory numbers value) s
        ≡ queue_enque_v memory value s
  unfolding replay_line replay_op enque_line enque_token strtok skip_spaces split_token token_of
      parse_que_ops same_string
  replay_enque_line value s =
      ap (λ t. enque_token memory numbers t s)
        (strtok_line (numbers.digits value) (readable.no_space value))
      ∙ ap (λ v. queue_enque_v memory v s) (readable.read_back value)

  -- parse_que_ops does not know the word that strtok cuts from a deque line, since its newline is part of it.
  replay_deque_line :
      (s : State) → replay_line memory numbers (deque_line memory numbers) s ≡ done s
  unfolding replay_line replay_op deque_line strtok skip_spaces split_token token_of parse_que_ops
      same_string
  replay_deque_line s = refl

  module _ (plenty : Plenty memory) where
    replay_log-Queued :
        (cs : List Logged) (s : State) (vs : List ℤ)
        → Queued memory s vs
        → (s' : State) × (replay_log memory numbers (lines_of memory numbers cs) s ≡ done s')
          × Queued memory s' (vs ++ put_values cs)
    unfolding replay_log lines_of put_values
    replay_log-Queued [] s vs (x, xs, h, e, o) = (s, refl, (x, xs, h, e ∙ sym (append-nil vs), o))
    replay_log-Queued (taken ∷ cs) s vs q =
        let (s', run, rest) = replay_log-Queued cs s vs q in
        (s', rw (replay_deque_line s) run, rest)
    replay_log-Queued (put_in value ∷ cs) s vs (x, xs, h, e, o) =
        let (n, new) = plenty.new s.mallocs in
        let off = Earlier-Off memory s.mallocs n (x ∷ xs) plenty new o in
        let (s1, put, h1, e1, k1) = queue_enque_v-Holds memory value s x n xs h new off in
        let o1 =
          subst (λ k. Earlier memory k (x ∷ xs ++ n ∷ [])) (sym k1)
            (Earlier-append memory s.mallocs n (x ∷ xs) new o) in
        let (s', run, rest) =
          replay_log-Queued cs s1 (vs ++ value ∷ [])
            (x, xs ++ n ∷ [], h1, e1 ∙ ap (λ t. t ++ value ∷ []) e, o1) in
        (
          s',
          ap (λ m. m >>= replay_log memory numbers (lines_of memory numbers cs))
                (replay_enque_line value s ∙ put)
              ∙ run,
          subst (Queued memory s') (append_assoc vs (value ∷ []) (put_values cs)) rest,
        )

    -- When the program starts on the log of any commands, where C's numbers are read back as
    -- printed and malloc gives new memory, the queue that it builds has the values of all the
    -- enque commands in order, whatever was taken since, and there is no queue if there is none of
    -- them.
    pub replay_log-put_values :
        (cs : List Logged) (heap : ℕ → QueueNode)
        → (s : State) × (replay_log memory numbers (lines_of memory numbers cs) (initial heap)
            ≡ done s)
          × (((s.pmem_queue ≡ none) × (put_values cs ≡ [])) ⊎ Queued memory s (put_values cs))
    unfolding replay_log lines_of put_values
    replay_log-put_values [] heap = (initial heap, refl, inl (refl, refl))
    replay_log-put_values (taken ∷ cs) heap =
        let (s', run, rest) = replay_log-put_values cs heap in
        (s', rw (replay_deque_line (initial heap)) run, rest)
    replay_log-put_values (put_in value ∷ cs) heap =
        let (n, new) = plenty.new 0 in
        let (s1, put, h1, e1, k1) =
          queue_enque_v-first memory value (initial heap) n refl new plenty.queue_ok in
        let o1 = subst (λ k. Earlier memory k (n ∷ [])) (sym k1) ((0, omega arith, new), tt) in
        let (s', run, rest) = replay_log-Queued cs s1 (value ∷ []) (n, [], h1, e1, o1) in
        (
          s',
          ap (λ m. m >>= replay_log memory numbers (lines_of memory numbers cs))
                (replay_enque_line value (initial heap) ∙ put)
              ∙ run,
          inr rest,
        )
