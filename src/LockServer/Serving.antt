-- ===== src/LockServer/Serving.antt =====
-- What the loop of the server keeps, whatever arrives.
use pmem_program.Base.{
  ℕ, zero, suc, ◌+◌, ◌≤◌, ◌<◌, ◌≡◌, refl, ap, ◌∙◌, Bool, true, false, Option, none, some, [], ◌∷◌,
  ◌++◌, ltb→lt, ltb, leb, ◌==◌, arith, Bool-cases, inl, inr,
}
use pmem_program.HashKv.{HashTable}
use pmem_program.HashKv.Valid.{IsValid}
use pmem_program.LockService.{Reply, answer, no_answer, aborted, Handled, handle_lock}
use pmem_program.LockService.Keeps.{handle_lock-Keeps}
use pmem_program.LockServer.{
  Server, Served, serving, asserted, out_of_bounds, fd_put, serve_message, Input, serve_fd,
  fd_setsize, serve_accept, serve_received, serve_ready,
}

-- The server has a valid table, and select's range covers every descriptor it is to watch.
pub record IsServing (s : Server) : Type 0 where
  pub table : HashTable
  pub has_table : s.table ≡ some table
  pub valid : IsValid table
  pub covered : (fd : ℕ) → s.storage fd ≡ true → fd ≤ s.max_fd

-- The loop goes on so, below a bound on the descriptors, or the assertion has ended the server.
abbrev pub Goes : ℕ → Served → Type 0
Goes bound (serving s) = IsServing s × (s.max_fd ≤ bound)
Goes bound asserted = Unit
Goes bound out_of_bounds = ⊥

serve_message-Goes :
    (malloc_ok : Bool) (fd x bound : ℕ) (s : Server)
    → IsServing s
    → s.max_fd ≤ bound
    → Goes bound (serve_message malloc_ok fd x s)
unfolding serve_message
serve_message-Goes malloc_ok fd x bound s h small =
    let (handled, table, done, has_table, valid) = handle_lock-Keeps malloc_ok h.table x h.valid in
    rw (serve_message, ap (λ t. handle_lock malloc_ok t x) h.has_table ∙ done)
      (by_reply handled handled.reply table has_table valid)
  where
    by_reply :
        (handled : Handled) (r : Reply) (table : HashTable)
        → handled.table ≡ some table
        → IsValid table
        → Goes bound (elim r as (λ r. Served) [
          | answer lock ↦
              serving (record s { table = handled.table; answers = s.answers ++ ((fd, lock) ∷ []) })
          | no_answer ↦ serving (record s { table = handled.table })
          | aborted ↦ asserted
        ])
    by_reply handled (answer lock) t e v =
        (record { table = t; has_table = e; valid = v; covered = h.covered }, small)
    by_reply handled no_answer t e v =
        (record { table = t; has_table = e; valid = v; covered = h.covered }, small)
    by_reply handled aborted t e v = tt

module _ (sock_fd bound : ℕ) (bits : bound < fd_setsize) (input : Input)
    (accepts : (n : ℕ) → input.accepted ≡ some n → n ≤ bound) where
  accept-Goes :
      (s : Server) (o : Option ℕ)
      → input.accepted ≡ o
      → IsServing s
      → s.max_fd ≤ bound
      → Goes bound (serve_accept o s)
  unfolding serve_accept fd_put
  accept-Goes s none e h small = (h, small)
  accept-Goes s (some new_fd) e h small =
      let below = accepts new_fd e in
      let there : ltb new_fd fd_setsize ≡ true = ground arith in
      rw there (
        record {
          table = h.table;
          has_table = h.has_table;
          valid = h.valid;
          covered = λ fd on. ground (arith, h.covered fd);
        },
        ground arith,
      )

  recv-Goes :
      (malloc_ok : Bool) (o : Option ℕ) (fd : ℕ) (s : Server)
      → IsServing s
      → s.max_fd ≤ bound
      → Goes bound (serve_received malloc_ok o fd s)
  unfolding serve_received fd_put
  recv-Goes malloc_ok none fd s h small = (
    record {
      table = h.table;
      has_table = h.has_table;
      valid = h.valid;
      covered = λ j on. ground (arith, h.covered j);
    },
    small,
  )
  recv-Goes malloc_ok (some x) fd s h small = serve_message-Goes malloc_ok fd x bound s h small

  serve_fd-Goes :
      (fd : ℕ) (s : Server)
      → fd ≤ bound
      → IsServing s
      → s.max_fd ≤ bound
      → Goes bound (serve_fd sock_fd input fd s)
  unfolding serve_fd
  serve_fd-Goes fd s below h small =
      let there : leb fd_setsize fd ≡ false = ground arith in
      elim (Bool-cases (input.ready fd)) [
        | inl is_ready ↦ elim (Bool-cases (fd == sock_fd)) [
          | inl listening ↦
              rw (there, is_ready, listening) (accept-Goes s input.accepted refl h small)
          | inr connected ↦
              rw (there, is_ready, connected)
                (recv-Goes (input.malloc_ok fd) (input.received fd) fd s h small)
        ]
        | inr quiet ↦ rw (there, quiet) (h, small)
      ]

  -- A pass of the server's loop ends, whatever select reports, recv delivers and malloc gives: on
  -- a server with a valid table and whose max_fd covers every descriptor that it watches, with
  -- max_fd and any new descriptor up to a bound below FD_SETSIZE, and fuel that reaches beyond the
  -- bound, the pass never indexes outside the table or an fd_set, and either the assertion on an
  -- error message ends the server or all this holds of it again.
  pub serve_ready-Goes :
      (fuel fd : ℕ) (s : Server)
      → IsServing s
      → s.max_fd ≤ bound
      → bound + 1 < fuel + fd
      → 0 < fuel
      → (r : Served) × (serve_ready fuel sock_fd input fd s ≡ some r) × Goes bound r
  unfolding serve_ready
  serve_ready-Goes zero fd s h small enough some_fuel = absurd (omega arith)
  serve_ready-Goes (suc fuel) fd s h small enough some_fuel =
      elim (Bool-cases (ltb fd (s.max_fd + 1))) [
        | inl inside ↦ rw inside (
            by_fd
              (λ s' h' small'.
                serve_ready-Goes fuel (fd + 1) s' h' small' (omega arith)
                  (omega (arith, ltb→lt fd (s.max_fd + 1) inside)))
              (serve_fd sock_fd input fd s)
              (serve_fd-Goes fd s (omega (arith, small, ltb→lt fd (s.max_fd + 1) inside)) h small))
        | inr past ↦ rw past (serving s, refl, (h, small))
      ]
    where
      by_fd :
          ((s' : Server)
            → IsServing s'
            → s'.max_fd ≤ bound
            → (r : Served) × (serve_ready fuel sock_fd input (fd + 1) s' ≡ some r) × Goes bound r)
          → (r : Served) → Goes bound r
          → (r' : Served) × (elim r as (λ r. Option Served) [
            | serving s' ↦ serve_ready fuel sock_fd input (fd + 1) s'
            | asserted ↦ some asserted
            | out_of_bounds ↦ some out_of_bounds
          ]
              ≡ some r')
            × Goes bound r'
      by_fd again (serving s') g = again s' g.0 g.1
      by_fd again asserted g = (asserted, refl, tt)
      by_fd again out_of_bounds g = absurd g
