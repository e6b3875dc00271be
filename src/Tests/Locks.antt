-- ===== src/Tests/Locks.antt =====
-- The lock service and its clients on small inputs.
use pmem_program.Base.{
  ℕ, ◌+◌, ◌*◌, ◌/◌, ◌<◌, ◌≤◌, ◌^◌, ◌≡◌, refl, true, Option, none, some, List, [], ◌∷◌, ◌++◌, ◌==◌,
  if◌then◌else◌, ◌||◌, replicate, set, arith,
}
use mathlib.Core.Option.{some-injective}
use pmem_program.Base.Int.{pos, ◌==ℤ◌}
use pmem_program.HashKv.{HashTable, table_size, create_hash_table, get_key_value, set_key_value}
use pmem_program.HashKv.Lookup.{pos-InRange, get_key_value-create_hash_table}
use pmem_program.LockService.{answer, indicator_of, blockid_of, handle_lock}
use pmem_program.LockService.Value.{unused, write, next, reply}
use pmem_program.LockService.Refine.{Serves, handle_lock_refines}
use pmem_program.HashKv.Valid.{create_hash_table-IsValid}
use pmem_program.LockServer.{Server, Served, serving, Input, fd_put, serve_ready}
use pmem_program.LockServer.Serving.{IsServing, Goes, serve_ready-Goes}
use pmem_program.LockClient.{message, writelock, readlock}
use pmem_program.LockClient.Messages.{message_roundtrip}
use pmem_program.LockClient.Grants.{
  yes_among, writelock_granted, readlock_granted, readlock_zero_unsafe,
}
use pmem_program.LockSystem.{
  reader, writer, lock_of, Client, idle, asking, told, holding, System, send_request,
  handle_request, hear_yes, Reach, start, later,
}
use pmem_program.LockSystem.Family.{update, total}
use pmem_program.LockSystem.Invariant.{granted}
use pmem_program.LockSystem.Safety.{mutual_exclusion, write_request_answer, block_value_bound}

abbrev fresh : HashTable
fresh = record { list = replicate table_size [] }

fresh-created : create_hash_table true ≡ some fresh
unfolding create_hash_table
fresh-created = refl

-- The message 4 * 5 + 2 asks for the write lock of block 5.
handle_lock_refines_example :
    Serves fresh
      (22 / 4)
      (next write unused)
      (reply write unused)
      (handle_lock true (some fresh) 22)
handle_lock_refines_example =
    handle_lock_refines write unused fresh 22 refl (omega arith) refl
      (get_key_value-create_hash_table fresh (pos 5) fresh-created (pos-InRange 5)).1

message_roundtrip_example :
    (blockid_of (message 254 1) ≡ 254)
    × (indicator_of (message 254 1) ≡ 1)
    × (message 254 1 < 2 ^ 32)
message_roundtrip_example = message_roundtrip 254 1 (omega arith) (omega arith)

abbrev responses : List (Option ℕ)
responses = some 0 ∷ none ∷ some 1 ∷ []

writelock_granted_example : (writelock 0 responses).granted ≡ yes_among responses
writelock_granted_example = writelock_granted 0 responses (omega arith)

readlock_granted_example : (readlock 7 responses).granted ≡ yes_among responses
readlock_granted_example = readlock_granted 7 responses (omega arith) (omega arith)

readlock_zero_unsafe_example : (readlock 0 ((some 0 ∷ []) ++ none ∷ some 0 ∷ [])).granted ≡ true
readlock_zero_unsafe_example = readlock_zero_unsafe (some 0 ∷ []) (some 0 ∷ [])

-- The one client of two that asks gets the write lock of block 5.
abbrev taken : HashTable
taken = record {
  list = set (replicate table_size []) 5 (record { key = pos 5; value = pos 1 } ∷ []);
}

abbrev asked : ℕ → Client
asked = update (λ i. idle) 0 (asking writer 5)

abbrev told_yes : ℕ → Client
told_yes = update asked 0 (told writer 5 1)

abbrev holds : ℕ → Client
holds = update told_yes 0 (holding writer 5)

abbrev writing : System
writing = record { table = taken; clients = holds }

write_handled :
    handle_lock true (some fresh) (message 5 2)
    ≡ some (record { table = some taken; reply = answer 1 })
unfolding handle_lock message get_key_value set_key_value ◌==ℤ◌
write_handled = refl

writing-Reach : Reach 2 writing
writing-Reach =
    later
      (later
        (later (start fresh-created) (send_request 0 5 writer (omega arith) (omega arith) refl))
        (handle_request 0 5 1 writer taken (omega arith) (omega arith) refl write_handled))
      (hear_yes 0 5 1 writer (omega arith) refl refl)

mutual_exclusion_example : ◌≡◌ {A = ℕ} 0 0
mutual_exclusion_example =
    mutual_exclusion {n = 2} {s = writing} 0 0 5 writer writing-Reach (omega arith) (omega arith)
      refl refl

write_request_answer_example :
    (t : HashTable) × (handle_lock true (some taken) (message 5 (lock_of writer))
      ≡ some (record {
        table = some t;
        reply = answer (
            if total (granted reader 5) 2 holds + total (granted writer 5) 2 holds == 0
            then 1
            else 0);
      }))
write_request_answer_example =
    write_request_answer {n = 2} {s = writing} 5 writing-Reach (omega arith)

taken_value : get_key_value (some taken) (pos 5) ≡ some (pos 1)
unfolding get_key_value ◌==ℤ◌
taken_value = refl

block_value_bound_example : 1 ≤ 2 * 2
block_value_bound_example = block_value_bound {n = 2} {s = writing} 5 1 writing-Reach taken_value

-- The server listens at descriptor 3 and watches client 4; 3 and 4 are ready.
abbrev server : Server
server = record { table = some fresh; storage = λ fd. fd == 3 || fd == 4; max_fd = 4; answers = [] }

abbrev input : Input
input = record {
  ready = λ fd. fd == 3 || fd == 4;
  accepted = some 5;
  received = λ fd. some 22;
  malloc_ok = λ fd. true;
}

server-IsServing : IsServing server
server-IsServing = record {
  table = fresh;
  has_table = refl;
  valid = create_hash_table-IsValid true fresh fresh-created;
  covered = λ fd watched. ground arith;
}

-- The new client is watched, and the old one has its lock.
one_pass :
    serve_ready 10 3 input 0 server
    ≡ some (
        serving (record {
          table = some taken;
          storage = fd_put server.storage 5 true;
          max_fd = 5;
          answers = (4, 1) ∷ [];
        }))
unfolding serve_ready handle_lock get_key_value set_key_value ◌==ℤ◌
one_pass = refl

serve_ready-Goes_example : (r : Served) × (serve_ready 10 3 input 0 server ≡ some r) × Goes 5 r
serve_ready-Goes_example =
    serve_ready-Goes 3 5 (omega arith) input
      (λ n e. let five : 5 ≡ n = some-injective _ _ e in omega arith) 10 0 server server-IsServing
      (omega arith) (omega arith) (omega arith)
