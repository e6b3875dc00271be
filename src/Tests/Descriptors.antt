-- ===== src/Tests/Descriptors.antt =====
-- The interposed calls over a world that counts the calls; a guard is the bytes it has taken.
use pmem_program.Base.{
  ℕ, ◌+◌, ◌≡◌, refl, true, false, Bool, sym, ap, ◌∙◌, ℕ_discrete, arith, some, List, [], ◌∷◌, ◌++◌,
  ◌==◌, length, if◌then◌else◌,
}
use mathlib.Core.Option.{some-injective}
use pmem_program.Base.Int.{pos}
use pmem_program.Inject.{Calls, Process, empty_entry, handle_open, close}
use pmem_program.Inject.Paths.{rename}
use pmem_program.Inject.Table.{named_ne_none, Ends, Guarded, has_guard}
use pmem_program.Inject.Files.{Handled, handle_open-Guarded, Closed, close-Guarded}
use pmem_program.Inject.Rename.{Renamed, rename-Renamed}

-- The pattern is names that start with `a`, 97.
abbrev starts_with_a : List ℕ → Bool
starts_with_a [] = false
starts_with_a (c ∷ cs) = c == 97

abbrev counted : Calls (List ℕ) ℕ
counted = record {
  matches = starts_with_a;
  nvm_file = λ file. file;
  fstat = λ fd w. some true;
  malloc = λ w. (true, w + 1);
  realloc = λ n w. (true, w + 1);
  strdup = λ file w. (true, w + 1);
  aofguard_init = λ fd file reset w. (true, [], w + 1);
  aofguard_write = λ guard bytes w. (true, guard ++ bytes, w + 1);
  aofguard_deinit = λ guard w. (true, w + 1);
  open_path = λ file flags w. (pos 20, w + 1);
  open_at = λ dirfd file flags w. (pos 20, w + 1);
  write = λ fd bytes w. (pos (length bytes), w + 1);
  read = λ fd len w. (pos 0, w + 1);
  fsync = λ fd w. (pos 0, w + 1);
  fdatasync = λ fd w. (pos 0, w + 1);
  close = λ fd w. (pos 0, w + 1);
  unlink = λ file w. (true, w + 1);
  rename = λ old new w. (true, w + 1);
  accessible = λ file w. true;
  unlinkat = λ file w. (true, w + 1);
  renameat = λ old new w. (true, w + 1);
}

-- The table at the start, and one in which the file `a` has descriptor 3 and a guard.
abbrev at_start : Process (List ℕ) ℕ
at_start = record {
  init_done = true;
  disable_sync = false;
  present = true;
  entries = λ i. empty_entry;
  capacity = 16;
  world = 0;
}

abbrev three_open : Process (List ℕ) ℕ
three_open = record at_start {
  entries =
      λ i. if 3 == i then record { name = some (97 ∷ []); aofguard = some [] } else empty_entry;
}

at_start-Guarded : Guarded counted at_start
at_start-Guarded = record { present = refl; guards = λ i file h e. cc }

three_open-Guarded : Guarded counted three_open
three_open-Guarded = record { present = refl; guards = λ i file h e. guards i file e }
  where
    guards :
        (i : ℕ) (file : List ℕ)
        → (three_open.entries i).name ≡ some file
        → has_guard (three_open.entries i) ≡ starts_with_a file
    guards i file e = elim (ℕ_discrete 3 i) [
      | yes same ↦
          let open_file : three_open.entries i ≡ three_open.entries 3 =
            ap three_open.entries (sym same) in
          let name : 97 ∷ [] ≡ file = some-injective _ _ (sym (ap (λ t. t.name) open_file) ∙ e) in
          ap has_guard open_file ∙ ap starts_with_a name
      | no ne ↦
          let other : three_open.entries i ≡ empty_entry = ground arith in
          absurd (named_ne_none (sym (ap (λ t. t.name) other) ∙ e))
    ]

handle_open-Guarded_example :
    Ends
      (λ p'. ⊥)
      (Handled counted (97 ∷ 98 ∷ []) (pos 20) at_start)
      (handle_open counted (97 ∷ 98 ∷ []) (pos 20) at_start)
handle_open-Guarded_example =
    handle_open-Guarded counted (97 ∷ 98 ∷ []) (pos 20) at_start at_start-Guarded (omega arith)

close-Guarded_example :
    Ends (λ p'. ⊥) (Closed counted (pos 3) three_open) (close counted (pos 3) three_open)
close-Guarded_example = close-Guarded counted (pos 3) three_open three_open-Guarded

rename-Renamed_example :
    Ends
      (λ p'. ⊥)
      (λ r p'. r ≡ pos 0 → Renamed counted (97 ∷ []) (98 ∷ []) three_open p')
      (rename counted (97 ∷ []) (98 ∷ []) three_open)
rename-Renamed_example =
    rename-Renamed counted (97 ∷ []) (98 ∷ []) three_open three_open-Guarded (λ w. refl)
      (λ n file w. refl) (λ old new. refl)
