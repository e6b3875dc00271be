-- ===== src/Inject/Paths.antt =====
-- unlink and rename of wal_accel/src/inject.c: the memory files, the guards and the names of the
-- table follow the files.
use pmem_program.Base.{
  ℕ, zero, suc, Bool, true, false, Option, none, some, List, not, if◌then◌else◌,
}
use pmem_program.Base.Int.{pos, negsuc}
use pmem_program.Base.Strings.{same_string}
use pmem_program.Inject.{
  is_none, Filedes, Calls, Process, Outcome, goes_on, returns, crashes, ◌>>=◌, set_entry, in_world,
  drop_guard, put_guard,
}

module _ {Guard W : Type 0} where
  module _ (calls : Calls Guard W) where
    -- The memory file goes if it is there: unlink's and rename's piece.
    unfoldable pub remove_nvm_file : List ℕ → Process Guard W → Outcome (Process Guard W)
    remove_nvm_file file p =
        let (ok, w) = calls.unlinkat (calls.nvm_file file) p.world in
        if calls.accessible (calls.nvm_file file) p.world
        then (if ok then goes_on (in_world w p) else returns (negsuc 0) (in_world w p))
        else goes_on p

    -- unlink
    unfoldable pub unlink : List ℕ → Process Guard W → Outcome (Process Guard W)
    unfolding remove_nvm_file
    unlink file p =
        let (ok, w) = calls.unlink file p.world in
        let p' = in_world w p in
        if ok
        then (if calls.matches file then remove_nvm_file file p' else goes_on p')
          >>= returns (pos 0)
        else returns (negsuc 0) p'

    -- `filedes->name && strcmp(filedes->name, path) == 0`
    unfoldable pub named : List ℕ → Filedes Guard → Bool
    unfolding same_string
    named path entry = elim (entry.name) [ none ↦ false | some name ↦ same_string name path ]

    -- A loop over the first n entries, whose body is run for those with the name.
    unfoldable pub for_named :
        List ℕ
        → (ℕ → Process Guard W → Outcome (Process Guard W))
        → ℕ
        → Process Guard W
        → Outcome (Process Guard W)
    unfolding named
    for_named path body zero p = goes_on p
    for_named path body (suc n) p = for_named path body n p >>= λ p'.
        if not p'.present
        then crashes
        else (if named path (p'.entries n) then body n p' else goes_on p')

    -- The bodies of rename's three loops: a file comes under guard, leaves it, gets its new name.
    unfoldable pub adopt_if :
        Option Guard → List ℕ → ℕ → Process Guard W → Outcome (Process Guard W)
    adopt_if (some old) newpath i p = crashes
    adopt_if none newpath i p =
        let (malloc_ok, w1) = calls.malloc p.world in
        let (init_ok, guard, w2) = calls.aofguard_init i (calls.nvm_file newpath) true w1 in
        if malloc_ok
        then (if init_ok
            then goes_on (in_world w2 (put_guard (some guard) i p))
            else returns (pos 0) (in_world w2 (put_guard (some guard) i p)))
        else returns (pos 0) (in_world w1 p)

    unfoldable pub adopt : List ℕ → ℕ → Process Guard W → Outcome (Process Guard W)
    unfolding adopt_if
    adopt newpath i p = adopt_if (p.entries i).aofguard newpath i p

    unfoldable pub release : ℕ → Process Guard W → Outcome (Process Guard W)
    unfolding drop_guard
    release i p =
        if is_none (p.entries i).aofguard then crashes else drop_guard calls (negsuc 0) i p

    unfoldable pub set_name : List ℕ → ℕ → Process Guard W → Outcome (Process Guard W)
    set_name newpath i p =
        let (ok, w) = calls.strdup newpath p.world in
        let p' = in_world w p in
        if ok
        then goes_on (set_entry i (record (p.entries i) { name = some newpath }) p')
        else returns (negsuc 0) (set_entry i (record (p.entries i) { name = none }) p')

    -- rename's changes of the memory files and the guards, in the cases of which paths need them
    unfoldable pub move_nvm_file : List ℕ → List ℕ → Process Guard W → Outcome (Process Guard W)
    unfolding remove_nvm_file
    move_nvm_file oldpath newpath p =
        let (ok, w) = calls.renameat (calls.nvm_file oldpath) (calls.nvm_file newpath) p.world in
        if calls.accessible (calls.nvm_file oldpath) p.world
        then (if ok then goes_on (in_world w p) else returns (negsuc 0) (in_world w p))
        else remove_nvm_file newpath p

    unfoldable pub release_all : List ℕ → Process Guard W → Outcome (Process Guard W)
    unfolding remove_nvm_file for_named release
    release_all oldpath p =
        if calls.accessible (calls.nvm_file oldpath) p.world
        then (remove_nvm_file oldpath p >>= for_named oldpath release p.capacity)
        else goes_on p

    unfoldable pub move_guards : List ℕ → List ℕ → Process Guard W → Outcome (Process Guard W)
    unfolding move_nvm_file for_named adopt release_all
    move_guards oldpath newpath p =
        if calls.matches newpath
        then (if calls.matches oldpath
            then move_nvm_file oldpath newpath p
            else for_named oldpath (adopt newpath) p.capacity p)
        else (if calls.matches oldpath then release_all oldpath p else goes_on p)

    -- rename
    unfoldable pub rename : List ℕ → List ℕ → Process Guard W → Outcome (Process Guard W)
    unfolding move_guards for_named set_name
    rename oldpath newpath p =
        let (ok, w) = calls.rename oldpath newpath p.world in
        let p' = in_world w p in
        if ok
        then (move_guards oldpath newpath p' >>= λ p1.
            for_named oldpath (set_name newpath) p1.capacity p1 >>= returns (pos 0))
        else returns (negsuc 0) p'
