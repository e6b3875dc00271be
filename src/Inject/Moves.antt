-- ===== src/Inject/Moves.antt =====
-- rename's moves of the memory files and the guards, before the names change.
use pmem_program.Base.{
  ℕ, ◌<◌, ◌≡◌, inl, inr, refl, sym, ap, ◌∙◌, Bool, true, false, Option, none, some, List,
  Bool-cases,
}
use pmem_program.Base.Strings.{same_string, same_string_lem, same_string_refl}
use mathlib.Core.Path.{subst}
use pmem_program.Inject.Table.{
  Ends, Ends->>=, Guarded, has_guard, if_true, if_false, true_ne_false, negsuc_pos,
}
use pmem_program.Inject.Loops.{
  Swept, Fails, for_named-Swept, NameKept, adopt_lem, release_lem, map-Ends,
}
use pmem_program.Inject.{Filedes, Calls, Process, in_world}
use pmem_program.Inject.Paths.{
  named, for_named, adopt, release, remove_nvm_file, move_nvm_file, release_all, move_guards,
}

module _ {Guard W : Type 0} (calls : Calls Guard W) where
  pub named_lem :
      (path : List ℕ) (entry : Filedes Guard)
      → named calls path entry ≡ true
      → entry.name ≡ some path
  unfolding named
  named_lem path entry h = go entry.name h
    where
      go :
          (o : Option (List ℕ))
          → elim o [ none ↦ false | some name ↦ same_string name path ] ≡ true
          → o ≡ some path
      go none e = absurd (true_ne_false e)
      go (some name) e = ap some (same_string_lem name path e)

  pub named_name :
      (path : List ℕ) (e e' : Filedes Guard)
      → e'.name ≡ e.name
      → named calls path e' ≡ named calls path e
  unfolding named
  named_name path e e' h = ap (λ o. elim o [ none ↦ false | some name ↦ same_string name path ]) h

  pub named_own :
      (path : List ℕ) (entry : Filedes Guard)
      → entry.name ≡ some path
      → named calls path entry ≡ true
  unfolding named
  named_own path entry h =
      ap (λ o. elim o [ none ↦ false | some name ↦ same_string name path ]) h
      ∙ same_string_refl path

  -- Between the steps of rename: the table's entries with the old name have the guard that the
  -- new name needs.
  pub record Moved (oldpath newpath : List ℕ) (p p1 : Process Guard W) : Type 0 where
    pub present : p1.present ≡ true
    pub capacity : p1.capacity ≡ p.capacity
    pub fits :
        (i : ℕ)
        → i < p.capacity
        → named calls oldpath (p.entries i) ≡ true
        → NameKept calls (calls.matches newpath) (p.entries i) (p1.entries i)
    pub kept : (i : ℕ) → named calls oldpath (p.entries i) ≡ false → p1.entries i ≡ p.entries i

  module _ (oldpath newpath : List ℕ) (p : Process Guard W) (guarded : Guarded calls p) where
    still :
        (w : W)
        → calls.matches oldpath ≡ calls.matches newpath
        → Moved oldpath newpath p (in_world w p)
    still w same = record {
      present = guarded.present;
      capacity = refl;
      fits = λ i h m. (refl, guarded.guards i oldpath h (named_lem oldpath (p.entries i) m) ∙ same);
      kept = λ i m. refl;
    }

    remove_nvm_file_lem :
        (file : List ℕ)
        → Ends (λ p1. (w : W) × (p1 ≡ in_world w p)) Fails (remove_nvm_file calls file p)
    unfolding remove_nvm_file
    remove_nvm_file_lem file = elim (Bool-cases (calls.accessible (calls.nvm_file file) p.world)) [
      | inr gone ↦ rw gone (p.world, refl)
      | inl there ↦ rw there (elim (Bool-cases (calls.unlinkat (calls.nvm_file file) p.world).0) [
        | inl ok ↦ rw ok (_, refl)
        | inr failed ↦ rw failed negsuc_pos
      ])
    ]

    move_nvm_file_lem :
        calls.matches oldpath ≡ calls.matches newpath
        → Ends (Moved oldpath newpath p) Fails (move_nvm_file calls oldpath newpath p)
    unfolding move_nvm_file
    move_nvm_file_lem same = elim (Bool-cases (calls.accessible (calls.nvm_file oldpath) p.world)) [
      | inr gone ↦ rw gone (
          map-Ends (λ p1. (w : W) × (p1 ≡ in_world w p)) (Moved oldpath newpath p) Fails
            (remove_nvm_file calls newpath p) (remove_nvm_file_lem newpath)
            (λ p1 (w, e). subst (Moved oldpath newpath p) (sym e) (still w same)))
      | inl there ↦
          rw there
            (elim (Bool-cases
              (calls.renameat (calls.nvm_file oldpath) (calls.nvm_file newpath) p.world).0) [
                | inl ok ↦ rw ok (still _ same)
                | inr failed ↦ rw failed negsuc_pos
              ])
    ]

    Swept-Moved :
        (guard : Bool) (p1 : Process Guard W) (w : W)
        → guard ≡ calls.matches newpath
        → Swept calls (NameKept calls guard) oldpath p.capacity (in_world w p) p1
        → Moved oldpath newpath p p1
    Swept-Moved guard p1 w e s = record {
      present = s.present;
      capacity = s.capacity;
      fits = λ i h m. ((s.swept i h m).0, (s.swept i h m).1 ∙ e);
      kept = s.kept;
    }

    -- The table after remove_nvm_file, and the guards that it has then.
    release_loop :
        calls.matches oldpath ≡ true
        → calls.matches newpath ≡ false
        → (p0 : Process Guard W) → ((w : W) × (p0 ≡ in_world w p))
        → Ends
            (Moved oldpath newpath p)
            Fails
            (for_named calls oldpath (release calls) p.capacity p0)
    release_loop old new p0 (w, e) =
        subst
          (λ t.
            Ends (Moved oldpath newpath p) Fails
              (for_named calls oldpath (release calls) p.capacity t))
          (sym e)
          (map-Ends (Swept calls (NameKept calls false) oldpath p.capacity (in_world w p))
            (Moved oldpath newpath p) Fails
            (for_named calls oldpath (release calls) p.capacity (in_world w p))
            (for_named-Swept calls (NameKept calls false) (λ entry. has_guard entry ≡ true) oldpath
              (release calls) (release_lem calls) p.capacity (in_world w p) guarded.present
              (λ i h m. guarded.guards i oldpath h (named_lem oldpath (p.entries i) m) ∙ old))
            (λ p1 s. Swept-Moved false p1 w (sym new) s))

    release_all_lem :
        calls.matches oldpath ≡ true
        → calls.matches newpath ≡ false
        → calls.accessible (calls.nvm_file oldpath) p.world ≡ true
        → Ends (Moved oldpath newpath p) Fails (release_all calls oldpath p)
    unfolding release_all
    release_all_lem old new there =
        subst (Ends (Moved oldpath newpath p) Fails) (sym (if_true _ _ there)) (
          Ends->>= (λ p1. (w : W) × (p1 ≡ in_world w p)) (Moved oldpath newpath p) Fails
            (remove_nvm_file calls oldpath p) _ (remove_nvm_file_lem oldpath)
            (release_loop old new))

    adopt_all_lem :
        calls.matches oldpath ≡ false
        → calls.matches newpath ≡ true
        → ((w : W) → (calls.malloc w).0 ≡ true)
        → ((n : ℕ) (file : List ℕ) (w : W) → (calls.aofguard_init n file true w).0 ≡ true)
        → Ends
            (Moved oldpath newpath p)
            Fails
            (for_named calls oldpath (adopt calls newpath) p.capacity p)
    adopt_all_lem old new mallocs inits =
        map-Ends (Swept calls (NameKept calls true) oldpath p.capacity p) (Moved oldpath newpath p)
          Fails (for_named calls oldpath (adopt calls newpath) p.capacity p)
          (for_named-Swept calls (NameKept calls true) (λ entry. has_guard entry ≡ false) oldpath
            (adopt calls newpath) (λ i q bare. adopt_lem calls newpath i q mallocs inits bare)
            p.capacity p guarded.present
            (λ i h m. guarded.guards i oldpath h (named_lem oldpath (p.entries i) m) ∙ old))
          (λ p1 s. Swept-Moved true p1 p.world (sym new) s)

    pub move_guards_lem :
        ((w : W) → (calls.malloc w).0 ≡ true)
        → ((n : ℕ) (file : List ℕ) (w : W) → (calls.aofguard_init n file true w).0 ≡ true)
        → (calls.matches oldpath ≡ true
            → calls.matches newpath ≡ false
            → calls.accessible (calls.nvm_file oldpath) p.world ≡ true)
        → Ends (Moved oldpath newpath p) Fails (move_guards calls oldpath newpath p)
    unfolding move_guards
    move_guards_lem mallocs inits there = elim (Bool-cases (calls.matches newpath)) [
      | inl new ↦
          subst (Ends (Moved oldpath newpath p) Fails) (sym (if_true _ _ new))
            (elim (Bool-cases (calls.matches oldpath)) [
              | inl old ↦
                  subst (Ends (Moved oldpath newpath p) Fails) (sym (if_true _ _ old))
                    (move_nvm_file_lem (old ∙ sym new))
              | inr old ↦
                  subst (Ends (Moved oldpath newpath p) Fails) (sym (if_false _ _ old))
                    (adopt_all_lem old new mallocs inits)
            ])
      | inr new ↦
          subst (Ends (Moved oldpath newpath p) Fails) (sym (if_false _ _ new))
            (elim (Bool-cases (calls.matches oldpath)) [
              | inl old ↦
                  subst (Ends (Moved oldpath newpath p) Fails) (sym (if_true _ _ old))
                    (release_all_lem old new (there old new))
              | inr old ↦
                  subst (Ends (Moved oldpath newpath p) Fails) (sym (if_false _ _ old))
                    (still p.world (old ∙ sym new))
            ])
    ]
