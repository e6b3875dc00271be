-- ===== src/Inject/Rename.antt =====
-- rename: the names and the guards of the open files follow a file to its new name.
use pmem_program.Base.{
  ℕ, ◌<◌, ◌≡◌, ◌≢◌, inl, inr, sym, ap, ◌∙◌, true, false, some, List, not, arith, Bool-cases,
}
use pmem_program.Base.Int.{ℤ, pos}
use mathlib.Core.Option.{some-injective}
use pmem_program.Inject.Table.{Ends, Ends->>=, Guarded, has_guard, negsuc_pos}
use pmem_program.Inject.Moves.{Moved, named_lem, named_name, named_own, move_guards_lem}
use pmem_program.Inject.Loops.{Swept, Fails, for_named-Swept, Renames, set_name_lem}
use pmem_program.Inject.{
  Calls, Process, Outcome, goes_on, returns, crashes, ◌>>=◌, in_world, is_none,
}
use pmem_program.Inject.Paths.{named, for_named, set_name, move_guards, rename}

-- A piece of code that only fails early meets what is asked for the result 0.
Fails-Ends :
    {Guard W : Type 0} (Q : Process Guard W → Type 0) (S : Process Guard W → Type 0)
    (m : Outcome (Process Guard W))
    → Ends Q Fails m
    → Ends Q (λ r p. r ≡ pos 0 → S p) m
Fails-Ends Q S (goes_on p) h = h
Fails-Ends Q S (returns r p) h = λ e. absurd (h e)
Fails-Ends Q S crashes h = h

module _ {Guard W : Type 0} (calls : Calls Guard W) where
  -- What a rename that returns 0 leaves.
  pub record Renamed (oldpath newpath : List ℕ) (p p' : Process Guard W) : Type 0 where
    pub guarded : Guarded calls p'
    pub capacity : p'.capacity ≡ p.capacity
    pub follows :
        (i : ℕ)
        → i < p.capacity
        → (p.entries i).name ≡ some oldpath
        → ((p'.entries i).name ≡ some newpath) × (has_guard (p'.entries i) ≡ calls.matches newpath)
    pub others :
        (i : ℕ) → i < p.capacity → (p.entries i).name ≢ some oldpath → p'.entries i ≡ p.entries i

  module _ (oldpath newpath : List ℕ) (p : Process Guard W) (guarded : Guarded calls p) where
    -- The last loop, on what the first ones leave.
    renamed :
        (p1 p2 : Process Guard W)
        → Moved calls oldpath newpath p p1
        → Swept calls (Renames calls newpath) oldpath p1.capacity p1 p2
        → Renamed oldpath newpath p p2
    renamed p1 p2 m s = record {
      guarded = record {
        present = s.present;
        guards = λ i file h e. elim (Bool-cases (named calls oldpath (p.entries i))) [
          | inl old ↦
              let (name, guard) = follow i (below i h) old in
              guard ∙ ap calls.matches (some-injective _ _ (sym name ∙ e))
          | inr other ↦
              let same = stay i other in
              ap has_guard same
              ∙ guarded.guards i file (below i h) (sym (ap (λ t. t.name) same) ∙ e)
        ];
      };
      capacity = s.capacity ∙ m.capacity;
      follows = λ i h e. follow i h (named_own calls oldpath (p.entries i) e);
      others = λ i h other. elim (Bool-cases (named calls oldpath (p.entries i))) [
        | inl old ↦ absurd (other (named_lem calls oldpath (p.entries i) old))
        | inr off ↦ stay i off
      ];
    }
      where
        below : (i : ℕ) → i < p2.capacity → i < p.capacity
        below i h = omega (arith, h, s.capacity, m.capacity)

        follow :
            (i : ℕ)
            → i < p.capacity
            → named calls oldpath (p.entries i) ≡ true
            → ((p2.entries i).name ≡ some newpath)
              × (has_guard (p2.entries i) ≡ calls.matches newpath)
        follow i h old =
            let (same, guard) = m.fits i h old in
            let (name, kept) =
              s.swept i (omega (arith, h, m.capacity))
                (named_name calls oldpath (p.entries i) (p1.entries i) same ∙ old) in
            (name, ap (λ o. not (is_none o)) kept ∙ guard)

        stay : (i : ℕ) → named calls oldpath (p.entries i) ≡ false → p2.entries i ≡ p.entries i
        stay i other =
            let same = m.kept i other in s.kept i (ap (named calls oldpath) same ∙ other) ∙ same

  abbrev Good : List ℕ → List ℕ → Process Guard W → ℤ → Process Guard W → Type 0
  Good oldpath newpath p r p' = r ≡ pos 0 → Renamed oldpath newpath p p'

  last_loop :
      (oldpath newpath : List ℕ) (p : Process Guard W) (w : W)
      → Guarded calls p
      → (p1 : Process Guard W) → Moved calls oldpath newpath (in_world w p) p1
      → Ends
          (λ p'. ⊥)
          (Good oldpath newpath p)
          (for_named calls oldpath (set_name calls newpath) p1.capacity p1 >>= returns (pos 0))
  last_loop oldpath newpath p w guarded p1 m =
      Ends->>= (Swept calls (Renames calls newpath) oldpath p1.capacity p1) (λ p'. ⊥)
        (Good oldpath newpath p) (for_named calls oldpath (set_name calls newpath) p1.capacity p1) _
        (Fails-Ends (Swept calls (Renames calls newpath) oldpath p1.capacity p1)
          (Renamed oldpath newpath p) _
          (for_named-Swept calls (Renames calls newpath) (λ entry. Unit {0}) oldpath
            (set_name calls newpath) (λ i q any. set_name_lem calls newpath i q) p1.capacity p1
            m.present (λ i h name. tt)))
        (λ p2 s ok.
          let r =
            renamed oldpath newpath (in_world w p)
              (record { present = guarded.present; guards = guarded.guards }) p1 p2 m s in
          record {
            guarded = r.guarded;
            capacity = r.capacity;
            follows = r.follows;
            others = r.others;
          })

  -- rename, where a file is guarded exactly if its name matches the pattern, malloc and
  -- aofguard_init succeed and a file that leaves the pattern has its memory file, does not crash;
  -- where it returns 0 every entry with the old name has the new one, and a guard exactly if that
  -- matches, every other entry is as it was, and the files are guarded as before.
  pub rename-Renamed :
      (oldpath newpath : List ℕ) (p : Process Guard W)
      → Guarded calls p
      → ((w : W) → (calls.malloc w).0 ≡ true)
      → ((n : ℕ) (file : List ℕ) (w : W) → (calls.aofguard_init n file true w).0 ≡ true)
      → (calls.matches oldpath ≡ true
          → calls.matches newpath ≡ false
          → calls.accessible (calls.nvm_file oldpath) (calls.rename oldpath newpath p.world).1
            ≡ true)
      → Ends
          (λ p'. ⊥)
          (λ r p'. r ≡ pos 0 → Renamed oldpath newpath p p')
          (rename calls oldpath newpath p)
  unfolding rename
  rename-Renamed oldpath newpath p guarded mallocs inits there =
      elim (Bool-cases (calls.rename oldpath newpath p.world).0) [
        | inr failed ↦ rw failed (λ e. absurd (negsuc_pos e))
        | inl ok ↦
            let w = (calls.rename oldpath newpath p.world).1 in
            rw ok (
              Ends->>= (Moved calls oldpath newpath (in_world w p)) (λ p'. ⊥)
                (Good oldpath newpath p) (move_guards calls oldpath newpath (in_world w p)) _
                (Fails-Ends (Moved calls oldpath newpath (in_world w p)) (Renamed oldpath newpath p)
                  _
                  (move_guards_lem calls oldpath newpath (in_world w p)
                    (record { present = guarded.present; guards = guarded.guards }) mallocs inits
                    there))
                (last_loop oldpath newpath p w guarded))
      ]
