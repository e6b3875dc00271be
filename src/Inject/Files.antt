-- ===== src/Inject/Files.antt =====
-- open, write and close with the table of open files.
use pmem_program.Base.{
  ℕ, ◌≤◌, ◌<◌, ◌≡◌, ◌≢◌, inl, inr, refl, sym, ap, ◌∙◌, Bool, true, false, Option, none, some, List,
  ltb, not, arith, ℕ_discrete, Bool-cases, ltb→lt, lt→ltb,
}
use mathlib.Core.Option.{some-injective}
use mathlib.Core.Path.{subst}
use pmem_program.Base.Int.{ℤ, pos, negsuc}
use pmem_program.Inject.Table.{
  Ends, Guarded, Only, has_guard, zero_one, named_ne_none, if_true, if_false, negsuc_pos,
  true_ne_false, pos-injective, enter_file_lem, Opened,
}
use pmem_program.Inject.{
  Filedes, Calls, Process, Outcome, ◌>>=◌, goes_on, returns, crashes, set_entry, in_world,
  drop_guard, enter_file, open_file, handle_open, handle_stat, ends_with, drop_this, with_entry,
  close,
}

named_ne_some : {A : Type 0} {a : A} → none ≢ some a
named_ne_some h = cc

module _ {Guard W : Type 0} (calls : Calls Guard W) where
  -- What handle_open leaves when it returns 1.
  abbrev pub Handled : List ℕ → ℤ → Process Guard W → ℤ → Process Guard W → Type 0
  Handled file fd p r p' =
      r ≡ pos 1
      → Guarded calls p'
        × ((n : ℕ)
            → fd ≡ pos n
            → p.init_done ≡ true
            → calls.fstat n p.world ≡ some true
            → Only n p p' × ((p'.entries n).name ≡ some file))

  guarded_world : (p : Process Guard W) (w : W) → Guarded calls p → Guarded calls (in_world w p)
  guarded_world p w guarded = record { present = guarded.present; guards = guarded.guards }

  Opened-Handled :
      (file : List ℕ) (fd : ℕ) (p : Process Guard W) (w : W)
      (guarded : Guarded calls (in_world w p)) (room : 1 ≤ p.capacity)
      (o : Outcome (Process Guard W))
      → Ends (λ p'. ⊥) (Opened calls file fd (in_world w p) guarded room) o
      → Ends (λ p'. ⊥) (Handled file (pos fd) p) o
  Opened-Handled file fd p w guarded room (goes_on p') h = absurd h
  Opened-Handled file fd p w guarded room (returns r p') h = λ e.
      let (g, only, name) = h e in
      (
        g,
        λ n same ready regular. rw (← pos-injective same) (
          record {
            present = only.present;
            room = only.room;
            larger = only.larger;
            old = only.old;
            new = only.new;
          },
          name,
        ),
      )
  Opened-Handled file fd p w guarded room crashes h = absurd h

  abbrev init_result : List ℕ → ℕ → Process Guard W → Bool × Guard × W
  init_result file fd p =
      calls.aofguard_init fd (calls.nvm_file file) false (calls.malloc p.world).1

  open_file_lem :
      (file : List ℕ) (fd : ℕ) (p : Process Guard W)
      → Guarded calls p
      → 1 ≤ p.capacity
      → Ends (λ p'. ⊥) (Handled file (pos fd) p) (open_file calls file fd p)
  unfolding open_file
  open_file_lem file fd p guarded room = elim (Bool-cases (calls.matches file)) [
    | inr plain ↦ rw plain (
        Opened-Handled file fd p p.world guarded room (enter_file calls file fd none p)
          (enter_file_lem calls file fd p guarded room none (sym plain)))
    | inl match ↦ rw match (elim (Bool-cases (calls.malloc p.world).0) [
      | inr failed ↦ rw failed (λ e. absurd (zero_one e))
      | inl got ↦ rw got (elim (Bool-cases (init_result file fd p).0) [
        | inr failed ↦ rw failed (λ e. absurd (zero_one e))
        | inl ok ↦
            let w = (init_result file fd p).2 in
            let guard = (init_result file fd p).1 in
            let guarded' = guarded_world p w guarded in
            rw ok (
              Opened-Handled file fd p w guarded' room
                (enter_file calls file fd (some guard) (in_world w p))
                (enter_file_lem calls file fd (in_world w p) guarded' room (some guard)
                  (sym match)))
      ])
    ])
  ]

  handle_stat_lem :
      (file : List ℕ) (fd : ℕ) (p : Process Guard W)
      → Guarded calls p
      → 1 ≤ p.capacity
      → (stat : Option Bool) → calls.fstat fd p.world ≡ stat
      → Ends (λ p'. ⊥) (Handled file (pos fd) p) (handle_stat calls stat file fd p)
  unfolding handle_stat
  handle_stat_lem file fd p guarded room none h = λ e. absurd (zero_one e)
  handle_stat_lem file fd p guarded room (some true) h = open_file_lem file fd p guarded room
  handle_stat_lem file fd p guarded room (some false) h = λ e. (
    guarded,
    λ m same ready regular. absurd (
        true_ne_false (
          some-injective _ _
            (sym h ∙ ap (λ t. calls.fstat t p.world) (pos-injective same) ∙ regular))),
  )

  with_entry_lem :
      (p : Process Guard W) (i : ℕ) (outside : Outcome (Process Guard W))
      (inside : ℕ → Filedes Guard → Outcome (Process Guard W))
      → Guarded calls p
      → i < p.capacity
      → with_entry (pos i) p outside inside ≡ inside i (p.entries i)
  unfolding with_entry
  with_entry_lem p i outside inside guarded h =
      if_true _ _ (lt→ltb i p.capacity h) ∙ if_true _ _ guarded.present

  -- handle_open of any descriptor on a table with room for one at least, whose named files are
  -- guarded exactly if their names match the pattern, neither crashes nor indexes out of the
  -- table; where it returns 1 the table is so again, and a regular file has its entry, with the
  -- other entries unchanged.
  pub handle_open-Guarded :
      (file : List ℕ) (fd : ℤ) (p : Process Guard W)
      → Guarded calls p
      → 1 ≤ p.capacity
      → Ends (λ p'. ⊥) (Handled file fd p) (handle_open calls file fd p)
  unfolding handle_open
  handle_open-Guarded file (negsuc n) p guarded room = λ e. (guarded, λ m h. absurd (negsuc_pos h))
  handle_open-Guarded file (pos fd) p guarded room = elim (Bool-cases p.init_done) [
    | inr early ↦
        subst (Ends (λ p'. ⊥) (Handled file (pos fd) p)) (sym (if_true _ _ (ap not early)))
          (λ e. (guarded, λ m h ready. absurd (true_ne_false (sym early ∙ ready))))
    | inl ready ↦
        subst (Ends (λ p'. ⊥) (Handled file (pos fd) p)) (sym (if_false _ _ (ap not ready)))
          (handle_stat_lem file fd p guarded room (calls.fstat fd p.world) refl)
  ]

  -- What close of entry i leaves: no name; the other entries as they were; and the guard shut down
  -- once before the system call, which is left out, with the guard kept, when that fails.
  pub record Shut (i : ℕ) (p : Process Guard W) (r : ℤ) (p' : Process Guard W) : Type 0 where
    pub name : (p'.entries i).name ≡ none
    pub others : (j : ℕ) → i ≢ j → p'.entries j ≡ p.entries j
    pub capacity : p'.capacity ≡ p.capacity
    pub plain :
        (p.entries i).aofguard ≡ none
        → ((p'.entries i).aofguard ≡ none) × ((r, p'.world) ≡ calls.close (pos i) p.world)
    pub ends :
        (guard : Guard)
        → (p.entries i).aofguard ≡ some guard
        → (calls.aofguard_deinit guard p.world).0 ≡ true
        → ((p'.entries i).aofguard ≡ none)
          × ((r, p'.world) ≡ calls.close (pos i) (calls.aofguard_deinit guard p.world).1)
    pub fails :
        (guard : Guard)
        → (p.entries i).aofguard ≡ some guard
        → (calls.aofguard_deinit guard p.world).0 ≡ false
        → ((p'.entries i).aofguard ≡ some guard)
          × (r ≡ negsuc 0)
          × (p'.world ≡ (calls.aofguard_deinit guard p.world).1)

  -- The table is guarded, and the closed descriptor's entry is shut; a number out of the table
  -- is left to the system call.
  abbrev pub Closed : ℤ → Process Guard W → ℤ → Process Guard W → Type 0
  Closed fd p r p' =
      Guarded calls p'
      × ((i : ℕ) → fd ≡ pos i → i < p.capacity → Shut i p r p')
      × (((i : ℕ) → fd ≡ pos i → p.capacity ≤ i)
          → (p'.entries ≡ p.entries) × ((r, p'.world) ≡ calls.close fd p.world))

  -- A change of one entry that takes its name away.
  unnamed :
      (i : ℕ) (p p' : Process Guard W)
      → Guarded calls p
      → p'.present ≡ p.present
      → p'.capacity ≡ p.capacity
      → ((j : ℕ) → i ≢ j → p'.entries j ≡ p.entries j)
      → (p'.entries i).name ≡ none
      → Guarded calls p'
  unnamed i p p' guarded present capacity others own = record {
    present = present ∙ guarded.present;
    guards = λ j file h e. elim (ℕ_discrete i j) [
      | yes same ↦
          absurd (named_ne_none {file = file} (sym own ∙ ap (λ t. (p'.entries t).name) same ∙ e))
      | no ne ↦
          ap has_guard (others j ne)
          ∙ guarded.guards j file (omega (arith, h, capacity))
              (sym (ap (λ t. t.name) (others j ne)) ∙ e)
    ];
  }

  -- close's work on an entry of the table
  abbrev unname : ℕ → Process Guard W → Process Guard W
  unname i p = set_entry i (record (p.entries i) { name = none }) p

  abbrev shut : ℕ → Process Guard W → Process Guard W
  shut i p = set_entry i (record ((unname i p).entries i) { aofguard = none }) (unname i p)

  in_table :
      (i : ℕ) (p p' : Process Guard W) (r : ℤ)
      → i < p.capacity
      → Guarded calls p
      → p'.present ≡ p.present
      → Shut i p r p'
      → Closed (pos i) p r p'
  in_table i p p' r there guarded present closed = (
    unnamed i p p' guarded present closed.capacity closed.others closed.name,
    λ j same h. subst (λ t. Shut t p r p') (pos-injective same) closed,
    λ out. absurd (omega (arith, there, out i refl)),
  )

  drop_this-Closed :
      (i : ℕ) (p : Process Guard W)
      → Guarded calls p
      → i < p.capacity
      → (old : Option Guard) → (p.entries i).aofguard ≡ old
      → Ends
          (λ p'. ⊥)
          (Closed (pos i) p)
          (drop_this calls (negsuc 0) i old (unname i p) >>= λ p'.
            ends_with (calls.close (pos i) p'.world) p')
  unfolding drop_this
  drop_this-Closed i p guarded there none e =
      in_table i p (in_world (calls.close (pos i) p.world).1 (unname i p))
        (calls.close (pos i) p.world).0 there guarded refl
        (record {
          name = ground arith;
          others = λ j ne. ground arith;
          capacity = refl;
          plain = λ h. (ground arith, refl);
          ends = λ g h ok. absurd (named_ne_some (sym e ∙ h));
          fails = λ g h failed. absurd (named_ne_some (sym e ∙ h));
        })
  drop_this-Closed i p guarded there (some guard) e =
      let w = (calls.aofguard_deinit guard p.world).1 in
      elim (Bool-cases (calls.aofguard_deinit guard p.world).0) [
        | inl ok ↦ rw ok (
            in_table i p (in_world (calls.close (pos i) w).1 (in_world w (shut i p)))
              (calls.close (pos i) w).0 there guarded refl
              (record {
                name = ground arith;
                others = λ j ne. ground arith;
                capacity = refl;
                plain = λ h. absurd (named_ne_some (sym h ∙ e));
                ends = λ g h ok'. (
                  ground arith,
                  ap (λ t. calls.close (pos i) (calls.aofguard_deinit t p.world).1)
                      (some-injective _ _ (sym e ∙ h)),
                );
                fails = λ g h failed. absurd (
                    true_ne_false (
                      sym failed
                      ∙ ap (λ t. (calls.aofguard_deinit t p.world).0)
                          (some-injective _ _ (sym h ∙ e))
                      ∙ ok));
              }))
        | inr failed ↦ rw failed (
            in_table i p (in_world w (unname i p)) (negsuc 0) there guarded refl (record {
              name = ground arith;
              others = λ j ne. ground arith;
              capacity = refl;
              plain = λ h. absurd (named_ne_some (sym h ∙ e));
              ends = λ g h ok. absurd (
                  true_ne_false (
                    sym failed
                    ∙ ap (λ t. (calls.aofguard_deinit t p.world).0) (some-injective _ _ (sym e ∙ h))
                    ∙ ok));
              fails = λ g h failed'. (
                (let own : ((unname i p).entries i).aofguard ≡ (p.entries i).aofguard =
                      ground arith in
                    own ∙ h),
                refl,
                ap (λ t. (calls.aofguard_deinit t p.world).1) (some-injective _ _ (sym e ∙ h)),
              );
            }))
      ]

  -- close of any number on a table whose named files are guarded exactly if their names match the
  -- pattern does not crash, and whatever it returns leaves such a table, with the other entries as
  -- they were. The descriptor's entry has no name; its guard, if it has one, is shut down once
  -- before the system call, whose result is returned, and is gone from the entry; if the shutdown
  -- fails, close returns -1 without the system call, and the guard stays. A number out of the
  -- table changes no entry and is left to the system call.
  pub close-Guarded :
      (fd : ℤ) (p : Process Guard W)
      → Guarded calls p
      → Ends (λ p'. ⊥) (Closed fd p) (close calls fd p)
  unfolding close with_entry drop_guard
  close-Guarded (negsuc n) p guarded =
      (guarded_world p _ guarded, λ i same. absurd (negsuc_pos same), λ out. (refl, refl))
  close-Guarded (pos i) p guarded = elim (Bool-cases (ltb i p.capacity)) [
    | inr outside ↦ rw outside (
      guarded_world p _ guarded,
      λ j same h.
          absurd (true_ne_false (sym outside ∙ lt→ltb i p.capacity (rw (pos-injective same) h))),
      λ out. (refl, refl),
    )
    | inl there ↦
        let below = ltb→lt i p.capacity there in
        let own : (p.entries i).aofguard ≡ ((unname i p).entries i).aofguard = ground arith in
        let entered =
          with_entry_lem p i (goes_on p)
            (λ n entry.
              drop_guard calls (negsuc 0) n (set_entry n (record entry { name = none }) p))
            guarded below in
        subst (Ends (λ p'. ⊥) (Closed (pos i) p))
          (sym (ap (λ o. o >>= λ p'. ends_with (calls.close (pos i) p'.world) p') entered))
          (drop_this-Closed i p guarded below ((unname i p).entries i).aofguard own)
  ]
