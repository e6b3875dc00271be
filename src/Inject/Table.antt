-- ===== src/Inject/Table.antt =====
-- The table of open files: how a call ends, and what guards the files that it names.
use pmem_program.Base.{
  ℕ, zero, suc, ◌+◌, ◌*◌, ◌≤◌, ◌<◌, ◌≡◌, ◌≢◌, inl, inr, refl, sym, ap, ◌∙◌, Bool, true, false,
  Option, none, some, List, ltb, not, if◌then◌else◌, arith, ℕ_discrete, Bool-cases, ltb→lt, lt→ltb,
  leb→le, ◌&&◌,
}
use mathlib.Core.Option.{some-injective}
use pmem_program.Base.Int.{ℤ, pos, negsuc}
use pmem_program.Inject.{
  Filedes, Calls, Process, Outcome, goes_on, returns, crashes, ◌>>=◌, grown, set_entry, in_world,
  grow_table, enter_name, drop_guard, put_guard, enter_file, is_none, drop_this,
}

-- The doublings of handle_open, as many turns as the descriptor's number plus one, give a capacity
-- above the descriptor, the old one where it was so already, and else twice the descriptor at most.
pub grown_lem :
    (fuel capacity fd : ℕ)
    → 1 ≤ capacity
    → fd < capacity + fuel
    → (fd < grown fuel capacity fd)
      × (fd < capacity → grown fuel capacity fd ≡ capacity)
      × (capacity ≤ fd → grown fuel capacity fd ≤ 2 * fd)
unfolding grown
grown_lem zero capacity fd one h = (omega (arith, h), λ k. refl, λ k. omega (arith, h, k))
grown_lem (suc fuel) capacity fd one h =
    let ih = grown_lem fuel (capacity * 2) fd (omega (arith, one)) (omega (arith, one, h)) in
    ground arith

pub if_true : {A : Type 0} {b : Bool} (x y : A) → b ≡ true → (if b then x else y) ≡ x
if_true x y e = rw e refl

pub if_false : {A : Type 0} {b : Bool} (x y : A) → b ≡ false → (if b then x else y) ≡ y
if_false x y e = rw e refl

pub negsuc_pos : {n m : ℕ} → negsuc n ≢ pos m
negsuc_pos h = cc

pub true_ne_false : false ≢ true
true_ne_false h = cc

pub pos-injective : {n m : ℕ} → pos n ≡ pos m → n ≡ m
pos-injective {n} h = ap (λ z. elim z [ pos k ↦ k | negsuc k ↦ n ]) h

pub named_ne_none : {file : List ℕ} → none ≢ some file
named_ne_none h = cc

pub zero_one : pos 0 ≢ pos 1
zero_one h = cc

-- A piece of code does not crash; Q holds where it goes on, and R of what it returns.
abbrev pub Ends : {P : Type 0} → (P → Type 0) → (ℤ → P → Type 0) → Outcome P → Type 0
Ends Q R (goes_on p) = Q p
Ends Q R (returns r p) = R r p
Ends Q R crashes = ⊥

pub Ends->>= :
    {P : Type 0} (Q Q' : P → Type 0) (R : ℤ → P → Type 0) (m : Outcome P) (f : P → Outcome P)
    → Ends Q R m
    → ((p : P) → Q p → Ends Q' R (f p))
    → Ends Q' R (m >>= f)
Ends->>= Q Q' R (goes_on p) f h k = k p h
Ends->>= Q Q' R (returns r p) f h k = h
Ends->>= Q Q' R crashes f h k = absurd h

abbrev pub has_guard : {Guard : Type 0} → Filedes Guard → Bool
has_guard entry = not (is_none entry.aofguard)

module _ {Guard W : Type 0} where
  -- The table is there, and the files whose names match the pattern, and no others, have a guard.
  pub record Guarded (calls : Calls Guard W) (p : Process Guard W) : Type 0 where
    pub present : p.present ≡ true
    pub guards :
        (i : ℕ) (file : List ℕ)
        → i < p.capacity
        → (p.entries i).name ≡ some file
        → has_guard (p.entries i) ≡ calls.matches file

  -- Only entry fd changes.
  pub record Only (fd : ℕ) (p p' : Process Guard W) : Type 0 where
    pub present : p'.present ≡ true
    pub room : fd < p'.capacity
    pub larger : p.capacity ≤ p'.capacity
    pub old : (i : ℕ) → i < p.capacity → i ≢ fd → p'.entries i ≡ p.entries i
    pub new : (i : ℕ) → p.capacity ≤ i → i ≢ fd → i < p'.capacity → (p'.entries i).name ≡ none

  Only-set_entry :
      {fd : ℕ} {p p' : Process Guard W} (w : W) (entry : Filedes Guard)
      → Only fd p p'
      → Only fd p (in_world w (set_entry fd entry p'))
  Only-set_entry w entry only = record {
    present = only.present;
    room = only.room;
    larger = only.larger;
    old = λ i h ne. let e = only.old i h ne in ground arith;
    new = λ i h ne k. let e = only.new i h ne k in ground arith;
  }

  Only-in_world :
      {fd : ℕ} {p p' : Process Guard W} (w : W) → Only fd p p' → Only fd p (in_world w p')
  Only-in_world w only = record {
    present = only.present;
    room = only.room;
    larger = only.larger;
    old = only.old;
    new = only.new;
  }

  module _ (calls : Calls Guard W) (file : List ℕ) (fd : ℕ) (p : Process Guard W)
      (guarded : Guarded calls p) (some_room : 1 ≤ p.capacity) where
    abbrev pub Opened : ℤ → Process Guard W → Type 0
    Opened r p' = r ≡ pos 1 → Guarded calls p' × Only fd p p' × ((p'.entries fd).name ≡ some file)

    grow_table_lem : Ends (Only fd p) Opened (grow_table calls fd p)
    unfolding grow_table
    grow_table_lem =
        let g = grown_lem (fd + 1) p.capacity fd some_room (omega arith) in
        elim (Bool-cases (ltb fd p.capacity)) [
          | inl in_table ↦ rw in_table (record {
            present = guarded.present;
            room = ltb→lt fd p.capacity in_table;
            larger = omega arith;
            old = λ i h ne. refl;
            new = λ i h ne k. absurd (omega (arith, h, k));
          })
          | inr beyond ↦
              rw beyond
                (elim (Bool-cases (calls.realloc (grown (fd + 1) p.capacity fd) p.world).0) [
                  | inl ok ↦ rw ok (record {
                    present = refl;
                    room = g.0;
                    larger = omega (arith, g.0, leb→le p.capacity fd (ground arith));
                    old = λ i h ne. ground arith;
                    new = λ i h ne k. ground arith;
                  })
                  | inr failed ↦ rw failed (λ e. absurd (zero_one e))
                ])
        ]

    abbrev Named : Process Guard W → Type 0
    Named p' = Only fd p p' × ((p'.entries fd).name ≡ some file)

    own_entry :
        (p' : Process Guard W) (entry : Filedes Guard) → (set_entry fd entry p').entries fd ≡ entry
    own_entry p' entry = ground arith

    enter_name_lem :
        (p' : Process Guard W) → Only fd p p' → Ends Named Opened (enter_name calls file fd p')
    unfolding enter_name
    enter_name_lem p' only =
        let there = lt→ltb fd p'.capacity only.room in
        let e : not (ltb fd p'.capacity && p'.present) ≡ false = rw (there, only.present) refl in
        rw e (elim (Bool-cases (calls.strdup file p'.world).0) [
          | inl ok ↦ rw ok (Only-set_entry _ _ only, ap (λ e. e.name) (own_entry p' _))
          | inr failed ↦ rw failed (λ e. absurd (zero_one e))
        ])

    drop_this_lem :
        (old : Option Guard) (p' : Process Guard W)
        → Named p'
        → Ends Named Opened (drop_this calls (pos 0) fd old p')
    unfolding drop_this
    drop_this_lem none p' named = named
    drop_this_lem (some guard) p' (only, name) =
        elim (Bool-cases (calls.aofguard_deinit guard p'.world).0) [
          | inl ok ↦ rw ok (Only-set_entry _ _ only, ap (λ e. e.name) (own_entry p' _) ∙ name)
          | inr failed ↦ rw failed (λ e. absurd (zero_one e))
        ]

    drop_guard_lem :
        (p' : Process Guard W) → Named p' → Ends Named Opened (drop_guard calls (pos 0) fd p')
    unfolding drop_guard
    drop_guard_lem p' named = drop_this_lem (p'.entries fd).aofguard p' named

    -- The other files of the table are guarded as before.
    others :
        (p' : Process Guard W)
        → Only fd p p'
        → (i : ℕ) (f : List ℕ) → i < p'.capacity
        → i ≢ fd
        → (p'.entries i).name ≡ some f
        → has_guard (p'.entries i) ≡ calls.matches f
    others p' only i f h ne e = elim (Bool-cases (ltb i p.capacity)) [
      | inl old ↦
          let below = ltb→lt i p.capacity old in
          let same = only.old i below ne in
          ap has_guard same ∙ guarded.guards i f below (sym (ap (λ e. e.name) same) ∙ e)
      | inr new ↦ absurd (named_ne_none (sym (only.new i (ground arith) ne h) ∙ e))
    ]

    -- handle_open of a regular file that has got the guard it needs
    pub enter_file_lem :
        (guard : Option Guard)
        → not (is_none guard) ≡ calls.matches file
        → Ends (λ p'. ⊥) Opened (enter_file calls file fd guard p)
    unfolding enter_file
    enter_file_lem guard fits =
        Ends->>= Named (λ p'. ⊥) Opened
          (grow_table calls fd p >>= enter_name calls file fd >>= drop_guard calls (pos 0) fd) _
          (Ends->>= Named Named Opened (grow_table calls fd p >>= enter_name calls file fd) _
            (Ends->>= (Only fd p) Named Opened (grow_table calls fd p) _ grow_table_lem
              enter_name_lem)
            drop_guard_lem)
          entered
      where
        entered : (p' : Process Guard W) → Named p' → Opened (pos 1) (put_guard guard fd p')
        entered p' (only, name) ok = (
          record {
            present = only.present;
            guards = λ i f h e. elim (ℕ_discrete fd i) [
              | yes here ↦
                  let g : has_guard ((put_guard guard fd p').entries i) ≡ not (is_none guard) =
                    ground arith in
                  let n : f ≡ file = some-injective _ _ (ground arith) in
                  g ∙ fits ∙ ap calls.matches (sym n)
              | no ne ↦
                  let same : (put_guard guard fd p').entries i ≡ p'.entries i = ground arith in
                  ap has_guard same
                  ∙ others p' only i f h (λ z. ne (sym z)) (sym (ap (λ e. e.name) same) ∙ e)
            ];
          },
          Only-in_world p'.world (Only-set_entry p'.world _ only),
          ap (λ e. e.name) (own_entry p' _) ∙ name,
        )
