-- ===== src/Inject/Loops.antt =====
-- rename's loops over the table of open files, and the bodies that they run.
use pmem_program.Base.{
  ℕ, zero, suc, ◌≤◌, ◌<◌, ◌≡◌, ◌≢◌, inl, inr, refl, sym, ap, ◌∙◌, Bool, true, false, Option, none,
  some, List, ◌==◌, not, if◌then◌else◌, arith, ℕ_discrete, Bool-cases,
}
use pmem_program.Base.Int.{ℤ, pos, negsuc}
use mathlib.Core.Path.{subst}
use pmem_program.Inject.Table.{
  Ends, Ends->>=, has_guard, if_true, if_false, true_ne_false, negsuc_pos,
}
use pmem_program.Inject.{
  Filedes, Calls, Process, Outcome, goes_on, returns, crashes, set_entry, in_world, drop_this,
  drop_guard, is_none,
}
use pmem_program.Inject.Paths.{named, for_named, adopt, adopt_if, release, set_name}

pub map-Ends :
    {P : Type 0} (Q Q' : P → Type 0) (R : ℤ → P → Type 0) (m : Outcome P)
    → Ends Q R m
    → ((p : P) → Q p → Q' p)
    → Ends Q' R m
map-Ends Q Q' R (goes_on p) h k = k p h
map-Ends Q Q' R (returns r p) h k = h
map-Ends Q Q' R crashes h k = h

module _ {Guard W : Type 0} where
  -- One turn changes entry i as E says.
  pub record Turn (E : Filedes Guard → Filedes Guard → Type 0) (i : ℕ) (p p' : Process Guard W)
      : Type 0 where
    pub present : p'.present ≡ p.present
    pub capacity : p'.capacity ≡ p.capacity
    pub own : E (p.entries i) (p'.entries i)
    pub others : (j : ℕ) → i ≢ j → p'.entries j ≡ p.entries j

  -- The first n turns change the entries with the name as E says.
  pub record Swept (calls : Calls Guard W) (E : Filedes Guard → Filedes Guard → Type 0)
      (path : List ℕ) (n : ℕ) (p p' : Process Guard W) : Type 0 where
    pub present : p'.present ≡ true
    pub capacity : p'.capacity ≡ p.capacity
    pub swept :
        (i : ℕ) → i < n → named calls path (p.entries i) ≡ true → E (p.entries i) (p'.entries i)
    pub later : (i : ℕ) → n ≤ i → p'.entries i ≡ p.entries i
    pub kept : (i : ℕ) → named calls path (p.entries i) ≡ false → p'.entries i ≡ p.entries i

  abbrev pub Fails : ℤ → Process Guard W → Type 0
  Fails r p = r ≢ pos 0

  module _ (calls : Calls Guard W) (E : Filedes Guard → Filedes Guard → Type 0)
      (A : Filedes Guard → Type 0) (path : List ℕ)
      (body : ℕ → Process Guard W → Outcome (Process Guard W))
      (turn : (i : ℕ) (p : Process Guard W)
        → A (p.entries i)
        → Ends (Turn E i p) Fails (body i p)) where
    next :
        (n : ℕ) (p p1 p2 : Process Guard W)
        → named calls path (p.entries n) ≡ true
        → Swept calls E path n p p1
        → Turn E n p1 p2
        → Swept calls E path (suc n) p p2
    next n p p1 p2 name s t = record {
      present = t.present ∙ s.present;
      capacity = t.capacity ∙ s.capacity;
      swept = λ i h m. elim (ℕ_discrete n i) [
        | yes e ↦
            subst (λ k. E (p.entries k) (p2.entries k)) e
              (subst (λ x. E x (p2.entries n)) (s.later n (omega arith)) t.own)
        | no ne ↦ rw (t.others i ne) (s.swept i (omega (arith, h, ne)) m)
      ];
      later = λ i h. t.others i (λ e. omega (arith, h, e)) ∙ s.later i (omega (arith, h));
      kept = λ i m.
          t.others i
            (λ e. true_ne_false (sym m ∙ ap (λ k. named calls path (p.entries k)) (sym e) ∙ name))
          ∙ s.kept i m;
    }

    skip :
        (n : ℕ) (p p1 : Process Guard W)
        → named calls path (p.entries n) ≡ false
        → Swept calls E path n p p1
        → Swept calls E path (suc n) p p1
    skip n p p1 name s = record {
      present = s.present;
      capacity = s.capacity;
      swept = λ i h m. elim (ℕ_discrete n i) [
        | yes e ↦ absurd (true_ne_false (sym name ∙ ap (λ k. named calls path (p.entries k)) e ∙ m))
        | no ne ↦ s.swept i (omega (arith, h, ne)) m
      ];
      later = λ i h. s.later i (omega (arith, h));
      kept = s.kept;
    }

    pub for_named-Swept :
        (n : ℕ) (p : Process Guard W)
        → p.present ≡ true
        → ((i : ℕ) → i < n → named calls path (p.entries i) ≡ true → A (p.entries i))
        → Ends (Swept calls E path n p) Fails (for_named calls path body n p)
    unfolding for_named
    for_named-Swept zero p present ready = record {
      present = present;
      capacity = refl;
      swept = λ i h. absurd (omega (arith, h));
      later = λ i h. refl;
      kept = λ i h. refl;
    }
    for_named-Swept (suc n) p present ready =
        Ends->>= (Swept calls E path n p) (Swept calls E path (suc n) p) Fails
          (for_named calls path body n p) _
          (for_named-Swept n p present (λ i h. ready i (omega (arith, h)))) step
      where
        step :
            (p1 : Process Guard W)
            → Swept calls E path n p p1
            → Ends (Swept calls E path (suc n) p) Fails (
                if not p1.present
                then crashes
                else (if named calls path (p1.entries n) then body n p1 else goes_on p1))
        step p1 s =
            subst (Ends (Swept calls E path (suc n) p) Fails)
              (sym (if_false _ _ (ap not s.present)))
              (elim (Bool-cases (named calls path (p.entries n))) [
                | inl name ↦
                    subst (Ends (Swept calls E path (suc n) p) Fails)
                      (sym (if_true _ _ (ap (named calls path) (s.later n (omega arith)) ∙ name)))
                      (map-Ends (Turn E n p1) (Swept calls E path (suc n) p) Fails (body n p1)
                        (turn n p1
                          (subst A (sym (s.later n (omega arith))) (ready n (omega arith) name)))
                        (λ p2 t. next n p p1 p2 name s t))
                | inr name ↦
                    subst (Ends (Swept calls E path (suc n) p) Fails)
                      (sym (if_false _ _ (ap (named calls path) (s.later n (omega arith)) ∙ name)))
                      (skip n p p1 name s)
              ])

module _ {Guard W : Type 0} (calls : Calls Guard W) where
  abbrev pub NameKept : Bool → Filedes Guard → Filedes Guard → Type 0
  NameKept guard e e' = (e'.name ≡ e.name) × (has_guard e' ≡ guard)

  abbrev pub Renames : List ℕ → Filedes Guard → Filedes Guard → Type 0
  Renames newpath e e' = (e'.name ≡ some newpath) × (e'.aofguard ≡ e.aofguard)

  -- A loop body's change of its own entry.
  set_entry-Turn :
      (E : Filedes Guard → Filedes Guard → Type 0) (i : ℕ) (p : Process Guard W)
      (entry : Filedes Guard) (w : W)
      → E (p.entries i) entry
      → Turn E i p (in_world w (set_entry i entry p))
  set_entry-Turn E i p entry w e = record {
    present = refl;
    capacity = refl;
    own = subst (E (p.entries i)) (sym (if_true _ _ (same i))) e;
    others = λ j ne. ground arith;
  }
    where
      same : (i : ℕ) → (i == i) ≡ true
      same i = ground arith

  -- Where malloc and aofguard_init succeed, the first loop's body gives a file its guard.
  pub adopt_lem :
      (newpath : List ℕ) (i : ℕ) (p : Process Guard W)
      → ((w : W) → (calls.malloc w).0 ≡ true)
      → ((n : ℕ) (file : List ℕ) (w : W) → (calls.aofguard_init n file true w).0 ≡ true)
      → has_guard (p.entries i) ≡ false
      → Ends (Turn (NameKept true) i p) Fails (adopt calls newpath i p)
  unfolding adopt
  adopt_lem newpath i p mallocs inits bare = go (p.entries i).aofguard bare
    where
      go :
          (o : Option Guard)
          → not (is_none o) ≡ false
          → Ends (Turn (NameKept true) i p) Fails (adopt_if calls o newpath i p)
      go (some g) h = absurd (true_ne_false (sym h))
      go none h =
          subst (Ends (Turn (NameKept true) i p) Fails)
            (sym (
              if_true _ _ (mallocs p.world)
              ∙ if_true _ _ (inits i (calls.nvm_file newpath) (calls.malloc p.world).1)))
            (set_entry-Turn (NameKept true) i p _ _ (refl, refl))

  pub release_lem :
      (i : ℕ) (p : Process Guard W)
      → has_guard (p.entries i) ≡ true
      → Ends (Turn (NameKept false) i p) Fails (release calls i p)
  unfolding release drop_guard drop_this
  release_lem i p guarded =
      subst (Ends (Turn (NameKept false) i p) Fails)
        (sym (if_false _ _ (held (p.entries i).aofguard guarded)))
        (go (p.entries i).aofguard guarded)
    where
      held : (o : Option Guard) → not (is_none o) ≡ true → is_none o ≡ false
      held o h = ground arith

      go :
          (o : Option Guard)
          → not (is_none o) ≡ true
          → Ends (Turn (NameKept false) i p) Fails (drop_this calls (negsuc 0) i o p)
      go none h = absurd (true_ne_false h)
      go (some g) h = elim (Bool-cases (calls.aofguard_deinit g p.world).0) [
        | inl ok ↦ rw ok (
            set_entry-Turn (NameKept false) i p (record (p.entries i) { aofguard = none })
              (calls.aofguard_deinit g p.world).1 (refl, refl))
        | inr failed ↦ rw failed negsuc_pos
      ]

  pub set_name_lem :
      (newpath : List ℕ) (i : ℕ) (p : Process Guard W)
      → Ends (Turn (Renames newpath) i p) Fails (set_name calls newpath i p)
  unfolding set_name
  set_name_lem newpath i p = elim (Bool-cases (calls.strdup newpath p.world).0) [
    | inl ok ↦ rw ok (
        set_entry-Turn (Renames newpath) i p (record (p.entries i) { name = some newpath })
          (calls.strdup newpath p.world).1 (refl, refl))
    | inr failed ↦ rw failed negsuc_pos
  ]
