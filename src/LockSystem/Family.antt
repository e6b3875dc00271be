-- ===== src/LockSystem/Family.antt =====
-- Families indexed by client: an update at one index, and a sum of weights over the first n.
use pmem_program.Base.{
  ℕ, zero, suc, ◌+◌, ◌≤◌, ◌<◌, ◌≡◌, ◌≢◌, refl, ◌==◌, if◌then◌else◌, arith, ℕ_discrete,
}

abbrev pub update {ℓ} : {A : Type ℓ} → (ℕ → A) → ℕ → A → ℕ → A
update f i a j = if i == j then a else f j

module _ {ℓ} {A : Type ℓ} (weight : A → ℕ) where
  pub total : ℕ → (ℕ → A) → ℕ
  total zero f = 0
  total (suc n) f = weight (f n) + total n f

  -- An index from n on is not counted.
  total-update_out : (n i : ℕ) (f : ℕ → A) (a : A) → n ≤ i → total n (update f i a) ≡ total n f
  unfolding total
  total-update_out zero i f a h = refl
  total-update_out (suc n) i f a h = ground (arith, total-update_out n i f a)

  pub total-update :
      (n i : ℕ) (f : ℕ → A) (a : A)
      → i < n
      → total n (update f i a) + weight (f i) ≡ total n f + weight a
  unfolding total
  total-update zero i f a h = absurd (omega arith)
  total-update (suc n) i f a h = elim (ℕ_discrete i n) [
    | yes last ↦ rw (← last) (ground (arith, total-update_out i i f a))
    | no other ↦ ground (arith, total-update n i f a)
  ]

  pub weight-le-total : (n i : ℕ) (f : ℕ → A) → i < n → weight (f i) ≤ total n f
  unfolding total
  weight-le-total zero i f h = absurd (omega arith)
  weight-le-total (suc n) i f h = elim (ℕ_discrete i n) [
    | yes last ↦ rw last (omega arith)
    | no other ↦ omega (arith, weight-le-total n i f (omega arith))
  ]

  -- Two clients weigh at most the total.
  pub pair-le-total :
      (n i j : ℕ) (f : ℕ → A) → i < n → j < n → i ≢ j → weight (f i) + weight (f j) ≤ total n f
  unfolding total
  pair-le-total zero i j f h k ne = absurd (omega arith)
  pair-le-total (suc n) i j f h k ne = elim (ℕ_discrete i n) [
    | yes last ↦ rw last (omega (arith, weight-le-total n j f (omega arith)))
    | no other ↦ elim (ℕ_discrete j n) [
      | yes last ↦ rw last (omega (arith, weight-le-total n i f (omega arith)))
      | no neither ↦ omega (arith, pair-le-total n i j f (omega arith) (omega arith) ne)
    ]
  ]

  pub total-zero : (n : ℕ) (a : A) → weight a ≡ 0 → total n (λ i. a) ≡ 0
  unfolding total
  total-zero zero a h = refl
  total-zero (suc n) a h = omega (arith, total-zero n a h)

  pub total-le : (n : ℕ) (f : ℕ → A) → ((a : A) → weight a ≤ 1) → total n f ≤ n
  unfolding total
  total-le zero f small = omega arith
  total-le (suc n) f small = omega (arith, small (f n), total-le n f small)
