-- ===== src/Aofguard/Slices.antt =====
-- Contiguous bytes of the ring's memory, and what a copy into it leaves.
use pmem_program.Base.{
  ℕ, zero, suc, ◌+◌, ◌-◌, ◌≤◌, ◌<◌, ◌≡◌, refl, ap, ap₂, ◌∙◌, sym, some, List, [], ◌∷◌, ◌++◌, length,
  get_elem?, arith, ◌⊎◌, inl, inr,
}
use mathlib.Core.Option.{some-injective}
use pmem_program.Aofguard.Init.{slice}

pub length-slice : (bytes : ℕ → ℕ) (pos n : ℕ) → length (slice bytes pos n) ≡ n
unfolding slice
length-slice bytes pos zero = refl
length-slice bytes pos (suc n) = ap suc (length-slice bytes (pos + 1) n)

pub slice-append :
    (bytes : ℕ → ℕ) (pos m n : ℕ)
    → slice bytes pos (m + n) ≡ slice bytes pos m ++ slice bytes (pos + m) n
unfolding slice
slice-append bytes pos zero n =
    ap₂ (slice bytes) (let e : pos ≡ pos + 0 = omega arith in e)
      (let e : 0 + n ≡ n = omega arith in e)
slice-append bytes pos (suc m) n =
    ap (slice bytes pos) (let e : suc m + n ≡ suc (m + n) = omega arith in e)
    ∙ ap (λ r. bytes pos ∷ r) (slice-append bytes (pos + 1) m n)
    ∙ ap (λ p. bytes pos ∷ (slice bytes (pos + 1) m ++ slice bytes p n))
        (let e : pos + 1 + m ≡ pos + suc m = omega arith in e)

pub slice_cut :
    (bytes : ℕ → ℕ) (pos m n : ℕ)
    → m ≤ n
    → slice bytes pos n ≡ slice bytes pos m ++ slice bytes (pos + m) (n - m)
slice_cut bytes pos m n h =
    ap (slice bytes pos) (let e : n ≡ m + (n - m) = omega arith in e)
    ∙ slice-append bytes pos m (n - m)

pub slice_at : (bytes : ℕ → ℕ) {p q m n : ℕ} → p ≡ q → m ≡ n → slice bytes p m ≡ slice bytes q n
slice_at bytes e f = ap₂ (slice bytes) e f

pub slice_ext :
    (bytes bytes' : ℕ → ℕ) (pos n : ℕ)
    → ((j : ℕ) → pos ≤ j → j < pos + n → bytes j ≡ bytes' j)
    → slice bytes pos n ≡ slice bytes' pos n
unfolding slice
slice_ext bytes bytes' pos zero same = refl
slice_ext bytes bytes' pos (suc n) same =
    ap₂ ◌∷◌ (same pos (omega arith) (omega arith))
      (slice_ext bytes bytes' (pos + 1) n (λ j h k. same j (omega arith) (omega arith)))

pub slice_of_bytes :
    (bytes : ℕ → ℕ) (pos : ℕ) (xs : List ℕ)
    → ((i : ℕ) → i < length xs → get_elem? xs i ≡ some (bytes (pos + i)))
    → slice bytes pos (length xs) ≡ xs
unfolding slice
slice_of_bytes bytes pos [] same = refl
slice_of_bytes bytes pos (x ∷ xs) same =
    ap₂ ◌∷◌
      (ap bytes (let e : pos ≡ pos + 0 = omega arith in e)
        ∙ sym (some-injective _ _ (same 0 (omega arith))))
      (slice_of_bytes bytes (pos + 1) xs (λ i h.
        same (suc i) (omega arith)
        ∙ ap (λ k. some (bytes k)) (let e : pos + suc i ≡ pos + 1 + i = omega arith in e)))

-- What libpmem documents of pmem_memcpy_persist: the bytes are copied, and no others change.
pub record CopyLaws (memcpy : (ℕ → ℕ) → ℕ → List ℕ → ℕ → ℕ) : Type 0 where
  pub copied :
      (bytes : ℕ → ℕ) (pos : ℕ) (xs : List ℕ) (i : ℕ)
      → i < length xs
      → get_elem? xs i ≡ some (memcpy bytes pos xs (pos + i))
  pub others :
      (bytes : ℕ → ℕ) (pos : ℕ) (xs : List ℕ) (j : ℕ)
      → (j < pos) ⊎ (pos + length xs ≤ j)
      → memcpy bytes pos xs j ≡ bytes j

module _ (memcpy : (ℕ → ℕ) → ℕ → List ℕ → ℕ → ℕ) (laws : CopyLaws memcpy) where
  pub slice-memcpy :
      (bytes : ℕ → ℕ) (pos : ℕ) (xs : List ℕ) → slice (memcpy bytes pos xs) pos (length xs) ≡ xs
  slice-memcpy bytes pos xs = slice_of_bytes (memcpy bytes pos xs) pos xs (laws.copied bytes pos xs)

  pub slice-memcpy_below :
      (bytes : ℕ → ℕ) (pos : ℕ) (xs : List ℕ) (from n : ℕ)
      → from + n ≤ pos
      → slice (memcpy bytes pos xs) from n ≡ slice bytes from n
  slice-memcpy_below bytes pos xs from n h =
      slice_ext (memcpy bytes pos xs) bytes from n
        (λ j l r. laws.others bytes pos xs j (inl (omega arith)))

  pub slice-memcpy_above :
      (bytes : ℕ → ℕ) (pos : ℕ) (xs : List ℕ) (from n : ℕ)
      → pos + length xs ≤ from
      → slice (memcpy bytes pos xs) from n ≡ slice bytes from n
  slice-memcpy_above bytes pos xs from n h =
      slice_ext (memcpy bytes pos xs) bytes from n
        (λ j l r. laws.others bytes pos xs j (inr (omega arith)))
