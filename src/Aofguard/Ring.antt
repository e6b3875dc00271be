-- ===== src/Aofguard/Ring.antt =====
-- The bytes that the ring holds, oldest first, and what copying and dropping do to them.
use pmem_program.Base.{
  ℕ, ◌+◌, ◌-◌, ◌^◌, ◌≤◌, ◌<◌, ◌≡◌, refl, ap, ap₂, ◌∙◌, sym, true, false, List, [], ◌++◌, append-nil,
  append_assoc, length, take, drop, leb, if◌then◌else◌, arith, take-append-drop, length-take,
  length-drop, length-append, dec_lt,
}
use pmem_program.Base.Words.{u64}
use pmem_program.Aofguard.Ops.{copy_to_ring}
use pmem_program.Aofguard.Init.{slice}
use pmem_program.Aofguard.Slices.{
  CopyLaws, slice_cut, slice_at, length-slice, slice-memcpy, slice-memcpy_below, slice-memcpy_above,
}

-- An index round the ring.
abbrev pub wrap : ℕ → ℕ → ℕ
wrap capacity x = if leb capacity x then x - capacity else x

-- The `len` bytes from `start` on, going round at the capacity.
pub ring : (ℕ → ℕ) → ℕ → ℕ → ℕ → List ℕ
ring bytes capacity start len =
    if leb (start + len) capacity
    then slice bytes start len
    else slice bytes start (capacity - start) ++ slice bytes 0 (start + len - capacity)

pub ring-straight :
    (bytes : ℕ → ℕ) (capacity start len : ℕ)
    → start + len ≤ capacity
    → ring bytes capacity start len ≡ slice bytes start len
unfolding ring
ring-straight bytes capacity start len h = ground arith

pub ring-round :
    (bytes : ℕ → ℕ) (capacity start len : ℕ)
    → capacity ≤ start + len
    → start ≤ capacity
    → ring bytes capacity start len
      ≡ slice bytes start (capacity - start) ++ slice bytes 0 (start + len - capacity)
unfolding ring slice
ring-round bytes capacity start len h k = elim (dec_lt capacity (start + len)) [
  | yes over ↦ ground arith
  | no equal ↦
      ring-straight bytes capacity start len (omega arith)
      ∙ slice_at bytes refl (omega arith)
      ∙ sym (append-nil (slice bytes start (capacity - start)))
      ∙ ap (λ r. slice bytes start (capacity - start) ++ r)
          (slice_at bytes {q = 0} refl (let e : 0 ≡ start + len - capacity = omega arith in e))
]

pub length-ring :
    (bytes : ℕ → ℕ) (capacity start len : ℕ)
    → start ≤ capacity
    → length (ring bytes capacity start len) ≡ len
unfolding ring
length-ring bytes capacity start len h = ground (
  arith,
  length-slice bytes start len,
  length-slice bytes start (capacity - start),
  length-slice bytes 0 (start + len - capacity),
  length-append (slice bytes start (capacity - start)) (slice bytes 0 (start + len - capacity)),
)

none_left : (bytes : ℕ → ℕ) (capacity : ℕ) {p m : ℕ} → p ≡ 0 → m ≡ 0 → [] ≡ ring bytes capacity p m
unfolding slice
none_left bytes capacity e f =
    sym (ap₂ (ring bytes capacity) e f ∙ ring-straight bytes capacity 0 0 (omega arith))

-- The first k bytes of the ring, then the ring from k bytes on.
pub ring_split :
    (bytes : ℕ → ℕ) (capacity start k len : ℕ)
    → start < capacity
    → k ≤ len
    → len ≤ capacity
    → ring bytes capacity start len
      ≡ ring bytes capacity start k ++ ring bytes capacity (wrap capacity (start + k)) (len - k)
ring_split bytes capacity start k len hs hk hl = elim (dec_lt capacity (start + len)) [
  | no inside ↦ elim (dec_lt (start + k) capacity) [
    | yes below ↦
        ring-straight bytes capacity start len (omega arith)
        ∙ slice_cut bytes start k len hk
        ∙ ap₂ ◌++◌ (sym (ring-straight bytes capacity start k (omega arith))) (
            sym (ring-straight bytes capacity (start + k) (len - k) (omega arith))
            ∙ ap (λ p. ring bytes capacity p (len - k)) (ground arith))
    | no at_end ↦
        ap (ring bytes capacity start) (let e : len ≡ k = omega arith in e)
        ∙ sym (append-nil (ring bytes capacity start k))
        ∙ ap (λ r. ring bytes capacity start k ++ r)
            (none_left bytes capacity (ground arith) (omega arith))
  ]
  | yes over ↦ elim (dec_lt (start + k) capacity) [
    | yes below ↦
        ring-round bytes capacity start len (omega arith) (omega arith)
        ∙ ap (λ r. r ++ slice bytes 0 (start + len - capacity))
            (slice_cut bytes start k (capacity - start) (omega arith))
        ∙ append_assoc (slice bytes start k) (slice bytes (start + k) (capacity - start - k))
            (slice bytes 0 (start + len - capacity))
        ∙ ap₂ ◌++◌ (sym (ring-straight bytes capacity start k (omega arith))) (
            ap₂ ◌++◌ (slice_at bytes refl (omega arith)) (slice_at bytes refl (omega arith))
            ∙ sym (ring-round bytes capacity (start + k) (len - k) (omega arith) (omega arith))
            ∙ ap (λ p. ring bytes capacity p (len - k)) (ground arith))
    | no above ↦
        ring-round bytes capacity start len (omega arith) (omega arith)
        ∙ ap (λ r. slice bytes start (capacity - start) ++ r)
            (slice_cut bytes 0 (start + k - capacity) (start + len - capacity) (omega arith))
        ∙ sym (
            append_assoc (slice bytes start (capacity - start))
              (slice bytes 0 (start + k - capacity)) _)
        ∙ ap₂ ◌++◌ (sym (ring-round bytes capacity start k (omega arith) (omega arith))) (
            slice_at bytes (omega arith) (omega arith)
            ∙ sym (ring-straight bytes capacity (start + k - capacity) (len - k) (omega arith))
            ∙ ap (λ p. ring bytes capacity p (len - k)) (ground arith))
  ]
]

module _ (memcpy : (ℕ → ℕ) → ℕ → List ℕ → ℕ → ℕ) (laws : CopyLaws memcpy) (bytes : ℕ → ℕ)
    (capacity start len pos : ℕ) (xs : List ℕ) (start_lt : start < capacity)
    (fits : len + length xs ≤ capacity) (small : capacity < 2 ^ 62)
    (pos_eq : pos ≡ wrap capacity (start + len)) where
  copied : ℕ → ℕ
  copied = copy_to_ring memcpy bytes capacity pos xs

  front : List ℕ
  front = take (capacity - pos) xs

  back : List ℕ
  back = drop (capacity - pos) xs

  pos-lt : pos < capacity
  pos-lt = ground arith

  copied_straight : pos + length xs ≤ capacity → copied ≡ memcpy bytes pos xs
  unfolding copied copy_to_ring
  copied_straight h =
      let e : leb (u64 (pos + length xs)) capacity ≡ true = ground (arith, pos-lt) in rw e

  copied_round : capacity < pos + length xs → copied ≡ memcpy (memcpy bytes pos front) 0 back
  unfolding copied copy_to_ring front back
  copied_round h =
      let e : leb (u64 (pos + length xs)) capacity ≡ false = ground (arith, pos-lt) in rw e

  length-front : capacity < pos + length xs → length front ≡ capacity - pos
  unfolding front
  length-front h = omega (arith, length-take (capacity - pos) xs)

  length-back : length back ≡ length xs - (capacity - pos)
  unfolding back
  length-back = length-drop (capacity - pos) xs

  -- The new bytes stand in the ring from the write position on.
  ring_new : ring copied capacity pos (length xs) ≡ xs
  unfolding front back
  ring_new = elim (dec_lt capacity (pos + length xs)) [
    | yes over ↦
        ring-round copied capacity pos (length xs) (omega arith) (omega (arith, pos-lt))
        ∙ ap₂ ◌++◌ (new_front over) (new_back over)
        ∙ rejoined
    | no inside ↦
        ring-straight copied capacity pos (length xs) (omega arith)
        ∙ ap (λ m. slice m pos (length xs)) (copied_straight (omega arith))
        ∙ slice-memcpy memcpy laws bytes pos xs
  ]
    where
      rejoined : front ++ back ≡ xs
      rejoined = take-append-drop (capacity - pos) xs

      new_front : capacity < pos + length xs → slice copied pos (capacity - pos) ≡ front
      new_front over =
          ap (λ m. slice m pos (capacity - pos)) (copied_round over)
          ∙ slice-memcpy_above memcpy laws (memcpy bytes pos front) 0 back pos (capacity - pos)
              (omega (arith, length-back, pos-lt))
          ∙ slice_at (memcpy bytes pos front) refl (sym (length-front over))
          ∙ slice-memcpy memcpy laws bytes pos front

      new_back : capacity < pos + length xs → slice copied 0 (pos + length xs - capacity) ≡ back
      new_back over =
          ap (λ m. slice m 0 (pos + length xs - capacity)) (copied_round over)
          ∙ slice_at (memcpy (memcpy bytes pos front) 0 back) refl
              (omega (arith, length-back, pos-lt))
          ∙ slice-memcpy memcpy laws (memcpy bytes pos front) 0 back

  -- A slice that the copy does not touch.
  kept_below :
      (from n : ℕ)
      → from + n ≤ pos
      → (capacity < pos + length xs → pos + length xs - capacity ≤ from)
      → slice copied from n ≡ slice bytes from n
  kept_below from n h round = elim (dec_lt capacity (pos + length xs)) [
    | yes over ↦
        ap (λ m. slice m from n) (copied_round over)
        ∙ slice-memcpy_above memcpy laws (memcpy bytes pos front) 0 back from n
            (omega (arith, length-back, pos-lt, round over))
        ∙ slice-memcpy_below memcpy laws bytes pos front from n h
    | no inside ↦
        ap (λ m. slice m from n) (copied_straight (omega arith))
        ∙ slice-memcpy_below memcpy laws bytes pos xs from n h
  ]

  kept_above :
      (from n : ℕ)
      → pos + length xs ≤ from
      → from ≤ capacity
      → slice copied from n ≡ slice bytes from n
  kept_above from n h inside =
      ap (λ m. slice m from n) (copied_straight (omega arith))
      ∙ slice-memcpy_above memcpy laws bytes pos xs from n h

  -- The old bytes stand where they stood.
  pub ring_old :
      ring (copy_to_ring memcpy bytes capacity pos xs) capacity start len
      ≡ ring bytes capacity start len
  unfolding copied
  ring_old = elim (dec_lt capacity (start + len)) [
    | yes over ↦
        let at : pos ≡ start + len - capacity = ground arith in
        ring-round copied capacity start len (omega arith) (omega arith)
        ∙ ap₂ ◌++◌ (kept_above start (capacity - start) (omega arith) (omega arith))
            (kept_below 0 (start + len - capacity) (omega arith) (λ o. omega arith))
        ∙ sym (ring-round bytes capacity start len (omega arith) (omega arith))
    | no inside ↦
        ring-straight copied capacity start len (omega arith)
        ∙ elim (dec_lt (start + len) capacity) [
          | yes below ↦
              let at : pos ≡ start + len = ground arith in
              kept_below start len (omega arith) (λ o. omega arith)
          | no full ↦
              let at : pos ≡ 0 = ground arith in kept_above start len (omega arith) (omega arith)
        ]
        ∙ sym (ring-straight bytes capacity start len (omega arith))
  ]

  -- Copying bytes to the end of a ring that has room for them, of a capacity below 2^62, in one
  -- piece or two, appends them to what the ring holds, if the write position is the ring's end.
  pub ring_append :
      ring (copy_to_ring memcpy bytes capacity pos xs) capacity start (len + length xs)
      ≡ ring bytes capacity start len ++ xs
  unfolding copied
  ring_append =
      ring_split copied capacity start len (len + length xs) start_lt (omega arith) fits
      ∙ ap₂ ◌++◌ ring_old (
          ap₂ (ring copied capacity) (sym pos_eq)
            (let e : len + length xs - len ≡ length xs = omega arith in e)
          ∙ ring_new)
