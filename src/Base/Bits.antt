-- ===== src/Base/Bits.antt =====
-- The bit operations at variables: the equation for the lowest digit, fields, masks, and the
-- group laws of exclusive or.
use Prim.Native.Nat.{
  ℕ, zero, suc, ◌+◌, ◌*◌, ◌/◌, ◌%◌, ◌^◌, ◌≤◌, ◌<◌, min, max, bit_and, bit_or, bit_xor, digits,
  bitwise, differ, bit_and-bitwise, bit_or-bitwise, bit_xor-bitwise,
}
use mathlib.Core.Path.{◌≡◌, refl, ap, sym, ◌∙◌}
use native.Mathlib.Nat.{pow-suc, one-le-pow, div-add-mod', mod-lt}
use native.Mathlib.Decide.{dec_le}
use native.Mathlib.Omega.{arith}
use pmem_program.Base.Words.{low_mask}

module _ (z : ℕ → ℕ) (f : ℕ → ℕ → ℕ) where
  -- One unit of fuel beyond the first number changes nothing.
  spare_fuel : (fuel x y : ℕ) → x ≤ fuel → digits z f (suc fuel) x y ≡ digits z f fuel x y
  spare_fuel zero zero y enough = refl
  spare_fuel zero (suc x) y enough = absurd (omega arith)
  spare_fuel (suc fuel) zero y enough = refl
  spare_fuel (suc fuel) (suc x) y enough = rw (spare_fuel fuel (suc x / 2) (y / 2) (omega arith))

  extra_fuel : (fuel x y : ℕ) → x ≤ fuel → digits z f fuel x y ≡ bitwise z f x y
  extra_fuel zero x y enough = let e : x ≡ 0 = omega arith in rw e
  extra_fuel (suc fuel) x y enough = elim (dec_le x fuel) [
    | yes below ↦ spare_fuel fuel x y below ∙ extra_fuel fuel x y below
    | no top ↦ let e : x ≡ suc fuel = omega arith in rw e
  ]

  lowest_digit :
      (a b : ℕ)
      → bitwise z f (suc a) b ≡ bitwise z f (suc a / 2) (b / 2) * 2 + f (suc a % 2) (b % 2)
  lowest_digit a b = rw (extra_fuel a (suc a / 2) (b / 2) (omega arith))

differ_parity : (d e : ℕ) → d < 2 → e < 2 → differ d e ≡ (d + e) % 2
differ_parity zero e small_d small_e = omega arith
differ_parity (suc zero) zero small_d small_e = refl
differ_parity (suc zero) (suc zero) small_d small_e = refl
differ_parity (suc zero) (suc (suc e)) small_d small_e = absurd (omega arith)
differ_parity (suc (suc d)) e small_d small_e = absurd (omega arith)

-- The equations for the lowest digit.
pub bit_and_step : (x y : ℕ) → bit_and x y ≡ bit_and (x / 2) (y / 2) * 2 + min (x % 2) (y % 2)
bit_and_step zero y = simp bit_and-bitwise (omega arith)
bit_and_step (suc x) y = simp bit_and-bitwise (lowest_digit (λ t. 0) min x y)

pub bit_or_step : (x y : ℕ) → bit_or x y ≡ bit_or (x / 2) (y / 2) * 2 + max (x % 2) (y % 2)
bit_or_step zero y = simp bit_or-bitwise (omega arith)
bit_or_step (suc x) y = simp bit_or-bitwise (lowest_digit (λ t. t) max x y)

pub bit_xor_step : (x y : ℕ) → bit_xor x y ≡ bit_xor (x / 2) (y / 2) * 2 + (x + y) % 2
bit_xor_step zero y = simp bit_xor-bitwise (omega arith)
bit_xor_step (suc x) y = simp bit_xor-bitwise (
    omega (
      arith,
      differ_parity (suc x % 2) (y % 2) (omega arith) (omega arith),
      lowest_digit (λ t. t) differ x y,
    ))

-- Exclusive or with the same number twice gives the first number back.
bit_xor_undo_fuel : (n a b : ℕ) → a ≤ n → b ≤ n → bit_xor (bit_xor a b) b ≡ a
bit_xor_undo_fuel zero a b h k =
    let p : a ≡ 0 = omega arith in let q : b ≡ 0 = omega arith in rw (p, q)
bit_xor_undo_fuel (suc n) a b h k = omega (
  arith,
  bit_xor_step a b,
  bit_xor_step (bit_xor a b) b,
  halved,
  bit_xor_undo_fuel n (a / 2) (b / 2) (omega arith) (omega arith),
)
  where
    halved : bit_xor (bit_xor a b / 2) (b / 2) ≡ bit_xor (bit_xor (a / 2) (b / 2)) (b / 2)
    halved = ap (λ t. bit_xor t (b / 2)) (omega (arith, bit_xor_step a b))

pub bit_xor_undo : (a b : ℕ) → bit_xor (bit_xor a b) b ≡ a
bit_xor_undo a b = bit_xor_undo_fuel (a + b) a b (omega arith) (omega arith)

pub bit_xor_comm_fuel : (n a b : ℕ) → a ≤ n → b ≤ n → bit_xor a b ≡ bit_xor b a
bit_xor_comm_fuel zero a b h k =
    let p : a ≡ 0 = omega arith in let q : b ≡ 0 = omega arith in rw (p, q)
bit_xor_comm_fuel (suc n) a b h k = omega (
  arith,
  bit_xor_step a b,
  bit_xor_step b a,
  bit_xor_comm_fuel n (a / 2) (b / 2) (omega arith) (omega arith),
)

pub bit_xor_comm : (a b : ℕ) → bit_xor a b ≡ bit_xor b a
bit_xor_comm a b = bit_xor_comm_fuel (a + b) a b (omega arith) (omega arith)

-- So exclusive or is injective on either side.
pub bit_xor_cancel_right : (a b c : ℕ) → bit_xor a c ≡ bit_xor b c → a ≡ b
bit_xor_cancel_right a b c h = sym (bit_xor_undo a c) ∙ ap (λ t. bit_xor t c) h ∙ bit_xor_undo b c

pub bit_xor_cancel_left : (a b c : ℕ) → bit_xor c a ≡ bit_xor c b → a ≡ b
bit_xor_cancel_left a b c h = bit_xor_cancel_right a b c (bit_xor_comm a c ∙ h ∙ bit_xor_comm c b)

pub bit_xor-lt_pow : (k a b : ℕ) → a < 2 ^ k → b < 2 ^ k → bit_xor a b < 2 ^ k
bit_xor-lt_pow zero a b h q =
    let p : a ≡ 0 = omega arith in let r : b ≡ 0 = omega arith in rw (p, r) (omega arith)
bit_xor-lt_pow (suc k) a b h q = omega (
  arith,
  bit_xor_step a b,
  pow-suc 2 k,
  bit_xor-lt_pow k (a / 2) (b / 2) (omega (arith, pow-suc 2 k)) (omega (arith, pow-suc 2 k)),
)

times_pow-suc : (a k : ℕ) → a * 2 ^ suc k ≡ 2 * (a * 2 ^ k)
times_pow-suc a k = omega (arith, ap (λ (t : ℕ). a * t) (pow-suc 2 k))

-- The operations act on the fields of a number one by one.
pub bit_and_split :
    (k a b c d : ℕ)
    → b < 2 ^ k
    → d < 2 ^ k
    → bit_and (a * 2 ^ k + b) (c * 2 ^ k + d) ≡ bit_and a c * 2 ^ k + bit_and b d
bit_and_split zero a b c d h q =
    let p : b ≡ 0 = omega arith in
    let r : d ≡ 0 = omega arith in
    let x : a * 2 ^ 0 + 0 ≡ a = omega arith in
    let y : c * 2 ^ 0 + 0 ≡ c = omega arith in rw (p, r, x, y) (omega arith)
bit_and_split (suc k) a b c d h q = ground (
  arith,
  bit_and_step (a * 2 ^ suc k + b) (c * 2 ^ suc k + d),
  times_pow-suc a k,
  times_pow-suc c k,
  times_pow-suc (bit_and a c) k,
  pow-suc 2 k,
  bit_and_step b d,
  bit_and_split k a (b / 2) c (d / 2) (omega (arith, pow-suc 2 k)) (omega (arith, pow-suc 2 k)),
)

pub bit_or_split :
    (k a b c d : ℕ)
    → b < 2 ^ k
    → d < 2 ^ k
    → bit_or (a * 2 ^ k + b) (c * 2 ^ k + d) ≡ bit_or a c * 2 ^ k + bit_or b d
bit_or_split zero a b c d h q =
    let p : b ≡ 0 = omega arith in
    let r : d ≡ 0 = omega arith in
    let x : a * 2 ^ 0 + 0 ≡ a = omega arith in
    let y : c * 2 ^ 0 + 0 ≡ c = omega arith in rw (p, r, x, y) (omega arith)
bit_or_split (suc k) a b c d h q = ground (
  arith,
  bit_or_step (a * 2 ^ suc k + b) (c * 2 ^ suc k + d),
  times_pow-suc a k,
  times_pow-suc c k,
  times_pow-suc (bit_or a c) k,
  pow-suc 2 k,
  bit_or_step b d,
  bit_or_split k a (b / 2) c (d / 2) (omega (arith, pow-suc 2 k)) (omega (arith, pow-suc 2 k)),
)

-- Neutral and absorbing zeros.
pub bit_or-zero : (a : ℕ) → bit_or 0 a ≡ a
bit_or-zero a = bit_or-bitwise 0 a

pub bit_and-zero : (a : ℕ) → bit_and 0 a ≡ 0
bit_and-zero a = bit_and-bitwise 0 a

bit_and-zero_fuel : (n a : ℕ) → a ≤ n → bit_and a 0 ≡ 0
bit_and-zero_fuel zero a h = let p : a ≡ 0 = omega arith in rw p
bit_and-zero_fuel (suc n) a h =
    omega (arith, bit_and_step a 0, bit_and-zero_fuel n (a / 2) (omega arith))

pub bit_and-zero_right : (a : ℕ) → bit_and a 0 ≡ 0
bit_and-zero_right a = bit_and-zero_fuel a a (omega arith)

bit_or-zero_fuel : (n a : ℕ) → a ≤ n → bit_or a 0 ≡ a
bit_or-zero_fuel zero a h = let p : a ≡ 0 = omega arith in rw p
bit_or-zero_fuel (suc n) a h =
    omega (arith, bit_or_step a 0, bit_or-zero_fuel n (a / 2) (omega arith))

pub bit_or-zero_right : (a : ℕ) → bit_or a 0 ≡ a
bit_or-zero_right a = bit_or-zero_fuel a a (omega arith)

-- A mask of the `k` low bits keeps what fits, so it is the remainder by `2 ^ k`.
pub bit_and_fits : (k a : ℕ) → a < 2 ^ k → bit_and a (low_mask k) ≡ a
bit_and_fits zero a h = let p : a ≡ 0 = omega arith in rw p
bit_and_fits (suc k) a h = omega (
  arith,
  bit_and_step a (low_mask (suc k)),
  ap (λ t. bit_and (a / 2) t) half_mask,
  bit_and_fits k (a / 2) (omega (arith, pow-suc 2 k)),
  pow-suc 2 k,
  one-le-pow k 2,
)
  where
    half_mask : low_mask (suc k) / 2 ≡ low_mask k
    half_mask = omega (arith, pow-suc 2 k)

pub bit_and_low : (k a : ℕ) → bit_and a (low_mask k) ≡ a % 2 ^ k
bit_and_low k a =
    let whole : a ≡ a / 2 ^ k * 2 ^ k + a % 2 ^ k = sym (div-add-mod' a (2 ^ k)) in
    let small : a % 2 ^ k < 2 ^ k = mod-lt a (omega (arith, one-le-pow k 2)) in
    ap (λ t. bit_and t (low_mask k)) whole
    ∙ split
    ∙ ap (λ t. t * 2 ^ k + bit_and (a % 2 ^ k) (low_mask k)) (bit_and-zero_right (a / 2 ^ k))
    ∙ omega (arith, bit_and_fits k (a % 2 ^ k) small)
  where
    split :
        bit_and (a / 2 ^ k * 2 ^ k + a % 2 ^ k) (low_mask k)
        ≡ bit_and (a / 2 ^ k) 0 * 2 ^ k + bit_and (a % 2 ^ k) (low_mask k)
    split =
        ap (λ t. bit_and (a / 2 ^ k * 2 ^ k + a % 2 ^ k) t)
          (let e : low_mask k ≡ 0 * 2 ^ k + low_mask k = omega arith in e)
        ∙ bit_and_split k (a / 2 ^ k) (a % 2 ^ k) 0 (low_mask k)
            (mod-lt a (omega (arith, one-le-pow k 2))) (omega (arith, one-le-pow k 2))
