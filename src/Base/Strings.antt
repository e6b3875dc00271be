-- ===== src/Base/Strings.antt =====
-- C strings as the lists of their characters.
use Prim.Native.Nat.{ℕ}
use mathlib.Core.Path.{◌≡◌, refl}
use mathlib.Core.Bool.{Bool, true, false, ◌&&◌}
use mathlib.Core.List.{List, [], ◌∷◌}
use native.Mathlib.Omega.{arith}
use pmem_program.Base.Tests.{◌==◌}

-- strcmp(a, b) == 0
unfoldable pub same_string : List ℕ → List ℕ → Bool
same_string [] [] = true
same_string [] (y ∷ ys) = false
same_string (x ∷ xs) [] = false
same_string (x ∷ xs) (y ∷ ys) = (x == y) && same_string xs ys

pub same_string_lem : (a b : List ℕ) → same_string a b ≡ true → a ≡ b
unfolding same_string
same_string_lem [] [] h = refl
same_string_lem [] (y ∷ ys) h = cc
same_string_lem (x ∷ xs) [] h = cc
same_string_lem (x ∷ xs) (y ∷ ys) h =
    let e : (x ≡ y) × (same_string xs ys ≡ true) = ground arith in
    let ih = same_string_lem xs ys e.1 in cc

pub same_string_refl : (a : List ℕ) → same_string a a ≡ true
unfolding same_string
same_string_refl [] = refl
same_string_refl (x ∷ xs) = let ih = same_string_refl xs in ground arith
