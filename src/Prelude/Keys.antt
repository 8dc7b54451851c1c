-- ===== src/Prelude/Keys.antt =====
-- Keys as byte strings: the Boolean equality of `nkey` and `memcmp`, and functions on keys.
use mathlib.Core.Path.{◌≡◌, refl, ap}
use mathlib.Core.Logic.{◌↔◌}
use mathlib.Core.Bool.{Bool, true, false, ◌&&◌}
use mathlib.Core.List.{List, [], ◌∷◌}
use Prim.Native.Nat.{ℕ}
use native.Mathlib.Omega.{arith}
use rejig.Prelude.Tests.{◌==◌}

unfoldable pub key_eq : List ℕ → List ℕ → Bool
key_eq [] [] = true
key_eq [] (y ∷ ys) = false
key_eq (x ∷ xs) [] = false
key_eq (x ∷ xs) (y ∷ ys) = x == y && key_eq xs ys

pub key_eq_refl : (a : List ℕ) → key_eq a a ≡ true
unfolding key_eq
key_eq_refl [] = refl
key_eq_refl (x ∷ xs) = ground (arith, key_eq_refl xs)

eq_of_key_eq : (a b : List ℕ) → key_eq a b ≡ true → a ≡ b
unfolding key_eq
eq_of_key_eq [] [] h = refl
eq_of_key_eq [] (y ∷ ys) h = cc
eq_of_key_eq (x ∷ xs) [] h = cc
eq_of_key_eq (x ∷ xs) (y ∷ ys) h = ground (arith, eq_of_key_eq xs ys)

pub key_eq_iff : (a b : List ℕ) → (key_eq a b ≡ true) ↔ (a ≡ b)
key_eq_iff a b = (eq_of_key_eq a b, λ p. cc (key_eq_refl a, ap (key_eq a) p))
