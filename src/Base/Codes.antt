-- ===== src/Base/Codes.antt =====
-- Texts compared code point by code point.
use Prim.Native.Nat.{ℕ}
use mathlib.Core.Path.{◌≡◌, refl, sym, subst}
use mathlib.Core.Logic.{◌↔◌}
use mathlib.Core.Bool.{true, false}
use mathlib.Core.List.{List, [], ◌∷◌}
use native.Mathlib.Omega.{arith}
use ghyll.Base.Tests.{nat_eq_iff}
use ghyll.Base.Texts.{same_codes}

pub same_codes-eq : (a b : List ℕ) → same_codes a b ≡ true → a ≡ b
same_codes-eq [] [] h = refl
same_codes-eq [] (y ∷ ys) h = cc
same_codes-eq (x ∷ xs) [] h = cc
same_codes-eq (x ∷ xs) (y ∷ ys) h = ground (arith, h, nat_eq_iff x y, same_codes-eq xs ys)

same_codes_refl : (a : List ℕ) → same_codes a a ≡ true
same_codes_refl [] = refl
same_codes_refl (x ∷ xs) = ground (arith, nat_eq_iff x x, same_codes_refl xs)

pub same_codes_iff : (a b : List ℕ) → (same_codes a b ≡ true) ↔ (a ≡ b)
same_codes_iff a b =
    (same_codes-eq a b, λ h. subst (λ c. same_codes a c ≡ true) h (same_codes_refl a))

-- A list of code points cannot be the same as two that differ.
pub same_codes_apart :
    (x a b : List ℕ) → same_codes x a ≡ true → same_codes a b ≡ false → same_codes x b ≡ false
same_codes_apart x a b h k = subst (λ y. same_codes y b ≡ false) (sym (same_codes-eq x a h)) k
