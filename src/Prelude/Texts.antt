-- ===== src/Prelude/Texts.antt =====
-- Texts, as lists of characters, and their equality.
use Prim.Native.Nat.{ℕ}
use mathlib.Core.Path.{◌≡◌, refl, subst}
use mathlib.Core.Logic.{inl, inr}
use mathlib.Core.Bool.{Bool, true, false, ◌&&◌}
use mathlib.Core.List.{List, [], ◌∷◌}
use native.Mathlib.Omega.{arith}
use ww.Prelude.Tests.{◌==◌, Bool-cases, eq_self}

abbrev pub same_text : List ℕ → List ℕ → Bool
same_text [] [] = true
same_text (x ∷ xs) (y ∷ ys) = (x == y) && same_text xs ys
same_text [] (y ∷ ys) = false
same_text (x ∷ xs) [] = false

pub same_text_self : (xs : List ℕ) → same_text xs xs ≡ true
same_text_self [] = refl
same_text_self (x ∷ xs) = rw (eq_self x, same_text_self xs) refl

pub same_text→eq : (xs ys : List ℕ) → same_text xs ys ≡ true → xs ≡ ys
same_text→eq [] [] h = refl
same_text→eq (x ∷ xs) (y ∷ ys) h = elim (Bool-cases (x == y)) [
  | inl e ↦
      let rest : xs ≡ ys = same_text→eq xs ys (subst (λ b. (b && same_text xs ys) ≡ true) e h) in
      let first : x ≡ y = ground arith in cc
  | inr e ↦ absurd (ground (arith, subst (λ b. (b && same_text xs ys) ≡ true) e h))
]
same_text→eq [] (y ∷ ys) h = ground arith
same_text→eq (x ∷ xs) [] h = ground arith
