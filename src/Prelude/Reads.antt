-- ===== src/Prelude/Reads.antt =====
-- Reads of a list at an index, after the list operations.
use Prim.Native.Nat.{ℕ, zero, suc, ◌-◌, ◌<◌, ◌≤◌}
use mathlib.Core.Path.{◌≡◌, refl, ap}
use mathlib.Core.Logic.{◌⊎◌, inl, inr}
use mathlib.Core.Option.{Option, none, some}
use mathlib.Core.List.{List, [], ◌∷◌, ◌++◌}
use native.Mathlib.Omega.{arith}
use ww.Prelude.Lists.{length, get_elem?, set, take, drop}
use ww.Prelude.Tests.{ltb, le→ltb, ◌==◌, if◌then◌else◌}

module _ {ℓ} {A : Type ℓ} where
  pub get_elem?-lt : (xs : List A) (i : ℕ) (x : A) → get_elem? xs i ≡ some x → i < length xs
  get_elem?-lt [] i x h = ground arith
  get_elem?-lt (y ∷ xs) zero x h = omega arith
  get_elem?-lt (y ∷ xs) (suc i) x h = omega (arith, get_elem?-lt xs i x h)

  -- A read of an append is a read of one of the lists.
  pub get_elem?-append :
      (xs ys : List A) (i : ℕ)
      → get_elem? (xs ++ ys) i
        ≡ (if ltb i (length xs) then get_elem? xs i else get_elem? ys (i - length xs))
  get_elem?-append [] ys i =
      let whole : i - 0 ≡ i = omega arith in rw (le→ltb i 0 (omega arith), whole)
  get_elem?-append (x ∷ xs) ys zero = ground arith
  get_elem?-append (x ∷ xs) ys (suc i) = ground (arith, get_elem?-append xs ys i)

  pub get_elem?-set :
      (xs : List A) (i j : ℕ) (v : A)
      → i < length xs
      → get_elem? (set xs i v) j ≡ (if i == j then some v else get_elem? xs j)
  get_elem?-set [] i j v h = absurd (omega arith)
  get_elem?-set (x ∷ xs) zero zero v h = ground arith
  get_elem?-set (x ∷ xs) zero (suc j) v h = ground arith
  get_elem?-set (x ∷ xs) (suc i) zero v h = ground arith
  get_elem?-set (x ∷ xs) (suc i) (suc j) v h = ground (arith, get_elem?-set xs i j v (omega arith))

  pub length-take : (n : ℕ) (xs : List A) → n ≤ length xs → length (take n xs) ≡ n
  length-take zero xs h = refl
  length-take (suc n) [] h = absurd (omega arith)
  length-take (suc n) (x ∷ xs) h = omega (arith, length-take n xs (omega arith))

  pub length-drop : (n : ℕ) (xs : List A) → length (drop n xs) ≡ length xs - n
  length-drop zero xs = omega arith
  length-drop (suc n) [] = omega arith
  length-drop (suc n) (x ∷ xs) = omega (arith, length-drop n xs)

  pub take-drop : (n : ℕ) (xs : List A) → take n xs ++ drop n xs ≡ xs
  take-drop zero xs = refl
  take-drop (suc n) [] = refl
  take-drop (suc n) (x ∷ xs) = ap (λ l. x ∷ l) (take-drop n xs)

  -- A read of a list with one more value.
  pub get_elem?-snoc :
      (xs : List A) (x : A) (i : ℕ) (y : A)
      → get_elem? (xs ++ x ∷ []) i ≡ some y
      → (i < length xs) × (get_elem? xs i ≡ some y) ⊎ (i ≡ length xs) × (x ≡ y)
  get_elem?-snoc [] x zero y h = inr (refl, cc)
  get_elem?-snoc [] x (suc i) y h = ground arith
  get_elem?-snoc (z ∷ xs) x zero y h = inl (omega arith, h)
  get_elem?-snoc (z ∷ xs) x (suc i) y h = elim (get_elem?-snoc xs x i y h) [
    | inl (lt, e) ↦ inl (omega arith, e)
    | inr (here, e) ↦ inr (omega arith, e)
  ]

  -- Lists of one length with the same reads are equal.
  pub list_ext :
      (xs ys : List A)
      → length xs ≡ length ys
      → ((i : ℕ) (x : A) → get_elem? xs i ≡ some x → get_elem? ys i ≡ some x)
      → xs ≡ ys
  list_ext [] [] l h = refl
  list_ext [] (y ∷ ys) l h = absurd (omega arith)
  list_ext (x ∷ xs) [] l h = absurd (omega arith)
  list_ext (x ∷ xs) (y ∷ ys) l h =
      cc (h 0 x refl, list_ext xs ys (omega arith) (λ i a e. h (suc i) a e))

  pub get_elem?-append_left :
      (xs ys : List A) (i : ℕ) (x : A) → get_elem? xs i ≡ some x → get_elem? (xs ++ ys) i ≡ some x
  get_elem?-append_left xs ys i x h =
      ground (arith, get_elem?-append xs ys i, get_elem?-lt xs i x h)

abbrev or_else {ℓ} : {A : Type ℓ} → A → Option A → A
or_else b none = b
or_else b (some a) = a

pub some_injective {ℓ} : {A : Type ℓ} {a b : A} → some a ≡ some b → a ≡ b
some_injective {a} p = ap (or_else a) p
