-- ===== src/Seq/Yields.antt =====
-- The abstract view of a sequence (pkg/lang/core/seq.go): the values that it yields, and ToSlice on
-- such a sequence.
use ww.Prelude.{
  append_snoc, ℕ, zero, suc, ◌+◌, ◌%◌, ◌^◌, ◌<◌, ◌≡◌, ◌∙◌, refl, ap, arith, List, [], ◌∷◌, ◌++◌,
  length, none, some, ok, ne→eq,
}
use ww.Seq.Data.{Seq, count, first, next}
use ww.Seq.Iterate.{for_each, collect, to_slice}

module _ {A : Type 0} where
  -- First and Next give the values, one after the other, and then nil; Count is the number of those
  -- that are left, modulo 2^32.
  abbrev pub Yields : Seq A → List A → Type 0
  Yields s [] = first s ≡ ok none
  Yields s (x ∷ []) = (count s ≡ ok 1) × (first s ≡ ok (some x)) × (next s ≡ ok none)
  Yields s (x ∷ y ∷ xs) =
      (count s ≡ ok (length (x ∷ y ∷ xs) % 2 ^ 32))
      × (first s ≡ ok (some x))
      × ((r : Seq A) × (next s ≡ ok (some r)) × Yields r (y ∷ xs))

  -- The loop of ToSlice appends the values to what it has collected.
  for_each-Yields :
      (fuel : ℕ) (s : Seq A) (x : A) (xs acc : List A)
      → Yields s (x ∷ xs)
      → length xs + 1 < fuel
      → for_each fuel collect acc (some s) ≡ ok (acc ++ x ∷ xs)
  unfolding for_each
  for_each-Yields (suc (suc fuel)) s x [] acc (c, f, n) enough = rw (f, n) refl
  for_each-Yields (suc fuel) s x (y ∷ xs) acc (c, f, (r, n, rest)) enough =
      rw (f, n)
        (for_each-Yields fuel r y xs (acc ++ x ∷ []) rest (omega arith)
          ∙ ap ok (append_snoc acc x (y ∷ xs)))
  for_each-Yields zero s x xs acc h enough = absurd (omega arith)
  for_each-Yields (suc zero) s x [] acc h enough = absurd (omega arith)

  pub count-Yields :
      (s : Seq A) (x : A) (xs : List A)
      → Yields s (x ∷ xs)
      → count s ≡ ok (length (x ∷ xs) % 2 ^ 32)
  count-Yields s x [] h = h.0
  count-Yields s x (y ∷ xs) h = h.0

  -- ToSlice of a sequence that yields a value and more returns them all.
  pub to_slice-Yields :
      (fuel : ℕ) (s : Seq A) (x : A) (xs : List A)
      → Yields s (x ∷ xs)
      → length (x ∷ xs) < 2 ^ 32
      → length (x ∷ xs) < fuel
      → to_slice fuel s ≡ ok (x ∷ xs)
  unfolding to_slice
  to_slice-Yields fuel s x xs h bound enough =
      rw (count-Yields s x xs h, ne→eq (length (x ∷ xs) % 2 ^ 32) 0 (omega arith))
        (for_each-Yields fuel s x xs [] h (omega arith))
