-- ===== src/Seq/ListSeq.antt =====
-- A list of pkg/lang/core/list.go as a sequence.
use ww.Prelude.{ℕ, ◌^◌, ◌<◌, ◌≡◌, refl, ap, arith, inl, inr, List, [], ◌∷◌, length, ok}
use ww.LinkedList.Data.{AnyList}
use ww.LinkedList.Contents.{Holds}
use ww.LinkedList.Laws.{count-Holds, first-next_empty, first-next-Holds}
use ww.Seq.Data.{list_seq, count, first, next}
use ww.Seq.Iterate.{to_slice}
use ww.Seq.Yields.{Yields, to_slice-Yields}

module _ {A : Type 0} where
  -- A list that holds some values, whichever its form, yields them.
  pub list-Yields : (l : AnyList A) (xs : List A) → Holds l xs → Yields (list_seq l) xs
  unfolding count first next
  list-Yields l [] h = rw (first-next_empty l h).0
  list-Yields l (x ∷ []) h =
      let (f, step) = first-next-Holds l [] x h in
      elim step [
        | inl (_, n) ↦ (count-Holds l (x ∷ []) h, rw f refl, rw n refl)
        | inr (more, _) ↦ absurd (omega (arith, more))
      ]
  list-Yields l (x ∷ y ∷ xs) h =
      let (f, step) = first-next-Holds l (y ∷ xs) x h in
      elim step [
        | inl (none_left, _) ↦ absurd (omega (arith, ap length none_left))
        | inr (_, (r, n, p)) ↦ (
          count-Holds l (x ∷ y ∷ xs) h,
          rw f refl,
          (list_seq r, rw n refl, list-Yields r (y ∷ xs) p),
        )
      ]

  -- ToSlice of a list that holds fewer than 2^32 values returns them in order, whenever the fuel is
  -- more than the number of values.
  pub to_slice-Holds :
      (fuel : ℕ) (l : AnyList A) (xs : List A)
      → Holds l xs
      → length xs < 2 ^ 32
      → length xs < fuel
      → to_slice fuel (list_seq l) ≡ ok xs
  unfolding to_slice count
  to_slice-Holds fuel l [] h bound enough = rw (count-Holds l [] h) refl
  to_slice-Holds fuel l (x ∷ xs) h bound enough =
      to_slice-Yields fuel (list_seq l) x xs (list-Yields l (x ∷ xs) h) bound enough
