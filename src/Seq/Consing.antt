-- ===== src/Seq/Consing.antt =====
-- Cons of pkg/lang/core/seq.go on each implementation of Seq, and the method Conj of chunkedSeq.
use ww.Prelude.{
  ℕ, zero, suc, ◌+◌, ◌%◌, ◌^◌, ◌<◌, ◌≡◌, refl, arith, List, ◌∷◌, length, fail, panic, ne→eq,
}
use ww.Vector.Trie.{Zeroed}
use ww.Vector.Data.{Vector, empty_vector, shallow, deep}
use ww.Vector.Contents
use ww.LinkedList.Data.{AnyList, empty_list, head_list, packed_list, deep_list}
use ww.LinkedList.Methods
use ww.LinkedList.Contents.{Holds}
use ww.LinkedList.DeepLaws.{offset-Stores}
use ww.Seq.Data.{list_seq, count, seq}
use ww.Seq.Iterate.{cons, cons_by, value_list, chunk_conj}
use ww.Seq.Yields.{count-Yields}
use ww.Seq.VectorSeq.{seq-Yields}

module _ {A : Type 0} where
  -- Three or more values are consed as a deep list.
  cons_by-deep : (n : ℕ) (x : A) (l : _) → 2 < n → cons_by n x l ≡ Methods.cons (deep_list l) x
  unfolding Methods.cons
  cons_by-deep (suc (suc (suc n))) x l h = refl
  cons_by-deep zero x l h = absurd (omega arith)
  cons_by-deep (suc zero) x l h = absurd (omega arith)
  cons_by-deep (suc (suc zero)) x l h = absurd (omega arith)

  -- Cons of a value and a list that holds fewer than 2^32 values, whichever its form, chooses by
  -- the count what the method Cons of the list chooses by its form.
  pub cons-list :
      (x : A) (l : AnyList A) (xs : List A)
      → Holds l xs
      → length xs < 2 ^ 32
      → cons x (list_seq l) ≡ Methods.cons l x
  unfolding cons count value_list Methods.cons Methods.count Methods.deep_count
  cons-list x empty_list xs h bound = refl
  cons-list x (head_list l) xs h bound = refl
  cons-list x (packed_list l) xs h bound = refl
  cons-list x (deep_list l) xs h bound =
      let (off, e, p) = offset-Stores l xs h in
      rw (e, ne→eq ((off + 3) % 2 ^ 32) 0 (omega (arith, p)))
        (cons_by-deep ((off + 3) % 2 ^ 32) x l (omega (arith, p)))

module _ {A : Type 0} ⦃z : Zeroed A⦄ where
  -- The sequence of a vector is no list.
  seq_value :
      (v : Vector A) (y : A) (ys : List A)
      → Contents.Holds v (y ∷ ys)
      → value_list (seq v) ≡ fail panic
  unfolding value_list seq
  seq_value empty_vector y ys h = refl
  seq_value (shallow v) y ys h = refl
  seq_value (deep v) y ys h = rw (ne→eq v.count 0 (omega (arith, h.valid.1))) refl

  -- Cons of a value and the sequence of a vector panics when the vector holds fewer than 2^32 values
  -- and at least one.
  cons-vector :
      (x : A) (v : Vector A) (y : A) (ys : List A)
      → Contents.Holds v (y ∷ ys)
      → length (y ∷ ys) < 2 ^ 32
      → cons x (seq v) ≡ fail panic
  unfolding cons
  cons-vector x v y ys h bound =
      rw
        (
          count-Yields (seq v) y ys (seq-Yields v y ys h),
          ne→eq (length (y ∷ ys) % 2 ^ 32) 0 (omega arith),
          seq_value v y ys h,
        )
        refl

  -- Conj of an item and more on the sequence of a vector panics when the vector holds at least one
  -- value, and fewer than 2^32.
  pub chunk_conj-panic :
      (v : Vector A) (y : A) (ys items : List A) (x : A)
      → Contents.Holds v (y ∷ ys)
      → length (y ∷ ys) < 2 ^ 32
      → chunk_conj (seq v) (x ∷ items) ≡ fail panic
  unfolding chunk_conj
  chunk_conj-panic v y ys items x h bound = rw (cons-vector x v y ys h bound)
