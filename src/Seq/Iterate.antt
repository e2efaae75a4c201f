-- ===== src/Seq/Iterate.antt =====
-- ForEach, ToSlice and Cons of pkg/lang/core/seq.go, and the method Conj of chunkedSeq.
use ww.Prelude.{
  ℕ, zero, suc, Bool, false, if◌then◌else◌, List, [], ◌∷◌, ◌++◌, Option, none, some, Result, ok,
  fail, ◌>>=◌, out_of_fuel, panic, ◌==◌,
}
use ww.LinkedList.Data.{LinkedList, AnyList, empty_list, head_list, packed_list, deep_list}
use ww.LinkedList.Methods.{new_head_list, head_cons, packed_cons, deep_cons}
use ww.Seq.Data.{Seq, list_seq, chunked_seq, count, first, next}

module _ {A : Type 0} {S : Type 0} where
  -- ForEach, for a callback that works on a state; the fuel bounds the number of rounds.
  unfoldable pub for_each : ℕ → (S → A → Result (Bool × S)) → S → Option (Seq A) → Result S
  for_each zero call state s = fail out_of_fuel
  for_each (suc fuel) call state none = ok state
  for_each (suc fuel) call state (some s) = do
    v ← first s
    elim v [
      | none ↦ ok state
      | some x ↦ do
        (done, state') ← call state x
        let rest = (do s' ← next s; for_each fuel call state' s')
        if done then ok state' else rest
    ]

module _ {A : Type 0} where
  -- The callback of ToSlice
  abbrev pub collect : List A → A → Result (Bool × List A)
  collect sl item = ok (false, sl ++ item ∷ [])

  -- ToSlice
  unfoldable pub to_slice : ℕ → Seq A → Result (List A)
  to_slice fuel s = do cnt ← count s; if cnt == 0 then ok [] else for_each fuel collect [] (some s)

  -- seq.Value().List(): the value of an empty list is the zeroed one, which is no list
  unfoldable pub value_list : Seq A → Result (LinkedList A)
  value_list (list_seq empty_list) = fail panic
  value_list (list_seq (head_list l)) = ok l
  value_list (list_seq (packed_list l)) = ok l
  value_list (list_seq (deep_list l)) = ok l
  value_list (chunked_seq cs) = fail panic

  -- The switch of Cons on the tail's count, when it is not zero
  abbrev pub cons_by : ℕ → A → LinkedList A → Result (AnyList A)
  cons_by (suc zero) item list = do r ← head_cons list item; ok (packed_list r)
  cons_by (suc (suc zero)) item list = ok (deep_list (packed_cons list item))
  cons_by _ item list = do r ← deep_cons list item; ok (deep_list r)

  -- Cons
  unfoldable pub cons : A → Seq A → Result (AnyList A)
  cons item tail = do
    cnt ← count tail
    let longer = (do list ← value_list tail; cons_by cnt item list)
    if cnt == 0 then ok (head_list (new_head_list item)) else longer

  -- (chunkedSeq).Conj
  unfoldable pub chunk_conj : Seq A → List A → Result (Seq A)
  chunk_conj s [] = ok s
  chunk_conj s (x ∷ items) = do l ← cons x s; chunk_conj (list_seq l) items
