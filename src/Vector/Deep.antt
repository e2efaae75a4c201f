-- ===== src/Vector/Deep.antt =====
-- DeepPersistentVector of pkg/lang/core/vector.go. A method that may write into the memory of its
-- receiver returns the receiver's new state behind its result.
use ww.Prelude.{
  ℕ, ◌+◌, ◌-◌, ◌/◌, ◌%◌, ◌^◌, ℤ, pos, negsuc, leb, ltb, ◌==◌, ◌&&◌, if◌then◌else◌, List, [], ◌∷◌,
  Result, ok, fail, ◌>>=◌, index_out_of_bounds, memory, panic,
}
use ww.Memory.Cells.{Cells, write, copy}
use ww.Memory.Node.{Node, null, branches, values, empty_branches, null_node, branch_at}
use ww.Vector.Trie.{
  width, bits, Zeroed, empty_values, vector_tailoff, new_path, push_tail, vector_assoc, pop_tail,
}
use ww.Vector.Data.{
  Raw, Vector, shallow, deep, new_vector, api_vector_array_for, tail_slice, new_shallow,
}

module _ {A : Type 0} where
  -- (DeepPersistentVector).arrayFor
  unfoldable pub array_for : Raw A → ℤ → Result (Cells A)
  array_for v (negsuc i) = fail index_out_of_bounds
  array_for v (pos i) =
      if leb v.count i then fail index_out_of_bounds else api_vector_array_for v v.count i

  -- (DeepPersistentVector).EntryAt; `array_for` fails at a negative index.
  unfoldable pub entry_at : Raw A → ℤ → Result A
  unfolding array_for
  entry_at v (negsuc i) = fail index_out_of_bounds
  entry_at v (pos i) = do vs ← array_for v (pos i); ok (vs (i % width))

  -- The root of the slow path of `cons`: a new root above the old one, or the old root with the
  -- tail pushed into it. Behind it the shift, and what the receiver's root has become.
  unfoldable pub grown_root : Raw A → Node A → Result (Node A × ℕ × Node A)
  grown_root v tailnode =
      if ltb (2 ^ v.shift) (v.count / 2 ^ bits)
      then (do
        path ← new_path (v.shift + 1) v.shift tailnode
        ok (branches (write (write empty_branches 0 v.root) 1 path), v.shift + bits, v.root))
      else do
        root ← push_tail (v.shift + 1) v.shift v.count v.root tailnode
        ok (root, v.shift, root)

  -- The end of `pop`: a root with one child is replaced by that child.
  unfoldable pub lower_root : Node A → ℕ → Result (Node A × ℕ)
  unfolding branch_at
  lower_root (values vs) shift = fail panic
  lower_root null shift = if ltb bits shift then fail panic else ok (null, shift)
  lower_root (branches bs) shift =
      if ltb bits shift && null_node (bs 1)
      then ok (bs 0, shift - bits)
      else ok (branches bs, shift)

module _ {A : Type 0} ⦃z : Zeroed A⦄ where
  -- (DeepPersistentVector).cons
  unfoldable pub cons : Raw A → A → Result (Raw A × Raw A)
  cons v any =
      let taillen = v.count - vector_tailoff v.count in
      if ltb taillen width
      then ok (
        new_vector (v.count + 1) v.shift v.root
            (write (copy taillen v.tail empty_values) taillen any),
        v,
      )
      else do
        (newroot, shift, oldroot) ← grown_root v (values v.tail)
        ok (
          new_vector (v.count + 1) shift newroot (write empty_values 0 any),
          record v { root = oldroot },
        )

  -- (DeepPersistentVector).conj: each round has the vector of the last one for its receiver.
  unfoldable pub conj : Raw A → List A → Result (Raw A × Raw A)
  conj v [] = ok (v, v)
  conj v (any ∷ items) = do
    (v', receiver) ← cons v any
    (result, _) ← conj v' items
    ok (result, receiver)

  -- (DeepPersistentVector).update
  unfoldable pub update : Raw A → ℕ → A → Result (Raw A)
  update v i any =
      let tailoff = vector_tailoff v.count in
      if leb tailoff i
      then ok (
          new_vector v.count v.shift v.root
            (write (copy (v.count - tailoff) v.tail empty_values) (i % width) any))
      else do
        root ← vector_assoc (v.shift + 1) v.shift v.root i any
        ok (new_vector v.count v.shift root v.tail)

  -- (DeepPersistentVector).Assoc
  unfoldable pub assoc : Raw A → ℤ → A → Result (Raw A × Raw A)
  assoc v (negsuc i) item = fail index_out_of_bounds
  assoc v (pos i) item =
      if ltb i v.count
      then (do result ← update v i item; ok (result, v))
      else if i == v.count
      then cons v item
      else fail index_out_of_bounds

  -- (DeepPersistentVector).pop
  unfoldable pub pop : Raw A → Result (Vector A)
  pop v =
      let taillen = v.count - vector_tailoff v.count in
      if leb v.count width
      then fail memory
      else if ltb 1 taillen
      then ok
          (deep (new_vector (v.count - 1) v.shift v.root (copy (taillen - 1) v.tail empty_values)))
      else do
        newtail ← array_for v (pos (v.count - 2))
        if leb (v.count - 1) width
            then (do s ← new_shallow (tail_slice (v.count - 1) newtail); ok (shallow s))
            else do
              newroot ← pop_tail (v.shift + 1) v.shift v.count v.root
              (root, shift) ← lower_root newroot v.shift
              ok (deep (new_vector (v.count - 1) shift root newtail))

  -- newDeepPersistentVector: `tail` is full.
  unfoldable pub new_deep : Cells A → List A → Result (Raw A)
  new_deep tail items = do
    (result, _) ←
        conj (record { count = width; shift = bits; root = branches empty_branches; tail = tail })
          items
    ok result
