-- ===== src/Vector/Data.antt =====
-- struct Vector of api/mem.capnp, and the helpers of pkg/lang/core/vector.go that build or read it.
use ww.Prelude.{
  ℕ, zero, suc, ◌%◌, ◌^◌, leb, ltb, ◌||◌, ◌==◌, if◌then◌else◌, List, [], ◌∷◌, length, Result, ok,
  fail, panic,
}
use ww.Memory.Cells.{Cells, write_all}
use ww.Memory.Node.{Node, null}
use ww.Vector.Trie.{width, Zeroed, empty_values, vector_tailoff, trie_values}

-- `count` is a uint32 and `shift` a uint8.
pub record Raw (A : Type 0) : Type 0 where
  pub count : ℕ
  pub shift : ℕ
  pub root : Node A
  pub tail : Cells A

-- The three implementations of the interface Vector.
pub data Vector (A : Type 0) : Type 0 where
  empty_vector : Vector A
  shallow : Raw A → Vector A
  deep : Raw A → Vector A

module _ {A : Type 0} where
  -- newVector: SetCount and SetShift cut their arguments to the width of the field.
  unfoldable pub new_vector : ℕ → ℕ → Node A → Cells A → Raw A
  new_vector cnt shift root tail = record {
    count = cnt % 2 ^ 32;
    shift = shift % 2 ^ 8;
    root = root;
    tail = tail;
  }

  -- apiVectorArrayFor: a uint8 that goes down by 5 comes to 0 within 256 rounds.
  unfoldable pub api_vector_array_for : Raw A → ℕ → ℕ → Result (Cells A)
  api_vector_array_for vec cnt i =
      if leb (vector_tailoff cnt) i then ok vec.tail else trie_values 257 vec.shift vec.root i

  -- tailSlice
  unfoldable pub slice_from : ℕ → ℕ → Cells A → List A
  slice_from start zero tail = []
  slice_from start (suc n) tail = tail start ∷ slice_from (suc start) n tail

  unfoldable pub tail_slice : ℕ → Cells A → List A
  unfolding slice_from
  tail_slice cnt tail = slice_from 0 cnt tail

  -- asVector
  unfoldable pub as_vector : Raw A → Vector A
  as_vector vec =
      if vec.count == 0 then empty_vector else if ltb width vec.count then deep vec else shallow vec

module _ {A : Type 0} ⦃z : Zeroed A⦄ where
  -- newShallowPersistentVector, on items that are in range
  abbrev pub shallow_of : List A → Raw A
  shallow_of items = record {
    count = length items % 2 ^ 32;
    shift = 0;
    root = null;
    tail = write_all 0 items empty_values;
  }

  -- newShallowPersistentVector
  unfoldable pub new_shallow : List A → Result (Raw A)
  unfolding write_all
  new_shallow items =
      if length items == 0 || ltb width (length items) then fail panic else ok (shallow_of items)
