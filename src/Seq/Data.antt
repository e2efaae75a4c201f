-- ===== src/Seq/Data.antt =====
-- The interface Seq, with its implementations: a list (pkg/lang/core/list.go), and chunkedSeq
-- (pkg/lang/core/vector.go), which walks a vector one array at a time.
use ww.Prelude.{
  ℕ, ◌+◌, ◌-◌, ◌%◌, ◌^◌, leb, ltb, ◌==◌, if◌then◌else◌, Option, none, some, Option, Result, ok,
  fail, ◌>>=◌, panic,
}
use ww.Memory.Cells.{Cells}
use ww.Memory.Node.{null}
use ww.Vector.Trie.{width, Zeroed, empty_values, vector_tailoff}
use ww.Vector.Data.{Raw, Vector, empty_vector, shallow, deep, api_vector_array_for}
use ww.LinkedList.Data.{AnyList, empty_list}
use ww.LinkedList.Methods

-- struct VectorSeq of api/mem.capnp: `index` is a uint32 and `offset` a uint8.
pub record Chunk (A : Type 0) : Type 0 where
  pub vector : Raw A
  pub index : ℕ
  pub offset : ℕ

pub data Seq (A : Type 0) : Type 0 where
  list_seq : AnyList A → Seq A
  chunked_seq : Chunk A → Seq A

module _ {A : Type 0} where
  -- newChunkedSeq
  abbrev pub new_chunked_seq : Raw A → ℕ → ℕ → Chunk A
  new_chunked_seq v i offset = record { vector = v; index = i; offset = offset }

  -- (chunkedSeq).Count, on uint32
  unfoldable pub chunk_count : Chunk A → ℕ
  chunk_count cs = (cs.vector.count + 2 ^ 32 - (cs.index + cs.offset) % 2 ^ 32) % 2 ^ 32

  -- node.At(i): the arrays of a vector have 32 cells, except the tail of the zeroed vector of `init`,
  -- which has none.
  unfoldable pub node_at : Raw A → Cells A → ℕ → Result A
  node_at v node i =
      if v.count == 0 then fail panic else if ltb i width then ok (node i) else fail panic

  -- (chunkedSeq).First
  unfoldable pub chunk_first : Chunk A → Result A
  chunk_first cs = do
    node ← api_vector_array_for cs.vector cs.vector.count cs.index
    node_at cs.vector node cs.offset

  -- (chunkedSeq).nodeLen
  unfoldable pub node_len : Chunk A → ℕ
  node_len cs =
      if leb (vector_tailoff cs.vector.count) cs.index
      then cs.vector.count - vector_tailoff cs.vector.count
      else width

  -- (chunkedSeq).chunkedNext
  unfoldable pub chunked_next : Chunk A → Option (Chunk A)
  chunked_next cs =
      if ltb ((cs.index + node_len cs) % 2 ^ 32) cs.vector.count
      then some (new_chunked_seq cs.vector ((cs.index + node_len cs) % 2 ^ 32) 0)
      else none

  -- (chunkedSeq).Next
  unfoldable pub chunk_next : Chunk A → Option (Chunk A)
  chunk_next cs =
      if ltb ((cs.offset + 1) % 2 ^ 8) (node_len cs)
      then some (new_chunked_seq cs.vector cs.index ((cs.offset + 1) % 2 ^ 8))
      else chunked_next cs

  -- Count
  unfoldable pub count : Seq A → Result ℕ
  count (list_seq l) = Methods.count l
  count (chunked_seq cs) = ok (chunk_count cs)

  -- First
  unfoldable pub first : Seq A → Result (Option A)
  first (list_seq l) = Methods.first l
  first (chunked_seq cs) = do x ← chunk_first cs; ok (some x)

  abbrev to_seq : Option (Chunk A) → Option (Seq A)
  to_seq none = none
  to_seq (some cs) = some (chunked_seq cs)

  abbrev of_list : Option (AnyList A) → Option (Seq A)
  of_list none = none
  of_list (some l) = some (list_seq l)

  -- Next
  unfoldable pub next : Seq A → Result (Option (Seq A))
  next (list_seq l) = do r ← Methods.next l; ok (of_list r)
  next (chunked_seq cs) = ok (to_seq (chunk_next cs))

module _ {A : Type 0} ⦃z : Zeroed A⦄ where
  -- The vector of `init`
  abbrev pub zeroed_vector : Raw A
  zeroed_vector = record { count = 0; shift = 0; root = null; tail = empty_values }

  -- Seq, of each form of vector
  unfoldable pub seq : Vector A → Seq A
  seq empty_vector = chunked_seq (new_chunked_seq zeroed_vector 0 0)
  seq (shallow v) = chunked_seq (new_chunked_seq v 0 0)
  seq (deep v) = if v.count == 0 then list_seq empty_list else chunked_seq (new_chunked_seq v 0 0)
