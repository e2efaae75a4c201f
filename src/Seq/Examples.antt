-- ===== src/Seq/Examples.antt =====
-- The theorems on sequences at concrete inputs.
use ww.Prelude.{ℕ, ◌≡◌, arith, [], ◌∷◌, ok, fail, panic, Ensures}
use ww.Vector.Data.{Vector}
use ww.Vector.Contents
use ww.Vector.Methods.{new_vector}
use ww.Vector.Laws.{new_vector-Holds}
use ww.Vector.Samples.{nat_zeroed, items, count_up}
use ww.LinkedList.Data.{AnyList}
use ww.LinkedList.Methods.{new_list}
use ww.LinkedList.Contents.{Holds}
use ww.LinkedList.Laws.{new_list-Holds}
use ww.Seq.Data.{seq}
use ww.Seq.Iterate.{to_slice, chunk_conj}
use ww.Seq.VectorSeq.{to_slice-seq}
use ww.Seq.Consing.{chunk_conj-panic}

made_list : Ensures (new_list items) (λ l. Holds l items)
made_list = new_list-Holds items

abbrev list : AnyList ℕ
list = made_list.0

made_vector : Ensures (new_vector items) (λ v. Contents.Holds v items)
made_vector = new_vector-Holds items (omega arith)

abbrev vector : Vector ℕ
vector = made_vector.0

to_slice-seq_example : to_slice 71 (seq vector) ≡ ok items
to_slice-seq_example = to_slice-seq 71 vector items made_vector.2 (omega arith) (omega arith)

chunk_conj-panic_example : chunk_conj (seq vector) (7 ∷ []) ≡ fail panic
chunk_conj-panic_example =
    chunk_conj-panic vector 100 (count_up 101 69) [] 7 made_vector.2 (omega arith)
