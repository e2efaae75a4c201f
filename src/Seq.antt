-- ===== src/Seq.antt =====
-- pkg/lang/core/seq.go, and chunkedSeq of pkg/lang/core/vector.go: the interface Seq, the sequence
-- of a vector, and what runs over a sequence.
pub mod Data
pub mod Iterate
pub mod Yields
pub mod ListSeq
pub mod Chunks
pub mod VectorSeq
pub mod Consing
mod Examples
