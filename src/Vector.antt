-- ===== src/Vector.antt =====
-- pkg/lang/core/vector.go: the persistent bit-partitioned vector. `Trie` and the files after it
-- model the code; the others prove what it does.
pub mod Trie
pub mod Data
pub mod Shallow
pub mod Deep
pub mod Methods
pub mod Digits
pub mod Shape
pub mod Push
pub mod Update
pub mod Shrink
pub mod Invariant
pub mod Grow
pub mod DeepCons
pub mod DeepConj
pub mod DeepAssoc
pub mod Lower
pub mod Contents
pub mod Slices
pub mod DeepPop
pub mod PopLaws
pub mod ShallowLaws
pub mod ShallowOps
pub mod Laws
pub mod Reading
pub mod Samples
mod Trials
mod Examples
