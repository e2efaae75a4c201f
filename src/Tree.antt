-- ===== src/Tree.antt =====
-- pkg/internal/tree/tree.go: the tree of anchors. `Store` models the code; the others prove what it
-- does.
pub mod Store
pub mod Paths
pub mod Added
pub mod Walking
pub mod Collecting
mod Examples
