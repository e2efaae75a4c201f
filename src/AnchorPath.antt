-- ===== src/AnchorPath.antt =====
-- pkg/util/anchor/path/anchor.go: paths of anchors. `Text` models the code; `Parts` proves what it
-- does.
pub mod Text
pub mod Parts
mod Examples
