-- ===== src/PeerSet.antt =====
-- pkg/cluster/peerset.go: the set of peers of a host, which goroutines change by compare-and-swap.
-- `Treap` is what it uses of the treap library, `Filter` models the code, `Expiry` and `Swaps` prove
-- what it does.
pub mod Treap
pub mod Filter
pub mod Expiry
pub mod Swaps
mod Entries
mod Examples
