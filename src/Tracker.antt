-- ===== src/Tracker.antt =====
-- pkg/runtime/svc/tracker/tracker.go: the connections to each peer, and the events on them. `Counter`
-- and `Channels` model the code; the others prove what it does.
pub mod Counter
pub mod Channels
pub mod Connectedness
pub mod Counting
pub mod Balance
pub mod Hazards
pub mod Services
mod Examples
