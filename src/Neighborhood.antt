-- ===== src/Neighborhood.antt =====
-- pkg/runtime/svc/neighborhood/neighborhood.go: the phases of a host's connectivity. `Phases` models
-- the code; `Emitting` proves what it does.
pub mod Phases
pub mod Emitting
mod Examples
