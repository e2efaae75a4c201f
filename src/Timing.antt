-- ===== src/Timing.antt =====
-- The clock of the runtime and the services that count it: pkg/runtime/svc/internal/util.go,
-- pkg/runtime/svc/ticker, pkg/runtime/svc/announcer and pkg/runtime/svc/graph. `Bounds` and `Clock`
-- prove when they act, and `Requests` what the graph asks for.
pub mod Scheduler
pub mod Services
pub mod Bounds
pub mod Clock
pub mod Requests
mod Examples
