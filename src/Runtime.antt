-- ===== src/Runtime.antt =====
-- pkg/runtime/runtime.go: the loading of the services of a runtime. `Loader` models the code,
-- `Loading` proves what it does.
pub mod Loader
pub mod Loading
mod Examples
