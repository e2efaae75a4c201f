-- ===== src/Func.antt =====
-- pkg/lang/core/func.go: functions of several arities, the builder that makes them and the choice of
-- the target of a call. `Data`, `Builder` and `Match` model the code; the others prove what it does.
pub mod Data
pub mod Builder
pub mod Match
pub mod Params
pub mod Targets
pub mod Building
mod Examples
