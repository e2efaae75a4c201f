-- ===== src/Lang.antt =====
-- The evaluator of pkg/lang: analyzer.go, expr.go and special.go. `Scope` has the lookup of symbols,
-- `Call` the binding of arguments, `Special` the parsers of special forms and of spread arguments;
-- `Frames`, `Binding` and `Forms` prove what they do.
pub mod Scope
pub mod Call
pub mod Special
pub mod Frames
pub mod Binding
pub mod Forms
mod Examples
