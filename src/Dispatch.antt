-- ===== src/Dispatch.antt =====
-- pkg/lang/core/core.go, what is common to the values of the language, over lists and vectors. `Numbers`
-- has two kinds of number of pkg/lang/core/numbers.go, `Values` the values, `Operations` the functions
-- on them; `Equality` and `Containers` prove what these do.
pub mod Numbers
pub mod Values
pub mod Operations
pub mod Equality
pub mod Containers
mod Examples
