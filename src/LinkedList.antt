-- ===== src/LinkedList.antt =====
-- pkg/lang/core/list.go: the persistent list. `Data` and `Methods` model the code; the others
-- prove what it does.
pub mod Data
pub mod Methods
pub mod Contents
pub mod DeepLaws
pub mod Laws
mod Examples
