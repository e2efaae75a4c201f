-- ===== src/Joining.antt =====
-- How a node comes to join others: pkg/runtime/svc/boot, pkg/runtime/svc/discovery and
-- pkg/runtime/svc/join, which meet at the event of a peer that was discovered. `Services` has the three,
-- `System` their composition; `Safety`, `Blocking` and `Order` prove what they do.
pub mod Services
pub mod System
pub mod Safety
pub mod Blocking
pub mod Order
mod Examples
