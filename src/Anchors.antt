-- ===== src/Anchors.antt =====
-- pkg/host/anchor.go and the client of pkg/internal/rpc/anchor: the anchors that a host serves, and the
-- anchors by which a client uses them. `Local` has the anchors in a host's tree, `Host` the root
-- anchor and the capabilities, `Client` the client; `Reaching` and `Serving` prove what they do.
pub mod Local
pub mod Host
pub mod Client
pub mod Reaching
pub mod Serving
mod Examples
