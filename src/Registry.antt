-- ===== src/Registry.antt =====
-- The registry of the nodes (internal/cluster/registry*.go). A save or an audit write that a
-- goroutine makes takes place at once. The certificate verifier and the fingerprint are parameters.
mod Labels
mod State
mod Register
mod Health
pub mod Revocation
unfoldable pub use Labels.*
unfoldable pub use State.*
unfoldable pub use Register.*
unfoldable pub use Health.*
