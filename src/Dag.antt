-- ===== src/Dag.antt =====
-- Validation of a workflow's dependencies (internal/cluster/dag.go). The loops run on fuel that
-- is enough for any input.
pub mod Errors
mod DotRef
pub mod DotRefJoin
mod Sort
mod From
mod Checks
mod Reach
pub mod Edges
pub mod ByName
pub mod Ancestry
pub mod Valid
pub mod Accepts
pub mod Ends
pub mod Downstream
pub mod Kahn
unfoldable pub use DotRef.*
unfoldable pub use Sort.*
unfoldable pub use From.*
unfoldable pub use Checks.*
unfoldable pub use Reach.*
