-- ===== src/WorkflowStore.antt =====
-- The workflow store (internal/cluster/workflow*.go) over a job store: a method is a function from
-- both stores to both. Each store has a persister and faults of its own.
mod State
mod Submit
mod Eligible
mod Progress
mod Read
pub mod Eligibility
pub mod Ending
pub mod Outcome
pub mod Reports
pub mod Sights
pub mod Ends
pub mod Skipping
mod Skipped
pub mod Cascade
pub mod Starting
pub use State.*
unfoldable pub use Submit.*
unfoldable pub use Eligible.*
unfoldable pub use Progress.*
unfoldable pub use Read.*
