-- ===== src/JobStore.antt =====
-- The job store (internal/cluster/job*.go). A method that holds the lock is a function from the
-- store to the new store and the error it returns; `none` is nil.
--
-- `disk` is what the persister holds. `faults` says what its next SaveJob calls return: `true`
-- is an error, and after the list's end every call succeeds. The clock is an argument.
mod State
mod Submit
mod Transition
mod Cancel
mod RetryLoop
mod Read
pub mod Lifecycle
pub mod Written
pub mod Steps
pub mod Durable
pub mod Trace
pub mod Ends
pub mod Outcomes
pub mod Agreement
pub mod Saves
pub mod Uploads
pub use State.*
unfoldable pub use Submit.*
unfoldable pub use Transition.*
unfoldable pub use Cancel.*
unfoldable pub use RetryLoop.*
unfoldable pub use Read.*
