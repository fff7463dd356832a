-- ===== src/Dispatch.antt =====
-- The dispatch loop (internal/cluster/dispatch.go). A tick is a function: the clock is read once,
-- and the registry answers with the same nodes throughout. The goroutine that a tick starts for
-- each job that it sends is a step of its own.
mod Eligible
mod Unschedulable
mod Turn
pub mod Passing
pub mod Stores
pub mod Sound
pub mod Placing
unfoldable pub use Eligible.*
unfoldable pub use Unschedulable.*
pub use Turn.{Loop, Send}
unfoldable pub use Turn.*
