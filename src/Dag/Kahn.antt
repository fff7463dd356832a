-- ===== src/Dag/Kahn.antt =====
-- Why Kahn's algorithm sorts: the invariant of its queue, and what it returns.
pub mod Degrees
pub mod Visits
pub mod Invariant
pub mod Turns
pub mod Result
