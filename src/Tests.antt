-- ===== src/Tests.antt =====
-- Concrete inputs: tests of the models, and an instance of each theorem that has hypotheses.
mod Jobs
mod Scheduling
mod Workflows
mod Resolving
mod Access
mod Env
mod Running
mod Nodes
