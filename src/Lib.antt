-- ===== src/Lib.antt =====
-- Verification of the Helion coordinator.
--
-- Helion runs jobs and workflows of jobs on a cluster. A client submits them to the coordinator,
-- which keeps them in two stores with a persister each, picks a node for every pending job that is
-- eligible, and follows the job's status as the nodes report it. This library models the core of the
-- coordinator: in internal/cluster the two stores, the scheduler, the dispatch loop and the
-- validation of workflows, and in internal/authz and internal/groups who may do what.
--
-- - Job: the job record, its statuses and the table of transitions (JobStatus and Job of
--   internal/proto/coordinatorpb/types.go, allowedTransitions of internal/cluster/job.go).
--   Job/Retry: ShouldRetry and NextRetryDelay of internal/cluster/retry.go.
-- - JobStore: the store (internal/cluster/job*.go, shares.go). JobStore/State has its record and the
--   persister behind it; Submit, Transition, Cancel, RetryLoop and Read have a function for each
--   method; the other modules below it prove, JobStore/Written states what a transition writes. A method under the lock is a function from the store
--   to the new store and the error, none for nil. The persister is the map of what it holds and the
--   list of what its next calls answer, so that each save can fail at each point. The two critical
--   sections of CancelJob are two functions, and JobStore/Trace has runs of all operations in any
--   order between them.
-- - Node, Scheduler and its children: scheduler.go, policy.go and policy_resource.go. A policy is a
--   function from its own state and the candidates to a pick.
-- - Queue: priority.go, the order in which the pending jobs are taken.
-- - Workflow, Dag and its children: the workflow records, and dag.go. Dag/Sort is TopologicalSort,
--   Dag/From validateFromReferences, Dag/Checks ValidateDAG, Dag/Reach Descendants and RootJobs,
--   Dag/DotRef splitDotRef. Their proofs are in Dag/Kahn, Dag/Valid, Dag/Accepts,
--   Dag/Ends, Dag/Ancestry, Dag/Downstream and Dag/DotRefJoin.
-- - WorkflowStore: workflow_submit.go, workflow_lifecycle.go and workflow_read.go over both stores:
--   Start submits to the job store, OnJobCompleted and Cancel change its jobs. WorkflowStore/Reports
--   states how the jobs of a workflow stand, apart from the pass that counts them.
-- - Resolve: ResolveJobInputs of workflow_resolve.go, over the job store.
-- - Dispatch: a tick of the dispatch loop of dispatch.go, which takes the queue, the eligible set,
--   the resolver, the scheduler and the job store together: Dispatch/Turn is dispatchPending and
--   sendToNode, Dispatch/Eligible and Dispatch/Unschedulable its helpers. The tick is a function of
--   the clock and of what the registry answers; the sends that it starts are a list.
-- - Registry: registry*.go and the pinner of certpin.go. Register is two functions, since it takes
--   the lock behind its checks; Registry/Health has heartbeats, staleness, revocation, reads and
--   Restore. Services: service_registry.go.
-- - Recovery: recovery.go over the job store. What the dispatcher answers is an argument.
-- - Principal: internal/principal/principal.go. Authz: internal/authz: Allow, its rule tables in
--   Authz/Rules, and shares. Authz/Grounds states who may do what as a relation.
-- - Groups: internal/groups/groups.go and memstore.go. Groups/Spec is the specification: a set of
--   names and a relation between principals and names.
-- - EnvDenylist: internal/api/env_denylist.go, which environment keys a submission may set, in the
--   order in which the map's range gives them.
-- - Gpu: internal/runtime/gpu_alloc.go, the devices of a node.
-- - Prelude: Boolean tests, lists, maps and strings. Tests: concrete inputs.
--
-- A machine integer is a natural number with its wrap-around written out; a time is its count of
-- nanoseconds, and the clock and the random numbers are arguments. A Go map is an association list,
-- and no theorem depends on the order of its entries. The loops over work lists run on fuel: the
-- number of jobs and one in TopologicalSort, the number of dependencies and two in Descendants, and
-- the number of dependencies and of those of the job, and one, in the search for ancestors. A list
-- of pending names never outlives these, because each turn takes a name or an edge for good. The
-- loop of the GPU allocator runs once for each device.
--
-- Not modelled: the parser of the denylist exceptions and the checks of artifact paths; log lines
-- and the texts of errors and audit details; SetEventBus, for the bus is taken as attached; the
-- tickers and goroutines of the dispatch loop; the certificates that a registration verifies and
-- issues; the durable persister, beyond its contract, and the durable group store; the HTTP and
-- gRPC layers, the node's runtime but for its GPUs, authentication, analytics and artifact
-- storage, which are I/O around it.
pub mod Prelude
pub mod Authz
pub mod Dag
pub mod Dispatch
pub mod EnvDenylist
pub mod Gpu
pub mod Groups
pub mod Job
pub mod JobStore
pub mod Node
pub mod Principal
pub mod Queue
pub mod Recovery
pub mod Registry
pub mod Resolve
pub mod Scheduler
pub mod Services
pub mod Workflow
pub mod WorkflowStore
pub mod Tests
