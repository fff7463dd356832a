-- ===== src/Dispatch/Sound.antt =====
-- What a tick of the dispatch loop may hand to a node (internal/cluster/dispatch.go).
use helion_v.Prelude.{Bool, true, false}
use helion_v.Job.{Job}
use helion_v.JobStore.{JobStore}
use helion_v.Node.{Node}
use helion_v.WorkflowStore.{WorkflowStore}

-- Whether the tick goes on or ends.
abbrev either {ℓ} : {A : Type ℓ} → Bool → A → A → A
either b later ended = elim b [ true ↦ later | false ↦ ended ]
