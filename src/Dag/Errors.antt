-- ===== src/Dag/Errors.antt =====
-- The errors of internal/cluster/dag.go, without the names that their texts carry.
pub data DagError : Type 0 where
  empty_name duplicate_name self_dep unknown_dep has_cycle : DagError
  unreachable_from malformed_from unknown_from from_not_ancestor from_unknown_output : DagError
  out_of_fuel : DagError
