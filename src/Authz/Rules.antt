-- ===== src/Authz/Rules.antt =====
-- The rule tables (internal/authz/rules.go): what nodes and the coordinator's services may do.
use helion_v.Prelude.{String, Bool, true, false, none, some, List, [], ◌∷◌, Assoc, lookup}

abbrev Actions : Type 0
Actions = Assoc Bool

-- A missing key of a Go map of Booleans reads as false.
abbrev allows : String → Actions → Bool
allows action actions = elim (lookup action actions) [ none ↦ false | some b ↦ b ]

abbrev granted : List String → Actions
granted [] = []
granted (a ∷ others) = (a, true) ∷ granted others

abbrev actions_on : String → Assoc Actions → Actions
actions_on kind by_resource = elim (lookup kind by_resource) [ none ↦ [] | some actions ↦ actions ]

-- nodeActionsByResource, which is empty.
abbrev node_actions_by_resource : Assoc Actions
node_actions_by_resource = []

unfoldable pub node_allowed : (action kind : String) → Bool
unfolding lookup
node_allowed action kind = allows action (actions_on kind node_actions_by_resource)

-- serviceActions
unfoldable pub service_actions : Assoc (Assoc Actions)
service_actions =
    ("dispatcher", ("job", granted ("read" ∷ "list" ∷ "cancel" ∷ [])) ∷ [])
    ∷ (
      "workflow_runner",
      ("job", granted ("read" ∷ "write" ∷ "list" ∷ []))
          ∷ ("workflow", granted ("read" ∷ "list" ∷ "cancel" ∷ []))
          ∷ [],
    )
    ∷ ("retry_loop", ("job", granted ("read" ∷ "list" ∷ "write" ∷ "cancel" ∷ [])) ∷ [])
    ∷ ("log_ingester", ("job", granted ("read" ∷ [])) ∷ [])
    ∷ ("retention", [])
    ∷ ("log_reconciler", ("job", granted ("read" ∷ [])) ∷ [])
    ∷ ("coordinator", [])
    ∷ []

unfoldable pub service_allowed : (name action kind : String) → Bool
unfolding service_actions lookup
service_allowed name action kind = elim (lookup name service_actions) [
  | none ↦ false
  | some by_resource ↦ allows action (actions_on kind by_resource)
]
