-- ===== src/K8s/Control/Groups.antt =====
-- The snapshot of the registered workspaces.
use prospero.Prelude.{◌≢◌, List, [], ◌∷◌, String, str_eq, filter, get, All}
use prospero.Model.{Agent}
use prospero.Fleet.Manager.{Workspace}
use prospero.K8s
use prospero.K8s.{WorkspaceCr}
use prospero.K8s.Task.{or_empty, workspace_view}
use prospero.K8s.Control.{or_nil}

-- The agents that refer to a workspace, in their order.
abbrev pub agents_in : String → List Agent → List Agent
agents_in name agents = filter (λ (a : Agent). str_eq a.workspace name) agents

abbrev pub name_of : WorkspaceCr → String
name_of ws = or_empty ws.metadata.name

-- No two registered workspaces have one name.
abbrev pub IsUnique : List WorkspaceCr → Type 0
IsUnique [] = Unit
IsUnique (ws ∷ rest) = All (λ (x : WorkspaceCr). name_of ws ≢ name_of x) rest × IsUnique rest

module _ {Config : Type 0} (config : Config) where
  -- The view of each workspace, by what a map has for it.
  abbrev view : List (String × List Agent) → WorkspaceCr → Workspace Config
  view m ws = workspace_view config ws (or_nil (get (name_of ws) m))
