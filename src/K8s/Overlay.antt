-- ===== src/K8s/Overlay.antt =====
-- `overlay_pod_status` of crates/core/src/k8s/fleet.rs: the agents as their pods see them.
use prospero.Prelude.{
  Bool, true, false, Option, none, some, List, [], ◌∷◌, map, String, get, insert,
}
use prospero.Error.{Result, ok, err}
use prospero.Model.{Agent, AgentStatus}
use prospero.Caliband.Wire.{AgentRecord, domain_status}
use prospero.K8s.{CalibanTask}
use prospero.K8s.Task.{Endpoint, unix, tcp, AgentHandle, or_empty, handle_from}

unfoldable pub is_some {ℓ} : {A : Type ℓ} → Option A → Bool
is_some none = false
is_some (some a) = true

module _ (debug : String → String) where
  -- The pod of a task: the address of its handle.
  tcp_addr : Option Endpoint → Option String
  tcp_addr none = none
  tcp_addr (some (unix path)) = none
  tcp_addr (some (tcp addr)) = some addr

  handle_addr : Result (Option AgentHandle) → Option String
  unfolding tcp_addr
  handle_addr (err e) = none
  handle_addr (ok none) = none
  handle_addr (ok (some h)) = tcp_addr h.endpoint

  unfoldable pub pod_of : CalibanTask → Option String
  unfolding handle_addr
  pod_of t = handle_addr (handle_from debug t t.spec.workspace_ref)

  put_pod : Bool → String → Option String → List (String × String) → List (String × String)
  put_pod true name (some addr) pods = insert name addr pods
  put_pod _ name _ pods = pods

  -- The address of each task's pod, for the names to be asked about.
  unfoldable pub agent_endpoint :
      (include : String → Bool) → List CalibanTask → List (String × String) → List (String × String)
  unfolding put_pod pod_of
  agent_endpoint include [] pods = pods
  agent_endpoint include (t ∷ rest) pods =
      let name = or_empty t.metadata.name in
      agent_endpoint include rest (put_pod (include name) name (pod_of t) pods)

-- What the pod at an address lists first, if it answers in time.
abbrev pub Pods : Type 0
Pods = String → Option AgentRecord

unfoldable pub record_of : Pods → Option String → Option AgentRecord
record_of pods none = none
record_of pods (some addr) = pods addr

unfoldable pub overlaid : Agent → Option AgentRecord → Agent
overlaid a none = a
overlaid a (some rec) = record a {
  interactive = rec.interactive;
  status = domain_status rec.status;
}

unfoldable pub refresh :
    String → Option AgentRecord → List (String × AgentStatus) → List (String × AgentStatus)
refresh id none m = m
refresh id (some rec) m = insert id (domain_status rec.status) m

-- The agents as their pods see them.
unfoldable pub overlay_agents : Pods → List (String × String) → List Agent → List Agent
overlay_agents pods endpoints agents =
    map (λ (a : Agent). overlaid a (record_of pods (get a.id endpoints))) agents

-- The status of each agent whose pod has answered.
unfoldable pub refreshed :
    Pods
    → List (String × String)
    → List Agent
    → List (String × AgentStatus)
    → List (String × AgentStatus)
refreshed pods endpoints [] m = m
refreshed pods endpoints (a ∷ rest) m =
    refreshed pods endpoints rest (refresh a.id (record_of pods (get a.id endpoints)) m)

unfoldable pub overlay_pod_status :
    (debug : String → String)
    → Pods
    → List CalibanTask
    → List Agent
    → (include : String → Bool) → List Agent × List (String × AgentStatus)
overlay_pod_status debug pods tasks agents include =
    let endpoints = agent_endpoint debug include tasks [] in
    (overlay_agents pods endpoints agents, refreshed pods endpoints agents [])
