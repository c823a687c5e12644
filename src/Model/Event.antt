-- ===== src/Model/Event.antt =====
-- crates/types/src/event.rs: the normalised event that every consumer sees.
-- `V` is serde_json's value type, which no operation on events opens. An f64 is its bit pattern.
use Prim.Native.String.{◌++◌ as str_append}
use prospero.Prelude.{ℕ, Bool, true, false, Option, List, String, str_eq, if◌then◌else◌}
use prospero.Model.{AgentStatus, WorkspaceHealth}

-- An IEEE 754 double, by the number that its 64 bits spell; 0 is the pattern of 0.0.
abbrev pub F64 : Type 0
F64 = ℕ

pub data OutputStream : Type 0 where
  stdout thinking : OutputStream

-- The payload of an event.
pub data EventKind (V : Type 0) : Type 0 where
  agent_spawned : EventKind V
  agent_discovered : EventKind V
  agent_init : (model : String) (tools : List String) (session_id : String) → EventKind V
  status_changed : (from to : AgentStatus) → EventKind V
  output : (stream : OutputStream) (chunk : String) → EventKind V
  tool_started : (id name : String) (input : V) → EventKind V
  tool_finished :
      (id name : String) (ok : Bool) (result : Option String) (truncated : Bool) → EventKind V
  agent_finished : (outcome : String) (cost_usd : F64) (turns : ℕ) → EventKind V
  agent_gone : EventKind V
  store_persist_failed : (lost_seq : ℕ) (detail : String) → EventKind V
  deadline_set : (deadline : String) → EventKind V
  agent_timed_out : (deadline : String) → EventKind V
  repo_health : (health : WorkspaceHealth) → EventKind V

-- The stream that a workspace and an agent id belong to.
unfoldable pub stream_key_for : String → String → String
stream_key_for repo agent_id =
    if str_eq agent_id ""
    then (if str_eq repo "" then "fleet" else str_append "repo:" repo)
    else agent_id

-- A sequenced event.
pub record FleetEvent (V : Type 0) : Type 0 where
  pub seq : ℕ
  pub ts : String
  pub repo : String
  pub agent_id : String
  pub kind : EventKind V
  pub actor : Option String
  pub on_behalf_of : Option String

unfoldable pub stream_key : {V : Type 0} → FleetEvent V → String
unfolding stream_key_for
stream_key e = stream_key_for e.repo e.agent_id

-- The kind that ends a run.
unfoldable pub is_finish : {V : Type 0} → EventKind V → Bool
is_finish (agent_finished outcome cost_usd turns) = true
is_finish _ = false

unfoldable pub is_finished : {V : Type 0} → FleetEvent V → Bool
unfolding is_finish
is_finished e = is_finish e.kind
