-- ===== src/K8s/Plane.antt =====
-- `SessionPlane` of crates/core/src/k8s/fleet.rs: the attach tasks of one replica, cut at the places where
-- other tasks can run. `held` are the streams whose lease the replica has; `running` are the tasks that
-- have been spawned and are not over, by stream and generation.
pub mod Slots
use prospero.Prelude.{
  ℕ, ◌+◌, ◌==◌, Bool, true, false, not, ◌&&◌, Option, none, some, List, [], ◌∷◌, String, str_eq,
  if◌then◌else◌, filter, length, get, insert, remove, ◌⊎◌, inl, inr,
}
use prospero.Error.{Result, ok, err, CoreError, fleet}
use prospero.Model.{is_terminal}
use prospero.Caliband.Wire.{AgentRecord, domain_status}
use prospero.Fleet.Control.{SpawnSpec}
use prospero.Fleet.Manager.{contains}
use prospero.K8s.Task.{Endpoint, unix, tcp}

-- The handle of a task: whether its abort handle is there yet, and its generation.
pub record AttachTask : Type 0 where
  pub abort : Bool
  pub generation : ℕ

pub record Plane : Type 0 where
  pub attached : List (String × AttachTask)
  pub generation : ℕ
  pub terminal : List String
  pub held : List String
  pub running : List (String × ℕ)

unfoldable pub without : String → List String → List String
without id xs = filter (λ (x : String). not (str_eq x id)) xs

unfoldable pub has_entry : Option AttachTask → Bool
has_entry none = false
has_entry (some t) = true

-- The guards of `attach` before it asks for the lease.
unfoldable pub may_attach : Plane → Endpoint → String → Bool
may_attach p (unix path) id = false
may_attach p (tcp addr) id = not (contains id p.terminal) && not (has_entry (get id p.attached))

-- The lease, if it is granted.
unfoldable pub acquired : Plane → String → Plane
acquired p id = record p { held = id ∷ p.held }

-- A generation is drawn, and the slot is reserved for a task that is spawned, unless another has it.
unfoldable pub reserve : Plane → String → Plane
reserve p id =
    if has_entry (get id p.attached) then record p { generation = p.generation + 1 } else record p {
      attached = insert id (record { abort = false; generation = p.generation }) p.attached;
      generation = p.generation + 1;
      running = (id, p.generation) ∷ p.running;
    }

-- The abort handle goes to the entry, if it is still the task's.
unfoldable pub registered : Option AttachTask → String → (generation : ℕ) → Plane → Plane
registered none id generation p = p
registered (some t) id generation p =
    if t.generation == generation
    then record p { attached = insert id (record t { abort = true }) p.attached }
    else p

unfoldable pub register : Plane → String → (generation : ℕ) → Plane
register p id generation = registered (get id p.attached) id generation p

-- `attach` with nothing in between; `granted` is the lease's answer.
unfoldable pub attach : Plane → Endpoint → String → (granted : Bool) → Plane
attach p endpoint id granted =
    if may_attach p endpoint id && granted
    then register (reserve (acquired p id) id) id p.generation
    else p

unfoldable pub is_generation : (generation : ℕ) → Option AttachTask → Bool
is_generation generation none = false
is_generation generation (some t) = t.generation == generation

unfoldable pub cleanup_attach : Plane → String → (generation : ℕ) → Plane
unfolding is_generation
cleanup_attach p id generation =
    if is_generation generation (get id p.attached)
    then record p { attached = remove id p.attached }
    else p

unfoldable pub release : Plane → String → Plane
release p id = record p { held = without id p.held }

-- Why no agent of a pod could be attached to.
pub data PodAgentError : Type 0 where
  terminal : CoreError → PodAgentError
  transient : CoreError → PodAgentError

unfoldable pub is_terminal_error : PodAgentError → Bool
is_terminal_error (terminal e) = true
is_terminal_error (transient e) = false

first_live : List AgentRecord → Option AgentRecord
first_live [] = none
first_live (r ∷ rest) =
    if not (is_terminal (domain_status r.status)) then some r else first_live rest

-- The agent of a pod: a live one, or else the one that is spawned in an empty pod. `gone` words the refusal
-- of a dead record, `spawn` is caliband's answer to a spec.
spawned_agent : (spawn : SpawnSpec → Result String) → Option SpawnSpec → PodAgentError ⊎ String
spawned_agent spawn none =
    inl (transient (fleet "pod caliband has no registered agent and no spawn spec to create one"))
spawned_agent spawn (some spec) = elim (spawn spec) [ ok id ↦ inr id | err e ↦ inl (transient e) ]

listed_agent :
    (dead : AgentRecord → String) (spawn : SpawnSpec → Result String)
    → Option SpawnSpec
    → Option AgentRecord
    → List AgentRecord
    → PodAgentError ⊎ String
unfolding spawned_agent
listed_agent dead spawn spec (some r) agents = inr r.id
listed_agent dead spawn spec none [] = spawned_agent spawn spec
listed_agent dead spawn spec none (r ∷ rest) = inl (terminal (fleet (dead r)))

unfoldable pub ensure_pod_agent :
    (dead : AgentRecord → String) (spawn : SpawnSpec → Result String)
    → Option SpawnSpec
    → Result (List AgentRecord)
    → PodAgentError ⊎ String
unfolding first_live listed_agent
ensure_pod_agent dead spawn spec (err e) = inl (transient e)
ensure_pod_agent dead spawn spec (ok agents) =
    listed_agent dead spawn spec (first_live agents) agents

-- The mark that a dead agent leaves.
unfoldable pub marked : Plane → String → PodAgentError ⊎ String → Plane
marked p id (inl (terminal e)) = record p { terminal = id ∷ p.terminal }
marked p id (inl (transient e)) = p
marked p id (inr agent) = p

unfoldable pub over : Plane → String → (generation : ℕ) → Plane
over p id generation = record p {
  running = filter (λ (t : String × ℕ). not (str_eq t.0 id && t.1 == generation)) p.running;
}

-- What a task does last, after its agent could not be resolved or its stream has ended: its mark, its slot,
-- its lease.
unfoldable pub end_task : Plane → String → (generation : ℕ) → PodAgentError ⊎ String → Plane
unfolding marked over
end_task p id generation resolved =
    over (release (cleanup_attach (marked p id resolved) id generation) id) id generation

unfoldable pub forget_terminal : Plane → String → Plane
forget_terminal p id = record p { terminal = without id p.terminal }

-- A task that is told to stop is aborted where its handle is there and the abort comes in time.
unfoldable pub stopped : Plane → String → (in_time : Bool) → Option AttachTask → Plane
unfolding over
stopped p id in_time none = p
stopped p id in_time (some t) =
    let p' = record p { attached = remove id p.attached } in
    if t.abort && in_time then over p' id t.generation else p'

unfoldable pub stop : Plane → String → (in_time : Bool) → Plane
stop p id in_time = release (forget_terminal (stopped p id in_time (get id p.attached)) id) id

unfoldable pub active_count : Plane → ℕ
active_count p = length p.attached
