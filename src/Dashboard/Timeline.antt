-- ===== src/Dashboard/Timeline.antt =====
-- crates/dashboard/src/timeline.rs: a session's entries grouped into the segments that are shown.
-- `duration_ms` gives the milliseconds between two time stamps, where both can be read and do not fall;
-- `kind_label` is that of ui.rs.
pub mod Text
pub mod Rows
pub mod Finish
use Prim.Native.String.{◌++◌ as str_append}
use prospero.Prelude.{
  ℕ, zero, suc, ◌+◌, ◌==◌, Bool, true, false, not, Option, none, some, List, [], ◌∷◌, ◌++◌, String,
  str_eq, if◌then◌else◌, filter, length, is_empty,
}
use prospero.Model.{AgentStatus}
use prospero.Model.Event.{
  F64, FleetEvent, EventKind, stdout, thinking, agent_spawned, agent_discovered, agent_init,
  status_changed, output, tool_started, tool_finished, agent_finished, agent_gone,
  store_persist_failed, deadline_set, agent_timed_out, repo_health,
}
use prospero.Dashboard.Session.{Entry, event, gap, undecodable}

pub data ToolOutcome : Type 0 where
  running succeeded failed : ToolOutcome

pub record ToolCall (V : Type 0) : Type 0 where
  pub seq : ℕ
  pub id : String
  pub name : String
  pub input : V
  pub outcome : ToolOutcome
  pub duration_ms : Option ℕ
  pub result : Option String
  pub result_truncated : Bool

pub data ResultView : Type 0 where
  pending : ResultView
  unrecorded : ResultView
  text : (text : String) (truncated : Bool) → ResultView

pub data Segment (V : Type 0) : Type 0 where
  init : (model : String) (tools : List String) (session_id : String) → Segment V
  out : (text : String) → Segment V
  thought : (text : String) → Segment V
  tool : ToolCall V → Segment V
  status : (from to : AgentStatus) → Segment V
  finished : (outcome : String) (cost_usd : F64) (turns : ℕ) → Segment V
  skipped : (skipped : ℕ) → Segment V
  unreadable : (why : String) → Segment V
  other : (label : String) → Segment V

-- The segments so far, and the indices of those that are still open.
pub record Grouping (V : Type 0) : Type 0 where
  pub segs : List (Segment V)
  pub open_output : Option ℕ
  pub open_thinking : Option ℕ
  pub open_tools : List ℕ
  pub started_at : List (ℕ × String)

view_missing : ToolOutcome → ResultView
view_missing running = pending
view_missing _ = unrecorded

unfoldable pub first_open : List ℕ → Option ℕ
first_open [] = none
first_open (i ∷ rest) = some i

or_first : List ℕ → Option ℕ → Option ℕ
or_first opened (some i) = some i
or_first opened none = first_open opened

-- When the call of an index started.
start_of : ℕ → List (ℕ × String) → Option String
start_of i [] = none
start_of i ((j, ts) ∷ rest) = if j == i then some ts else start_of i rest

module _ {V : Type 0} where
  shown_result : ToolCall V → Option String → ResultView
  shown_result t (some s) = text s t.result_truncated
  shown_result t none = view_missing t.outcome

  unfoldable pub result_view : ToolCall V → ResultView
  unfolding view_missing shown_result
  result_view t = shown_result t t.result

  -- A write to the segment of an index; out of bounds it changes nothing.
  unfoldable pub modify : ℕ → (Segment V → Segment V) → List (Segment V) → List (Segment V)
  modify i f [] = []
  modify zero f (s ∷ rest) = f s ∷ rest
  modify (suc i) f (s ∷ rest) = s ∷ modify i f rest

  unfoldable pub seg_at : ℕ → List (Segment V) → Option (Segment V)
  seg_at i [] = none
  seg_at zero (s ∷ rest) = some s
  seg_at (suc i) (s ∷ rest) = seg_at i rest

  unfoldable pub say : String → Segment V → Segment V
  say chunk (out t) = out (str_append t chunk)
  say chunk s = s

  unfoldable pub think : String → Segment V → Segment V
  think chunk (thought t) = thought (str_append t chunk)
  think chunk s = s

  -- A segment that closes the open blocks.
  unfoldable pub place : Grouping V → Segment V → Grouping V
  place g s = record g { segs = g.segs ++ (s ∷ []); open_output = none; open_thinking = none }

  unfoldable pub place_output : Grouping V → String → Option ℕ → Grouping V
  place_output g chunk (some i) = record g {
    segs = modify i (say chunk) g.segs;
    open_thinking = none;
  }
  place_output g chunk none = record g {
    segs = g.segs ++ (out chunk ∷ []);
    open_output = some (length g.segs);
    open_thinking = none;
  }

  unfoldable pub place_thinking : Grouping V → String → Option ℕ → Grouping V
  place_thinking g chunk (some i) = record g {
    segs = modify i (think chunk) g.segs;
    open_output = none;
  }
  place_thinking g chunk none = record g {
    segs = g.segs ++ (thought chunk ∷ []);
    open_thinking = some (length g.segs);
    open_output = none;
  }

  unfoldable pub started : FleetEvent V → String → String → V → ToolCall V
  started e id name input = record {
    seq = e.seq;
    id = id;
    name = name;
    input = input;
    outcome = running;
    duration_ms = none;
    result = none;
    result_truncated = false;
  }

  unfoldable pub start_tool : Grouping V → FleetEvent V → String → String → V → Grouping V
  start_tool g e id name input =
      let at = length g.segs in
      record (place g (tool (started e id name input))) {
        open_tools = g.open_tools ++ (at ∷ []);
        started_at = (at, e.ts) ∷ g.started_at;
      }

  is_call : String → Option (Segment V) → Bool
  is_call id (some (tool t)) = str_eq t.id id
  is_call id _ = false

  unfoldable pub open_call : String → List (Segment V) → List ℕ → Option ℕ
  unfolding is_call
  open_call id segs [] = none
  open_call id segs (i ∷ rest) =
      if is_call id (seg_at i segs) then some i else open_call id segs rest

  -- The call that a finish belongs to: the open one of its id, or else the oldest.
  unfoldable pub call_of : String → List (Segment V) → List ℕ → Option ℕ
  unfolding or_first
  call_of id segs opened =
      if is_empty id then first_open opened else or_first opened (open_call id segs opened)

module _ {V : Type 0} (duration_ms : String → String → Option ℕ)
    (kind_label : EventKind V → String) where
  lasted : Option String → String → Option ℕ
  lasted none ts = none
  lasted (some start) ts = duration_ms start ts

  unfoldable pub complete : Bool → Option ℕ → Option String → Bool → Segment V → Segment V
  complete ok took result truncated (tool t) = tool (record t {
    outcome = if ok then succeeded else failed;
    duration_ms = took;
    result = result;
    result_truncated = truncated;
  })
  complete ok took result truncated s = s

  unfoldable pub finish_at :
      Grouping V → (ts : String) → Bool → Option String → Bool → Option ℕ → Grouping V
  unfolding lasted start_of
  finish_at g ts ok result truncated none = g
  finish_at g ts ok result truncated (some i) = record g {
    segs = modify i (complete ok (lasted (start_of i g.started_at) ts) result truncated) g.segs;
    open_tools = filter (λ (j : ℕ). not (j == i)) g.open_tools;
    started_at = filter (λ (e : ℕ × String). not (e.0 == i)) g.started_at;
  }

  unfoldable pub add_event : Grouping V → FleetEvent V → EventKind V → Grouping V
  add_event g e (output stdout chunk) = place_output g chunk g.open_output
  add_event g e (output thinking chunk) = place_thinking g chunk g.open_thinking
  add_event g e (agent_init model tools session_id) = place g (init model tools session_id)
  add_event g e (tool_started id name input) = start_tool g e id name input
  add_event g e (tool_finished id name ok result truncated) =
      finish_at g e.ts ok result truncated (call_of id g.segs g.open_tools)
  add_event g e (status_changed from to) = place g (status from to)
  add_event g e (agent_finished outcome cost_usd turns) = place g (finished outcome cost_usd turns)
  add_event g e agent_spawned = place g (other (kind_label agent_spawned))
  add_event g e agent_discovered = place g (other (kind_label agent_discovered))
  add_event g e agent_gone = place g (other (kind_label agent_gone))
  add_event g e (store_persist_failed lost_seq detail) =
      place g (other (kind_label (store_persist_failed lost_seq detail)))
  add_event g e (deadline_set deadline) = place g (other (kind_label (deadline_set deadline)))
  add_event g e (agent_timed_out deadline) = place g (other (kind_label (agent_timed_out deadline)))
  add_event g e (repo_health health) = place g (other (kind_label (repo_health health)))

  unfoldable pub add_entry : Grouping V → Entry V → Grouping V
  add_entry g (event e) = add_event g e e.kind
  add_entry g (gap n) = place g (skipped n)
  add_entry g (undecodable why) = place g (unreadable why)

  unfoldable pub group_from : Grouping V → List (Entry V) → Grouping V
  group_from g [] = g
  group_from g (entry ∷ rest) = group_from (add_entry g entry) rest

  unfoldable pub group : List (Entry V) → List (Segment V)
  group entries =
      (group_from
        (record {
          segs = [];
          open_output = none;
          open_thinking = none;
          open_tools = [];
          started_at = [];
        })
        entries).segs
