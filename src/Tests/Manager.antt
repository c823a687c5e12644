-- ===== src/Tests/Manager.antt =====
-- The fleet manager and its attach tasks.
use prospero.Deadline.{deadline_at, deadline_from, later_by}
use prospero.Prelude.{
  if◌then◌else◌, str_eq, arith, trim_end, ℕ, ◌≡◌, refl, Bool, true, false, Option, none, some, List,
  [], ◌∷◌, ◌++◌, map, String, get, All,
}
use prospero.Error.{Result, ok, err, io}
use prospero.Json.{Value, text, object, end, member}
use prospero.Model.{healthy}
use prospero.Model.Event.{FleetEvent, EventKind}
use prospero.Store.Sqlite.{SqliteStore}
use prospero.Caliband.Wire.{AgentRecord, WireAgentStatus, WirePermissionPosture}
use prospero.Provider.{RepoProviderConfig}
use prospero.Fleet.Emitter.{Ambient, Emitter}
use prospero.Fleet.Emitter.Recovery.{sqlite_api}
use prospero.Fleet.Attach.{
  Setup, Try, line, failed, default_backoff, attach_once, attach_loop, attach_from, deliver_line,
  is_final, read_all, read_line, take_line,
}
use prospero.Fleet.Attach.Replay.{IsReplay, Delivered, attach_loop-Delivered}
use prospero.Fleet.Attach.Ends.{IsOver, attach_loop_ends}
use prospero.Fleet.Manager.{
  Workspace, FleetSnapshot, find_agent, find_in, found_in, Manager, contains, find_workspace, emit,
}
use prospero.Fleet.Reconcile.{agent_from, statuses, workspace_agents, emit_diff}
use prospero.Fleet.Reconcile.Diff.{kinds_for, news, status_of, emit_diff_exact}
use prospero.Fleet.Changes.{found_within}
use prospero.Fleet.Changes.Follows.{follow, poll_followed}
use prospero.Fleet.Poll.{reconcile, start_attach}
use prospero.Fleet.Control.{SpawnEnv, spawned, spawned_by, note_deadline}
use prospero.Fleet.Control.Spawned.{IsFound, spawned-IsFound}

abbrev env : Ambient
env = record { now = "2026-01-02T00:00:00Z"; actor = none; subject = none }

abbrev empty : Emitter (SqliteStore Value) Value
empty = record {
  store = record { rows = []; last_ordinal = 0 };
  seqs = [];
  published = [];
  events_appended = 0;
  append_failures = 0;
}

-- Every line is read as a piece of output.
abbrev parse_delta : String → Option Value
parse_delta s =
    some (object (member "type" (text "AssistantTextDelta") (member "text" (text s) end)))

abbrev setup : Setup
setup = record {
  api = sqlite_api;
  describe = λ e. "failed";
  parse = parse_delta;
  target = record { repo = "w"; agent_id = "a" };
  normalize = record { include_thinking = false };
  backoff = default_backoff;
}

abbrev stream : List String
stream = "one" ∷ "two" ∷ []

-- A connection that breaks off after a line, two that are refused, and one that reads the whole stream.
abbrev tries : List Try
tries =
    record {
      opened = ok (line env "one" ∷ failed (io "reset") ∷ []);
      stopped = false;
      stopped_waiting = false;
    }
    ∷ record { opened = err (io "refused"); stopped = false; stopped_waiting = false }
    ∷ record { opened = err (io "refused"); stopped = false; stopped_waiting = false }
    ∷ record {
      opened = ok (line env "one" ∷ line env "two" ∷ []);
      stopped = false;
      stopped_waiting = true;
    }
    ∷ []

tries-IsReplay : All (λ (t : Try). IsReplay stream t.opened) tries
unfolding trim_end
tries-IsReplay = (("two" ∷ [], refl), (tt, (tt, (([], refl), tt))))

attach_loop-Delivered_example : Delivered setup empty stream (attach_loop setup empty 0 tries).0
attach_loop-Delivered_example = attach_loop-Delivered setup empty 0 stream tries tries-IsReplay

abbrev impatient : Setup
impatient = record setup { backoff = record default_backoff { max_retries = 1 } }

attach_loop_ends_example : IsOver (attach_loop impatient empty 0 tries).1
attach_loop_ends_example =
    attach_loop_ends impatient stream empty 0 tries tries-IsReplay (omega arith)

abbrev caliband_agent : String → WireAgentStatus → AgentRecord
caliband_agent id status = record {
  id = id;
  name = id;
  status = status;
  started_at = "2026-01-01T00:00:00Z";
  session_dir = "/s";
  isolation_worktree = true;
  interactive = false;
  permission_posture = WirePermissionPosture.supervised;
}

-- The agent `a` runs, and the snapshot knows of an agent `b` that is no longer listed.
abbrev records : List AgentRecord
records =
    caliband_agent "a" WireAgentStatus.running ∷ caliband_agent "c" WireAgentStatus.drained ∷ []

abbrev openai : RepoProviderConfig
openai = record { provider = some "openai"; base_url = none; api_key_from_env = none; env = [] }

abbrev workspace : Workspace RepoProviderConfig
workspace = record {
  name = "w";
  root = "/w";
  sources = [];
  health = healthy;
  config = openai;
  agents =
      agent_from "w" (caliband_agent "a" WireAgentStatus.idle)
      ∷ agent_from "w" (caliband_agent "b" WireAgentStatus.running)
      ∷ [];
}

abbrev manager : Manager Value RepoProviderConfig
manager = record {
  registry = record { name = "w"; root = "/w"; config = openai } ∷ [];
  snapshot = record { host = "h"; workspaces = workspace ∷ [] };
  clients = [];
  attached = [];
  recent_spawns = [];
  deadlines = [];
  emitted = [];
}

emit_diff_exact_example :
    kinds_for "a" (emit_diff manager "w" true records).emitted
    ≡ []
      ++ news true false
          (get "a" (statuses (workspace_agents manager "w") []))
          (status_of "a" records)
unfolding contains
emit_diff_exact_example = emit_diff_exact "w" true manager records "a" (refl, (refl, tt))

-- The snapshot that the poll leaves.
abbrev polled : List (FleetSnapshot RepoProviderConfig)
polled =
    record {
      host = "h";
      workspaces = record workspace { agents = map (agent_from "w") records } ∷ [];
    }
    ∷ []

poll_followed_example :
    (ks : List (EventKind Value)) × (kinds_for "a" (emit_diff manager "w" true records).emitted
      ≡ [] ++ ks)
    × (follow polled "w" "a" ks (get "a" (statuses (workspace_agents manager "w") []))
        ≡ status_of "a" records)
unfolding contains found_within find_agent find_in found_in agent_from
poll_followed_example =
    poll_followed polled "w" "a" manager records (refl, (refl, tt)) (λ e. refl) refl

abbrev no_history : String → Result (List (FleetEvent Value))
no_history key = ok []

abbrev no_deadline : String → Option ℕ
no_deadline raw = none

abbrev alone : String → Bool
alone key = true

abbrev kill : String → Result (Unit {0})
kill id = ok tt

abbrev spawn_env : SpawnEnv
spawn_env = record {
  default_env = ("OPENAI_API_KEY", "k") ∷ [];
  process_env = λ name. none;
  explain = λ why. "misconfigured";
  client = ok tt;
  spawn = λ spec. ok "d";
  now = 7;
  latest = 1000000;
  render = λ at. "then";
  acquires = alone;
}

spawned-IsFound_example :
    let m' = (spawned manager spawn_env "w" (some 60) (ok "d")).0 in
    IsFound m' "d" × IsFound (reconcile m' "w" true alone no_deadline 7 no_history kill records) "d"
unfolding spawned spawned_by find_workspace start_attach contains note_deadline deadline_from
    deadline_at later_by emit
spawned-IsFound_example =
    spawned-IsFound manager spawn_env "w" "d" "w" (some 60) no_deadline 7 no_history kill true
      records workspace refl

-- A line that a connection delivers in part does not parse, and the whole of it is then skipped.
abbrev parse_whole : String → Option Value
parse_whole s = if str_eq s "tw" then none else parse_delta s

abbrev cut_tries : List Try
cut_tries =
    record { opened = ok (line env "tw" ∷ []); stopped = false; stopped_waiting = false }
    ∷ record { opened = ok (line env "two" ∷ []); stopped = false; stopped_waiting = true }
    ∷ []

cut_line_lost :
    (attach_loop (record setup { parse = parse_whole }) empty 0 cut_tries).0.emitter.events_appended
    ≡ 0
unfolding attach_loop attach_from is_final attach_once read_all read_line trim_end take_line
    deliver_line
cut_line_lost = refl
