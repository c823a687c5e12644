-- ===== src/Fleet/Attach.antt =====
-- The attach stream of crates/core/src/fleet.rs: `attach_once` reads one connection to its end,
-- `attach_loop` connects again. What a read gives and when a shutdown is signalled is an argument; the
-- parser of serde_json is a parameter. `read_line` gives a line with its end, or at the end of the
-- stream what is left of one.
pub mod Replay
pub mod Ends
use prospero.Prelude.{
  ℕ, zero, suc, ◌+◌, ◌<◌, Bool, true, false, ◌||◌, Option, none, some, List, [], ◌∷◌, String, ltb,
  leb, if◌then◌else◌, is_empty, trim_end,
}
use prospero.Error.{CoreError, Result, ok, err}
use prospero.Json.{Value}
use prospero.Model.Event.{EventKind, is_finish}
use prospero.Caliband.Frames.{
  NormalizeOptions, Normalized, event, dropped, unknown, normalize_frame,
}
use prospero.Fleet.Emitter.{StoreApi, Ambient, Emitter, emit}

pub record AttachBackoff : Type 0 where
  pub base : ℕ
  pub max : ℕ
  pub max_retries : ℕ

-- In milliseconds.
abbrev pub default_backoff : AttachBackoff
default_backoff = record { base = 200; max = 10000; max_retries = 8 }

pub data StreamOutcome : Type 0 where
  finished disconnected : StreamOutcome

-- What one turn of the reading loop gets; the ambient values are those of the event it may emit.
pub data Read : Type 0 where
  line : Ambient → String → Read
  failed : CoreError → Read
  shutdown : Read

-- One try: the endpoint or the stream that could not be opened, or the reads up to the end of the
-- stream; whether a shutdown is signalled when it is over, and while the loop waits to try again.
pub record Try : Type 0 where
  pub opened : Result (List Read)
  pub stopped : Bool
  pub stopped_waiting : Bool

-- The emitter, the counter of unknown frames and the high-water mark over the stream's lines.
pub record Attach (S : Type 0) : Type 0 where
  pub emitter : Emitter S Value
  pub unknown_frames : ℕ
  pub frames_seen : ℕ

-- The reading loop's own variables beside them.
pub record Reading (S : Type 0) : Type 0 where
  pub att : Attach S
  pub idx : ℕ
  pub saw_terminal : Bool

unfoldable pub is_final : Result StreamOutcome → Bool
is_final (ok finished) = true
is_final _ = false

-- The loop's result when its budget is spent.
unfoldable pub given_up : Result StreamOutcome → Result (Unit {0})
given_up (ok outcome) = ok tt
given_up (err e) = err e

-- Whose events the stream's are. The id that caliband knows the agent by goes to the client alone.
pub record AttachTarget : Type 0 where
  pub repo : String
  pub agent_id : String

-- What an attach task is given: the store, the rendering of an error, `serde_json::from_str`, the
-- target, and the options.
pub record Setup : Type 1 where
  pub api : StoreApi Value
  pub describe : CoreError → String
  pub parse : String → Option Value
  pub target : AttachTarget
  pub normalize : NormalizeOptions
  pub backoff : AttachBackoff

module _ (setup : Setup) where
  open setup use {api, describe, parse, target, normalize, backoff}
  open api use {Store}

  emit_kind : Emitter Store Value → Ambient → EventKind Value → Emitter Store Value
  emit_kind em env kind = emit api describe em env target.repo target.agent_id kind

  -- What becomes of a normalized frame.
  unfoldable pub deliver : Reading Store → Ambient → Normalized → Reading Store
  unfolding emit_kind
  deliver r env (event kind) = record r {
    att = record r.att { emitter = emit_kind r.att.emitter env kind };
    saw_terminal = is_finish kind || r.saw_terminal;
  }
  deliver r env dropped = r
  deliver r env unknown = record r {
    att = record r.att { unknown_frames = r.att.unknown_frames + 1 };
  }

  -- A line that does not parse is skipped.
  unfoldable pub deliver_line : Reading Store → Ambient → Option Value → Reading Store
  deliver_line r env none = r
  deliver_line r env (some frame) = deliver r env (normalize_frame frame normalize)

  -- A line that is not empty: skipped when an earlier connection has processed it.
  unfoldable pub take_line : Reading Store → Ambient → String → Reading Store
  take_line r env trimmed =
      let counted = record r { idx = r.idx + 1 } in
      if leb (r.idx + 1) r.att.frames_seen
      then counted
      else deliver_line (record counted { att = record r.att { frames_seen = r.idx + 1 } }) env
          (parse trimmed)

  unfoldable pub read_line : Reading Store → Ambient → String → Reading Store
  read_line r env s =
      let trimmed = trim_end s in if is_empty trimmed then r else take_line r env trimmed

  unfoldable pub read_all : Reading Store → List Read → Attach Store × Result StreamOutcome
  read_all r [] = (r.att, ok (if r.saw_terminal then finished else disconnected))
  read_all r (failed e ∷ reads) = (r.att, err e)
  read_all r (shutdown ∷ reads) = (r.att, ok finished)
  read_all r (line env s ∷ reads) = read_all (read_line r env s) reads

  unfoldable pub attach_once :
      Attach Store → Result (List Read) → Attach Store × Result StreamOutcome
  attach_once att (err e) = (att, err e)
  attach_once att (ok reads) = read_all (record { att = att; idx = 0; saw_terminal = false }) reads

  -- The loop, over the tries that the environment will grant; nothing while it still waits for one.
  unfoldable pub attach_from :
      Attach Store → ℕ → List Try → Attach Store × Option (Result (Unit {0}))
  attach_from att attempt [] = (att, none)
  attach_from att attempt (t ∷ tries) =
      let (att', outcome) = attach_once att t.opened in
      let attempt' = if ltb att.frames_seen att'.frames_seen then 0 else attempt in
      let again = attach_from att' (attempt' + 1) tries in
      if is_final outcome || t.stopped
      then (att', some (ok tt))
      else (if leb backoff.max_retries attempt'
          then (att', some (given_up outcome))
          else (if t.stopped_waiting then (att', some (ok tt)) else again))

  unfoldable pub attach_loop :
      Emitter Store Value → ℕ → List Try → Attach Store × Option (Result (Unit {0}))
  attach_loop em unknown_frames tries =
      attach_from (record { emitter = em; unknown_frames = unknown_frames; frames_seen = 0 }) 0
        tries
