-- ===== src/Dashboard/Timeline/Rows.antt =====
-- The rows of a timeline.
use mathlib.Core.List.{append_assoc, append-nil}
use prospero.Prelude.{
  ℕ, zero, suc, ◌≡◌, refl, sym, ap, ◌∙◌, Bool, false, Option, none, some, List, [], ◌∷◌, ◌++◌,
  String, arith,
}
use prospero.Model.Event.{
  FleetEvent, EventKind, stdout, thinking, agent_spawned, agent_discovered, agent_init,
  status_changed, output, tool_started, tool_finished, agent_finished, agent_gone,
  store_persist_failed, deadline_set, agent_timed_out, repo_health,
}
use prospero.Dashboard.Session.{Entry, event, gap, undecodable}
use prospero.Dashboard.Timeline.{
  running, ToolCall, Segment, Grouping, out, thought, tool, init, status, finished, skipped,
  unreadable, other, modify, say, think, place, place_output, place_thinking, start_tool, complete,
  finish_at, call_of, add_event, add_entry, group_from, group, started, seg_at,
}

module _ {V : Type 0} where
  -- A call as it was when it started.
  abbrev pub reset : ToolCall V → ToolCall V
  reset t = record t {
    outcome = running;
    duration_ms = none;
    result = none;
    result_truncated = false;
  }

  -- The row of a segment, for all but the blocks of text.
  abbrev pub row : Segment V → List (Segment V)
  row (out t) = []
  row (thought t) = []
  row (tool t) = tool (reset t) ∷ []
  row s = s ∷ []

  abbrev pub rows : List (Segment V) → List (Segment V)
  rows [] = []
  rows (s ∷ rest) = row s ++ rows rest

  rows-append :
      (front : List (Segment V)) (s : Segment V) → rows (front ++ (s ∷ [])) ≡ rows front ++ row s
  rows-append [] s = append-nil (row s)
  rows-append (a ∷ rest) s =
      ap (◌++◌ (row a)) (rows-append rest s) ∙ sym (append_assoc (row a) (rows rest) (row s))

  rows-modify :
      (i : ℕ) (f : Segment V → Segment V) (segs : List (Segment V))
      → ((s : Segment V) → row (f s) ≡ row s)
      → rows (modify i f segs) ≡ rows segs
  unfolding modify
  rows-modify i f [] h = refl
  rows-modify zero f (s ∷ rest) h = ap (λ r. r ++ rows rest) (h s)
  rows-modify (suc i) f (s ∷ rest) h = ap (◌++◌ (row s)) (rows-modify i f rest h)

  seg_at-modify :
      (i : ℕ) (f : Segment V → Segment V) (segs : List (Segment V)) (s : Segment V)
      → seg_at i segs ≡ some s
      → seg_at i (modify i f segs) ≡ some (f s)
  unfolding modify seg_at
  seg_at-modify i f [] s h = absurd (ground (arith, h))
  seg_at-modify zero f (x ∷ rest) s h = ground (arith, h)
  seg_at-modify (suc i) f (x ∷ rest) s h = seg_at-modify i f rest s h

module _ {V : Type 0} (duration_ms : String → String → Option ℕ)
    (kind_label : EventKind V → String) where
  -- The row that an entry makes: none for text and for the finish of a call.
  abbrev pub row_of_event : FleetEvent V → EventKind V → List (Segment V)
  row_of_event e (output stream c) = []
  row_of_event e (tool_finished id name ok result truncated) = []
  row_of_event e (agent_init model tools session_id) = init model tools session_id ∷ []
  row_of_event e (tool_started id name input) =
      tool (record {
        seq = e.seq;
        id = id;
        name = name;
        input = input;
        outcome = running;
        duration_ms = none;
        result = none;
        result_truncated = false;
      })
      ∷ []
  row_of_event e (status_changed from to) = status from to ∷ []
  row_of_event e (agent_finished outcome cost_usd turns) = finished outcome cost_usd turns ∷ []
  row_of_event e k = other (kind_label k) ∷ []

  abbrev pub row_of : Entry V → List (Segment V)
  row_of (event e) = row_of_event e e.kind
  row_of (gap n) = skipped n ∷ []
  row_of (undecodable why) = unreadable why ∷ []

  abbrev pub rows_of : List (Entry V) → List (Segment V)
  rows_of [] = []
  rows_of (entry ∷ rest) = row_of entry ++ rows_of rest

  place-rows : (g : Grouping V) (s : Segment V) → rows (place g s).segs ≡ rows g.segs ++ row s
  unfolding place
  place-rows g s = rows-append g.segs s

  row-say : (c : String) (s : Segment V) → row (say c s) ≡ row s
  unfolding say
  row-say c (out t) = refl
  row-say c (init a b d) = refl
  row-say c (thought t) = refl
  row-say c (tool t) = refl
  row-say c (status a b) = refl
  row-say c (finished a b d) = refl
  row-say c (skipped n) = refl
  row-say c (unreadable w) = refl
  row-say c (other l) = refl

  row-think : (c : String) (s : Segment V) → row (think c s) ≡ row s
  unfolding think
  row-think c (thought t) = refl
  row-think c (init a b d) = refl
  row-think c (out t) = refl
  row-think c (tool t) = refl
  row-think c (status a b) = refl
  row-think c (finished a b d) = refl
  row-think c (skipped n) = refl
  row-think c (unreadable w) = refl
  row-think c (other l) = refl

  row-complete :
      (ok : Bool) (took : Option ℕ) (result : Option String) (truncated : Bool) (s : Segment V)
      → row (complete duration_ms kind_label ok took result truncated s) ≡ row s
  unfolding complete
  row-complete ok took result truncated (tool t) = refl
  row-complete ok took result truncated (init a b d) = refl
  row-complete ok took result truncated (out t) = refl
  row-complete ok took result truncated (thought t) = refl
  row-complete ok took result truncated (status a b) = refl
  row-complete ok took result truncated (finished a b d) = refl
  row-complete ok took result truncated (skipped n) = refl
  row-complete ok took result truncated (unreadable w) = refl
  row-complete ok took result truncated (other l) = refl

  output-rows :
      (g : Grouping V) (c : String) (o : Option ℕ)
      → rows (place_output g c o).segs ≡ rows g.segs ++ []
  unfolding place_output
  output-rows g c none = rows-append g.segs (out c)
  output-rows g c (some i) =
      rows-modify i (say c) g.segs (row-say c) ∙ sym (append-nil (rows g.segs))

  thinking-rows :
      (g : Grouping V) (c : String) (o : Option ℕ)
      → rows (place_thinking g c o).segs ≡ rows g.segs ++ []
  unfolding place_thinking
  thinking-rows g c none = rows-append g.segs (thought c)
  thinking-rows g c (some i) =
      rows-modify i (think c) g.segs (row-think c) ∙ sym (append-nil (rows g.segs))

  finish_at-rows :
      (g : Grouping V) (ts : String) (ok : Bool) (result : Option String) (truncated : Bool)
      (o : Option ℕ)
      → rows (finish_at duration_ms kind_label g ts ok result truncated o).segs ≡ rows g.segs ++ []
  unfolding finish_at
  finish_at-rows g ts ok result truncated none = sym (append-nil (rows g.segs))
  finish_at-rows g ts ok result truncated (some i) =
      rows-modify i _ g.segs (row-complete ok _ result truncated) ∙ sym (append-nil (rows g.segs))

  add_event-rows :
      (g : Grouping V) (e : FleetEvent V) (k : EventKind V)
      → rows (add_event duration_ms kind_label g e k).segs ≡ rows g.segs ++ row_of_event e k
  unfolding add_event start_tool started
  add_event-rows g e (output stdout c) = output-rows g c g.open_output
  add_event-rows g e (output thinking c) = thinking-rows g c g.open_thinking
  add_event-rows g e (tool_finished id name ok result truncated) =
      finish_at-rows g e.ts ok result truncated (call_of id g.segs g.open_tools)
  add_event-rows g e (tool_started id name input) = place-rows g (tool (started e id name input))
  add_event-rows g e (agent_init model tools session_id) =
      place-rows g (init model tools session_id)
  add_event-rows g e (status_changed from to) = place-rows g (status from to)
  add_event-rows g e (agent_finished outcome cost_usd turns) =
      place-rows g (finished outcome cost_usd turns)
  add_event-rows g e agent_spawned = place-rows g (other (kind_label agent_spawned))
  add_event-rows g e agent_discovered = place-rows g (other (kind_label agent_discovered))
  add_event-rows g e agent_gone = place-rows g (other (kind_label agent_gone))
  add_event-rows g e (store_persist_failed lost_seq detail) =
      place-rows g (other (kind_label (store_persist_failed lost_seq detail)))
  add_event-rows g e (deadline_set deadline) =
      place-rows g (other (kind_label (deadline_set deadline)))
  add_event-rows g e (agent_timed_out deadline) =
      place-rows g (other (kind_label (agent_timed_out deadline)))
  add_event-rows g e (repo_health health) = place-rows g (other (kind_label (repo_health health)))

  add_entry-rows :
      (g : Grouping V) (entry : Entry V)
      → rows (add_entry duration_ms kind_label g entry).segs ≡ rows g.segs ++ row_of entry
  unfolding add_entry place
  add_entry-rows g (event e) = add_event-rows g e e.kind
  add_entry-rows g (gap n) = rows-append g.segs (skipped n)
  add_entry-rows g (undecodable why) = rows-append g.segs (unreadable why)

  group_from-rows :
      (g : Grouping V) (entries : List (Entry V))
      → rows (group_from duration_ms kind_label g entries).segs ≡ rows g.segs ++ rows_of entries
  unfolding group_from
  group_from-rows g [] = sym (append-nil (rows g.segs))
  group_from-rows g (entry ∷ rest) =
      group_from-rows (add_entry duration_ms kind_label g entry) rest
      ∙ ap (λ r. r ++ rows_of rest) (add_entry-rows g entry)
      ∙ append_assoc (rows g.segs) (row_of entry) (rows_of rest)

  -- Apart from the blocks of text a timeline has one row for each entry that is neither text nor the
  -- finish of a call, in the order of the entries, with what the entry says: a finish adds no row and
  -- changes of a call only how it ended.
  pub group_rows :
      (entries : List (Entry V)) → rows (group duration_ms kind_label entries) ≡ rows_of entries
  unfolding group
  group_rows entries = group_from-rows _ entries
