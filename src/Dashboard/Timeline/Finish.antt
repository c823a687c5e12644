-- ===== src/Dashboard/Timeline/Finish.antt =====
-- The call that a finish is given to.
use prospero.Prelude.{
  ℕ, zero, suc, ◌==◌, ◌≡◌, ◌≢◌, ap, ◌∙◌, Bool, false, not, Option, none, some, List, [], ◌∷◌,
  String, eq_iff, if◌then◌else◌, filter, arith, is_empty,
}
use prospero.Model.Event.{FleetEvent, EventKind, tool_finished}
use prospero.Dashboard.Timeline.{
  succeeded, failed, ToolCall, Segment, Grouping, tool, modify, complete, finish_at, call_of,
  add_event, seg_at, open_call, first_open,
}

closed_first :
    (i : ℕ) (later : List ℕ)
    → filter (λ (j : ℕ). not (j == i)) (i ∷ later) ≡ filter (λ (j : ℕ). not (j == i)) later
closed_first i later = ground arith

module _ {V : Type 0} where
  called_oldest :
      (id : String) (segs : List (Segment V)) (i : ℕ) (later : List ℕ)
      → is_empty id ≡ false
      → open_call id segs (i ∷ later) ≡ none
      → call_of id segs (i ∷ later) ≡ some i
  unfolding call_of first_open
  called_oldest id segs i later n no_call = rw (n, no_call)

  none_called :
      (id : String) (segs : List (Segment V)) (i : ℕ) (later : List ℕ) (t : ToolCall V)
      → open_call id segs (i ∷ later) ≡ none
      → seg_at i segs ≡ some (tool t)
      → t.id ≢ id
  unfolding open_call
  none_called id segs i later t no_call at same = ground (arith, eq_iff t.id id, at, no_call, same)

  seg_at-modify :
      (i : ℕ) (f : Segment V → Segment V) (segs : List (Segment V)) (s : Segment V)
      → seg_at i segs ≡ some s
      → seg_at i (modify i f segs) ≡ some (f s)
  unfolding seg_at modify
  seg_at-modify i f [] s at = ground arith
  seg_at-modify zero f (a ∷ rest) s at = ground arith
  seg_at-modify (suc i) f (a ∷ rest) s at = seg_at-modify i f rest s at

module _ {V : Type 0} (duration_ms : String → String → Option ℕ)
    (kind_label : EventKind V → String) where
  finish_at-ended :
      (g : Grouping V) (ts : String) (ok : Bool) (result : Option String) (truncated : Bool) (i : ℕ)
      (later : List ℕ) (t : ToolCall V)
      → g.open_tools ≡ i ∷ later
      → seg_at i g.segs ≡ some (tool t)
      → let g' = finish_at duration_ms kind_label g ts ok result truncated (some i) in
        ((took : Option ℕ) × (seg_at i g'.segs
            ≡ some (
                tool (record t {
                  outcome = if ok then succeeded else failed;
                  duration_ms = took;
                  result = result;
                  result_truncated = truncated;
                }))))
        × (g'.open_tools ≡ filter (λ (j : ℕ). not (j == i)) later)
  unfolding finish_at complete
  finish_at-ended g ts ok result truncated i later t o at = (
    (_, seg_at-modify i _ g.segs (tool t) at),
    ap (filter (λ (j : ℕ). not (j == i))) o ∙ closed_first i later,
  )

  -- A finish whose id no open call has is taken for the finish of the oldest open call, whose id is
  -- another: that call is shown as ended as the finish says, with its result, and is open no more.
  stray_finish :
      (g : Grouping V) (e : FleetEvent V) (id name : String) (ok : Bool) (result : Option String)
      (truncated : Bool) (i : ℕ) (later : List ℕ) (t : ToolCall V)
      → is_empty id ≡ false
      → g.open_tools ≡ i ∷ later
      → open_call id g.segs (i ∷ later) ≡ none
      → seg_at i g.segs ≡ some (tool t)
      → let g' = add_event duration_ms kind_label g e (tool_finished id name ok result truncated) in
        (t.id ≢ id)
        × ((took : Option ℕ) × (seg_at i g'.segs
              ≡ some (
                  tool (record t {
                    outcome = if ok then succeeded else failed;
                    duration_ms = took;
                    result = result;
                    result_truncated = truncated;
                  }))))
        × (g'.open_tools ≡ filter (λ (j : ℕ). not (j == i)) later)
  unfolding add_event
  stray_finish g e id name ok result truncated i later t n o no_call at =
      let called : call_of id g.segs g.open_tools ≡ some i =
        ap (call_of id g.segs) o ∙ called_oldest id g.segs i later n no_call in
      let ended = finish_at-ended g e.ts ok result truncated i later t o at in
      (none_called id g.segs i later t no_call at, rw called ended.0, rw called ended.1)
