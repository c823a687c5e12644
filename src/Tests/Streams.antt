-- ===== src/Tests/Streams.antt =====
-- What clients receive, of the API and in the dashboard.
use prospero.Prelude.{◌≡◌, refl, some, List, [], ◌∷◌, arith, length, take, drop, ◌++◌, map}
use prospero.Model.Event.{FleetEvent, is_finished}
use prospero.Bus.{BusEvent}
use prospero.Store.Query.{enumerate}
use prospero.Sse.Tail.{
  Frame, gap, Schedule, Tailer, emit_and_close, on_recv, agent_stream, tail, replay_history,
}
use prospero.Sse.Tail.Order.{Ascending, agent_stream-Ascending}
use prospero.Sse.Tail.Heal.{lagged_complete, overtaken-lost, Reaches}
use prospero.Sse.Fleet.{fleet_stream, fleet_stream_exact}
use prospero.Dashboard.Session.{
  Incoming, ended, new, apply_all, rendered, resume_from, apply, push, already_rendered,
}
use prospero.Dashboard.Session.Connection.{incoming, delivered, connected_exact}
use prospero.Dashboard.Session.Invariant.{IsValid, session-IsValid}
use prospero.Tests.Data.{ev, last_ev}

-- A live event, a lag over two more, and a repetition.
abbrev items : Schedule (Unit {0})
items =
    (λ id n. [], some (BusEvent.event (ev 3)))
    ∷ (λ id n. ev 4 ∷ last_ev 5 ∷ [], some (BusEvent.lagged 2))
    ∷ (λ id n. [], some (BusEvent.event (ev 4)))
    ∷ []

agent_stream-Ascending_example : Ascending 0 (agent_stream "a" 0 (ev 1 ∷ ev 2 ∷ []) items)
agent_stream-Ascending_example =
    agent_stream-Ascending "a" 0 (ev 1 ∷ ev 2 ∷ []) items (omega arith, (omega arith, tt))

-- What that client receives.
received :
    agent_stream "a" 0 (ev 1 ∷ ev 2 ∷ []) items
    ≡ Frame.event (ev 1)
      ∷ Frame.event (ev 2)
      ∷ Frame.event (ev 3)
      ∷ gap 2 3
      ∷ Frame.event (ev 4)
      ∷ Frame.event (last_ev 5)
      ∷ []
unfolding agent_stream replay_history tail on_recv
received = refl

abbrev at_three : Tailer
at_three = record { agent_id = "a"; last_delivered = 3 }

lagged_complete_example :
    (on_recv (λ id n. ev 4 ∷ last_ev 5 ∷ ev 6 ∷ []) at_three (some (BusEvent.lagged 2))).1
    ≡ emit_and_close (gap 2 3 ∷ Frame.event (ev 4) ∷ Frame.event (last_ev 5) ∷ [])
unfolding is_finished
lagged_complete_example =
    lagged_complete (λ id n. ev 4 ∷ last_ev 5 ∷ ev 6 ∷ []) at_three 2
      (omega arith, (omega arith, (omega arith, tt)))

overtaken-lost_example : ¬ Reaches (ev 4) (
    tail at_three (
      (λ id n. [], some (BusEvent.event (ev 5)))
      ∷ (λ id n. [], some (BusEvent.event (ev 4)))
      ∷ items))
overtaken-lost_example =
    overtaken-lost at_three (ev 5) (ev 4) (λ id n. []) items refl (omega arith) (omega arith)

abbrev logs : List (List (FleetEvent (Unit {0})))
logs = (ev 1 ∷ ev 2 ∷ []) ∷ (ev 1 ∷ ev 2 ∷ ev 3 ∷ []) ∷ []

fleet_stream_exact_example :
    fleet_stream 1 logs
    ≡ enumerate 1 (take (length (fleet_stream 1 logs)) (drop 1 (ev 1 ∷ ev 2 ∷ ev 3 ∷ [])))
fleet_stream_exact_example =
    fleet_stream_exact 1 (ev 1 ∷ []) logs ((ev 2 ∷ [], refl), ((ev 3 ∷ [], refl), tt))

-- Events of three connections, with a repetition, an end and what follows it.
abbrev messages : List (Incoming (Unit {0}))
messages =
    Incoming.event (ev 1)
    ∷ ended
    ∷ Incoming.event (ev 1)
    ∷ Incoming.event (ev 2)
    ∷ ended
    ∷ ended
    ∷ Incoming.event (last_ev 3)
    ∷ []

session-IsValid_example : IsValid (apply_all (new "a") messages)
session-IsValid_example = session-IsValid "a" messages

-- The session has rendered 1 and 2, and connects anew.
connected_exact_example :
    let s = apply_all (new "a") (Incoming.event (ev 1) ∷ Incoming.event (ev 2) ∷ ended ∷ []) in
    let frames = agent_stream "a" (resume_from s) (ev 3 ∷ ev 4 ∷ []) items in
    rendered (apply_all s (map incoming frames)).entries ≡ rendered s.entries ++ delivered frames
unfolding apply_all apply push new already_rendered resume_from
connected_exact_example =
    connected_exact
      (apply_all (new "a") (Incoming.event (ev 1) ∷ Incoming.event (ev 2) ∷ ended ∷ [])) "a"
      (ev 3 ∷ ev 4 ∷ []) items (omega arith, (omega arith, tt))
