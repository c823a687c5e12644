-- ===== src/Dashboard/Session/Connection.antt =====
-- One connection of a session: `agent_stream` of crates/api/src/sse.rs at one end, `apply` of
-- crates/dashboard/src/sse.rs at the other.
use mathlib.Core.List.{append-nil, append_assoc}
use prospero.Prelude.{
  ℕ, ◌+◌, ◌-◌, ◌≡◌, refl, sym, ap, ◌∙◌, subst, false, Option, none, some, List, [], ◌∷◌, ◌++◌, map,
  String, arith, Bool-cases, inl, inr, ◌==◌,
}
use prospero.Model.Event.{FleetEvent}
use prospero.Sse.Tail.{Frame, gap, Schedule, agent_stream}
use prospero.Sse.Tail.Order.{Ascending, agent_stream-Ascending}
use prospero.Dashboard.Session.{
  StreamSession, Incoming, Entry, GapSignal, rendered, rendered-append, push, push_gap, apply,
  apply_all, resume_from, already_rendered,
}

module _ {V : Type 0} where
  -- The frame as the client reads it.
  abbrev pub incoming : Frame V → Incoming V
  incoming (Frame.event ev) = Incoming.event ev
  incoming (gap skipped last_seq) = Incoming.gap (record { skipped = skipped; last_seq = last_seq })

  abbrev pub delivered : List (Frame V) → List (FleetEvent V)
  delivered [] = []
  delivered (Frame.event ev ∷ rest) = ev ∷ delivered rest
  delivered (gap skipped last_seq ∷ rest) = delivered rest

  -- The events of the frames are above what the session has rendered.
  abbrev News : Option ℕ → List (Frame V) → Type 0
  News none frames = Ascending 0 frames
  News (some last) frames = Ascending last frames

  News-event :
      (last : Option ℕ) (ev : FleetEvent V) (rest : List (Frame V))
      → News last (Frame.event ev ∷ rest)
      → (already_rendered last ev.seq ≡ false) × Ascending ev.seq rest
  unfolding already_rendered
  News-event none ev rest h = (refl, h.1)
  News-event (some last) ev rest h = (ground (arith, h.0), h.1)

  News-gap :
      (last : Option ℕ) (skipped last_seq : ℕ) (rest : List (Frame V))
      → News last (gap skipped last_seq ∷ rest)
      → News last rest
  News-gap none skipped last_seq rest h = h
  News-gap (some last) skipped last_seq rest h = h

  push-News :
      (s : StreamSession V) (ev : FleetEvent V)
      → already_rendered s.last_seq ev.seq ≡ false
      → ((push s ev).0.last_seq ≡ some ev.seq)
        × (rendered (push s ev).0.entries ≡ rendered s.entries ++ (ev ∷ []))
  unfolding push
  push-News s ev h = rw h (refl, rendered-append s.entries (Entry.event ev ∷ []))

  push_gap-same :
      (s : StreamSession V) (signal : GapSignal)
      → ((push_gap s signal).last_seq ≡ s.last_seq)
        × (rendered (push_gap s signal).entries ≡ rendered s.entries)
  unfolding push_gap
  push_gap-same s signal = elim (Bool-cases (signal.skipped == 0)) [
    | inl e ↦ rw e (refl, refl)
    | inr e ↦ rw e (
      refl,
      rendered-append s.entries (Entry.gap signal.skipped ∷ []) ∙ append-nil (rendered s.entries),
    )
  ]

  rendered-apply_all :
      (s : StreamSession V) (last : Option ℕ) (frames : List (Frame V))
      → s.last_seq ≡ last
      → News last frames
      → rendered (apply_all s (map incoming frames)).entries
        ≡ rendered s.entries ++ delivered frames
  unfolding apply_all apply
  rendered-apply_all s last [] h k = sym (append-nil (rendered s.entries))
  rendered-apply_all s last (Frame.event ev ∷ rest) h k =
      let (fresh, above) = News-event last ev rest k in
      let (seen, added) = push-News s ev (rw h fresh) in
      rendered-apply_all (push s ev).0 (some ev.seq) rest seen above
      ∙ (ap (λ evs. evs ++ delivered rest) added
          ∙ append_assoc (rendered s.entries) (ev ∷ []) (delivered rest))
  rendered-apply_all s last (gap skipped last_seq ∷ rest) h k =
      let signal : GapSignal = record { skipped = skipped; last_seq = last_seq } in
      let (seen, same) = push_gap-same s signal in
      rendered-apply_all (push_gap s signal) last rest (seen ∙ h)
        (News-gap last skipped last_seq rest k)
      ∙ ap (λ evs. evs ++ delivered rest) same

  resumed-News :
      (s : StreamSession V) (last : Option ℕ) (frames : List (Frame V))
      → s.last_seq ≡ last
      → Ascending (resume_from s - 1) frames
      → News last frames
  unfolding resume_from
  resumed-News s none frames h a =
      subst (λ (o : Option ℕ). Ascending ((elim o [ none ↦ 0 | some l ↦ l + 1 ]) - 1) frames) h a
  resumed-News s (some last) frames h a = subst (λ n. Ascending n frames) (ground (arith, h)) a

  -- A session that connects where it resumes renders every event that the server's stream then delivers,
  -- each once and in their order, after what it had rendered: whatever the bus yields and the store
  -- answers at each self-heal, if the history that the server reads first is in the order of its
  -- numbers, from the session's floor on and without a 0.
  pub connected_exact :
      (s : StreamSession V) (id : String) (history : List (FleetEvent V)) (items : Schedule V)
      → Ascending (resume_from s - 1) (map Frame.event history)
      → let frames = agent_stream id (resume_from s) history items in
        rendered (apply_all s (map incoming frames)).entries
        ≡ rendered s.entries ++ delivered frames
  connected_exact s id history items h =
      let frames = agent_stream id (resume_from s) history items in
      rendered-apply_all s s.last_seq frames refl (
        resumed-News s s.last_seq frames refl
          (agent_stream-Ascending id (resume_from s) history items h))
