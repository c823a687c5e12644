-- ===== src/Fleet/Attach/Replay.antt =====
-- What an attach task emits: caliband replays the stream from its start on every connection, and the
-- high-water mark leaves each line to one connection.
use prospero.Prelude.{
  ℕ, zero, suc, ◌+◌, ◌-◌, ◌≤◌, max, ◌≡◌, refl, sym, ap, ◌∙◌, subst, Bool, true, false, Option, none,
  some, List, [], ◌∷◌, ◌++◌, String, arith, ltb, leb, if◌then◌else◌, is_empty, trim_end, length,
  take, drop, All, length-append, ◌||◌, if_lem, drop_all,
}
use mathlib.Core.List.{append_assoc, append-nil}
use prospero.Error.{Result, ok, err}
use prospero.Json.{Value}
use prospero.Model.Event.{EventKind}
use prospero.Caliband.Frames.{Normalized, event, dropped, unknown, normalize_frame}
use prospero.Fleet.Emitter.{Ambient, Emitter, emit}
use prospero.Fleet.Attach.{
  Attach, Reading, Setup, Try, Read, line, failed, shutdown, deliver, deliver_line, take_line,
  read_line, read_all, attach_once, attach_from, attach_loop, is_final,
}

-- The lines of a connection: trimmed, and without the empty ones.
abbrev pub lines : List Read → List String
lines [] = []
lines (failed e ∷ reads) = []
lines (shutdown ∷ reads) = []
lines (line env s ∷ reads) = if is_empty (trim_end s) then lines reads else trim_end s ∷ lines reads

-- What a connection delivers is a prefix of the stream, each of its lines whole.
abbrev pub IsReplay : List String → Result (List Read) → Type 0
IsReplay stream (err e) = Unit
IsReplay stream (ok reads) = (rest : List String) × (lines reads ++ rest ≡ stream)

abbrev pub event_of : Normalized → List (EventKind Value)
event_of (event kind) = kind ∷ []
event_of _ = []

take_max {ℓ} :
    {A : Type ℓ} (n : ℕ) (xs ys : List A)
    → take n (xs ++ ys) ++ drop n xs ≡ take (max n (length xs)) (xs ++ ys)
take_max zero [] ys = refl
take_max zero (x ∷ xs) ys =
    let e : max 0 (suc (length xs)) ≡ suc (max 0 (length xs)) = omega arith in
    rw e (ap (◌∷◌ x) (take_max zero xs ys))
take_max (suc n) [] ys = let e : max (suc n) 0 ≡ suc n = omega arith in rw (append-nil, e) refl
take_max (suc n) (x ∷ xs) ys =
    let e : max (suc n) (suc (length xs)) ≡ suc (max n (length xs)) = omega arith in
    rw e (ap (◌∷◌ x) (take_max n xs ys))

module _ (setup : Setup) where
  open setup use {api, describe, parse, target, normalize}
  open api use {Store}

  -- The events that a line stands for: one or none.
  abbrev pub event_of_parsed : Option Value → List (EventKind Value)
  event_of_parsed none = []
  event_of_parsed (some frame) = event_of (normalize_frame frame normalize)

  abbrev pub events_of : List String → List (EventKind Value)
  events_of [] = []
  events_of (s ∷ ss) = event_of_parsed (parse s) ++ events_of ss

  -- The second emitter is the first after it has emitted these events, one after the other.
  abbrev pub Emits : Emitter Store Value → List (EventKind Value) → Emitter Store Value → Type 0
  Emits em [] em' = em' ≡ em
  Emits em (kind ∷ kinds) em' =
      (env : Ambient) × Emits (emit api describe em env target.repo target.agent_id kind) kinds em'

  Emits-append :
      (ks ls : List (EventKind Value)) (em em' em'' : Emitter Store Value)
      → Emits em ks em'
      → Emits em' ls em''
      → Emits em (ks ++ ls) em''
  Emits-append [] ls em em' em'' h k = subst (λ e. Emits e ls em'') h k
  Emits-append (kind ∷ ks) ls em em' em'' (env, h) k = (env, Emits-append ks ls _ em' em'' h k)

  events_of-append : (ss ts : List String) → events_of (ss ++ ts) ≡ events_of ss ++ events_of ts
  events_of-append [] ts = refl
  events_of-append (s ∷ ss) ts =
      ap (◌++◌ (event_of_parsed (parse s))) (events_of-append ss ts)
      ∙ sym (append_assoc (event_of_parsed (parse s)) (events_of ss) (events_of ts))

  deliver-Emits :
      (r : Reading Store) (env : Ambient) (n : Normalized)
      → Emits r.att.emitter (event_of n) (deliver setup r env n).att.emitter
        × ((deliver setup r env n).idx ≡ r.idx)
        × ((deliver setup r env n).att.frames_seen ≡ r.att.frames_seen)
  unfolding deliver
  deliver-Emits r env (event kind) = ((env, refl), refl, refl)
  deliver-Emits r env dropped = (refl, refl, refl)
  deliver-Emits r env unknown = (refl, refl, refl)

  deliver_line-Emits :
      (r : Reading Store) (env : Ambient) (o : Option Value)
      → Emits r.att.emitter (event_of_parsed o) (deliver_line setup r env o).att.emitter
        × ((deliver_line setup r env o).idx ≡ r.idx)
        × ((deliver_line setup r env o).att.frames_seen ≡ r.att.frames_seen)
  unfolding deliver_line
  deliver_line-Emits r env none = (refl, refl, refl)
  deliver_line-Emits r env (some frame) = deliver-Emits r env (normalize_frame frame normalize)

  -- From a mark and a line count, what is read on gives the state that has passed these lines.
  abbrev pub Resumes : (seen idx : ℕ) → Emitter Store Value → List String → Attach Store → Type 0
  Resumes seen idx em ls att =
      (att.frames_seen ≡ max seen (idx + length ls))
      × Emits em (events_of (drop (seen - idx) ls)) att.emitter

  Resumes-end :
      (seen idx : ℕ) (att : Attach Store)
      → idx ≤ seen
      → att.frames_seen ≡ seen
      → Resumes seen idx att.emitter [] att
  Resumes-end seen idx att h k =
      (omega arith, rw (drop_all {A = String} (seen - idx) [] (omega arith)) refl)

  Resumes-skip :
      (seen idx idx' : ℕ) (em : Emitter Store Value) (s : String) (ls : List String)
      (att : Attach Store)
      → idx' ≡ idx + 1
      → idx' ≤ seen
      → Resumes seen idx' em ls att
      → Resumes seen idx em (s ∷ ls) att
  Resumes-skip seen idx idx' em s ls att i h (k, e) =
      let d : seen - idx ≡ suc (seen - idx') = omega arith in (omega arith, rw d e)

  Resumes-take :
      (seen idx seen' idx' : ℕ) (em em' : Emitter Store Value) (s : String) (ls : List String)
      (att : Attach Store)
      → seen ≡ idx
      → seen' ≡ idx + 1
      → idx' ≡ idx + 1
      → Emits em (event_of_parsed (parse s)) em'
      → Resumes seen' idx' em' ls att
      → Resumes seen idx em (s ∷ ls) att
  Resumes-take seen idx seen' idx' em em' s ls att a b c h (k, e) =
      let z : seen - idx ≡ 0 = omega arith in
      let z' : seen' - idx' ≡ 0 = omega arith in
      let e' : Emits em' (events_of ls) att.emitter =
        subst (λ n. Emits em' (events_of (drop n ls)) att.emitter) z' e in
      (
        omega arith,
        rw z (Emits-append (event_of_parsed (parse s)) (events_of ls) em em' att.emitter h e'),
      )

  -- A reading whose count has not passed its mark, as it is between two lines.
  abbrev IsBetween : Reading Store → Type 0
  IsBetween r = r.idx ≤ r.att.frames_seen

  -- The step from `r` to `r'` passes `added` at the head of what is read on.
  abbrev Passes : Reading Store → Reading Store → List String → Type 0
  Passes r r' added =
      IsBetween r'
      × ((ls : List String) (att : Attach Store)
          → Resumes r'.att.frames_seen r'.idx r'.att.emitter ls att
          → Resumes r.att.frames_seen r.idx r.att.emitter (added ++ ls) att)

  take_line_skips :
      (r : Reading Store) (env : Ambient) (s : String)
      → leb (r.idx + 1) r.att.frames_seen ≡ true
      → take_line setup r env s ≡ record r { idx = r.idx + 1 }
  unfolding take_line
  take_line_skips r env s e = rw e refl

  -- The reading that a line is delivered in.
  abbrev marked : Reading Store → Reading Store
  marked r = record r { idx = r.idx + 1; att = record r.att { frames_seen = r.idx + 1 } }

  take_line_takes :
      (r : Reading Store) (env : Ambient) (s : String)
      → leb (r.idx + 1) r.att.frames_seen ≡ false
      → take_line setup r env s ≡ deliver_line setup (marked r) env (parse s)
  unfolding take_line
  take_line_takes r env s e = rw e refl

  take_line-Passes :
      (r : Reading Store) (env : Ambient) (s : String) (b : Bool)
      → leb (r.idx + 1) r.att.frames_seen ≡ b
      → IsBetween r
      → Passes r (take_line setup r env s) (s ∷ [])
  take_line-Passes r env s true e h =
      let skipped : take_line setup r env s ≡ record r { idx = r.idx + 1 } =
        take_line_skips r env s e in
      subst (λ r'. Passes r r' (s ∷ [])) (sym skipped)
        (
          ground (arith, e),
          λ ls att.
              Resumes-skip r.att.frames_seen r.idx (r.idx + 1) r.att.emitter s ls att refl
                (ground (arith, e)),
        )
  take_line-Passes r env s false e h =
      let r' = deliver_line setup (marked r) env (parse s) in
      let (em, i, f) = deliver_line-Emits (marked r) env (parse s) in
      subst (λ r'. Passes r r' (s ∷ [])) (sym (take_line_takes r env s e))
        (
          omega (arith, i, f),
          λ ls att.
              Resumes-take r.att.frames_seen r.idx r'.att.frames_seen r'.idx r.att.emitter
                r'.att.emitter s ls att (ground (arith, e)) f i em,
        )

  -- What a text adds to the lines.
  abbrev line_of : Bool → String → List String
  line_of blank s = if blank then [] else s ∷ []

  read_line-Passes :
      (r : Reading Store) (env : Ambient) (s : String) (b : Bool)
      → is_empty (trim_end s) ≡ b
      → IsBetween r
      → Passes r (read_line setup r env s) (line_of b (trim_end s))
  unfolding read_line
  read_line-Passes r env s true e h = rw e (h, λ ls att k. k)
  read_line-Passes r env s false e h =
      rw e (take_line-Passes r env (trim_end s) (leb (r.idx + 1) r.att.frames_seen) refl h)

  lines_line :
      (env : Ambient) (s : String) (reads : List Read) (b : Bool)
      → is_empty (trim_end s) ≡ b
      → lines (line env s ∷ reads) ≡ line_of b (trim_end s) ++ lines reads
  lines_line env s reads true e = rw e refl
  lines_line env s reads false e = rw e refl

  read_all-Resumes :
      (reads : List Read) (r : Reading Store)
      → IsBetween r
      → Resumes r.att.frames_seen r.idx r.att.emitter (lines reads) (read_all setup r reads).0
  unfolding read_all
  read_all-Resumes [] r h = Resumes-end r.att.frames_seen r.idx r.att h refl
  read_all-Resumes (failed e ∷ reads) r h = Resumes-end r.att.frames_seen r.idx r.att h refl
  read_all-Resumes (shutdown ∷ reads) r h = Resumes-end r.att.frames_seen r.idx r.att h refl
  read_all-Resumes (line env s ∷ reads) r h =
      let r' = read_line setup r env s in
      let b = is_empty (trim_end s) in
      let (h', pass) = read_line-Passes r env s b refl h in
      let att = (read_all setup r' reads).0 in
      subst (λ ls. Resumes r.att.frames_seen r.idx r.att.emitter ls att)
        (sym (lines_line env s reads b refl))
        (pass (lines reads) att (read_all-Resumes reads r' h'))

  -- One connection, whatever it reads and however it ends, moves the mark to the number of lines it
  -- read if that is further, and emits exactly the events of the lines between, in their order.
  pub attach_once_resumes :
      (att : Attach Store) (reads : List Read)
      → let att' = (attach_once setup att (ok reads)).0 in
        (att'.frames_seen ≡ max att.frames_seen (length (lines reads)))
        × Emits att.emitter (events_of (drop att.frames_seen (lines reads))) att'.emitter
  unfolding attach_once
  attach_once_resumes att reads =
      let (k, e) =
        read_all-Resumes reads (record { att = att; idx = 0; saw_terminal = false })
          (omega arith) in
      let z : att.frames_seen - 0 ≡ att.frames_seen = omega arith in
      let att' = (attach_once setup att (ok reads)).0 in
      (
        omega (arith, k),
        subst (λ n. Emits att.emitter (events_of (drop n (lines reads))) att'.emitter) z e,
      )

  -- What a task has done of a stream: emitted the events of its first `frames_seen` lines.
  abbrev pub Delivered : Emitter Store Value → List String → Attach Store → Type 0
  Delivered em stream att =
      (att.frames_seen ≤ length stream)
      × Emits em (events_of (take att.frames_seen stream)) att.emitter

  attach_once-Delivered :
      (em : Emitter Store Value) (stream : List String) (att : Attach Store)
      (opened : Result (List Read))
      → IsReplay stream opened
      → Delivered em stream att
      → Delivered em stream (attach_once setup att opened).0
  unfolding attach_once
  attach_once-Delivered em stream att (err e) h d = d
  attach_once-Delivered em stream att (ok reads) (rest, h) (d, e) =
      let (k, e') = attach_once_resumes att reads in
      let att' = (attach_once setup att (ok reads)).0 in
      let n = att.frames_seen in
      let ls = lines reads in
      let whole : events_of (take n stream) ++ events_of (drop n ls)
          ≡ events_of (take att'.frames_seen stream) =
        sym (events_of-append (take n stream) (drop n ls))
        ∙ ap events_of
            (subst (λ s. take n s ++ drop n ls ≡ take (max n (length ls)) s) h (take_max n ls rest))
        ∙ ap (λ m. events_of (take m stream)) (sym k) in
      (
        omega (arith, k, d, length-append ls rest, ap length h),
        subst (λ ks. Emits em ks att'.emitter) whole
            (Emits-append (events_of (take n stream)) (events_of (drop n ls)) em att.emitter
              att'.emitter e e'),
      )

  attach_from-Delivered :
      (em : Emitter Store Value) (stream : List String) (tries : List Try) (att : Attach Store)
      (attempt : ℕ)
      → All (λ t. IsReplay stream t.opened) tries
      → Delivered em stream att
      → Delivered em stream (attach_from setup att attempt tries).0
  unfolding attach_from
  attach_from-Delivered em stream [] att attempt h d = d
  attach_from-Delivered em stream (t ∷ tries) att attempt (h, hs) d =
      let (att', outcome) = attach_once setup att t.opened in
      let d' = attach_once-Delivered em stream att t.opened h d in
      let attempt' = if ltb att.frames_seen att'.frames_seen then 0 else attempt in
      let P = λ (p : Attach Store × Option (Result (Unit {0}))). Delivered em stream p.0 in
      if_lem P (is_final outcome || t.stopped) d' (
        if_lem P (leb setup.backoff.max_retries attempt') d' (
          if_lem P t.stopped_waiting d'
            (attach_from-Delivered em stream tries att' (attempt' + 1) hs d')))

  -- However often the connection is refused, breaks off or fails, and wherever a shutdown comes: if
  -- every connection delivers whole lines of the same stream from its start, then the task has
  -- emitted the events of the first `frames_seen` lines, each once and in order.
  pub attach_loop-Delivered :
      (em : Emitter Store Value) (unknown_frames : ℕ) (stream : List String) (tries : List Try)
      → All (λ t. IsReplay stream t.opened) tries
      → Delivered em stream (attach_loop setup em unknown_frames tries).0
  unfolding attach_loop
  attach_loop-Delivered em unknown_frames stream tries h =
      attach_from-Delivered em stream tries _ 0 h (omega arith, refl)
