-- ===== src/Dashboard/Timeline/Text.antt =====
-- What a timeline says: the text of its blocks.
use Prim.Native.String.append
use Prim.Native.String.{◌++◌ as str_append}
use text.Mathlib.TextLemmas.{append_assoc as text_assoc, append-nil as text_nil}
use prospero.Prelude.{
  ℕ, zero, suc, ◌≡◌, refl, sym, ap, ◌∙◌, subst, Bool, Option, none, some, List, [], ◌∷◌, ◌++◌,
  String, length,
}
use prospero.Model.Event.{
  FleetEvent, EventKind, OutputStream, stdout, thinking, agent_spawned, agent_discovered,
  agent_init, status_changed, output, tool_started, tool_finished, agent_finished, agent_gone,
  store_persist_failed, deadline_set, agent_timed_out, repo_health,
}
use prospero.Dashboard.Session.{Entry, event, gap, undecodable}
use prospero.Dashboard.Timeline.{
  Segment, Grouping, out, thought, tool, init, status, finished, skipped, unreadable, other, modify,
  say, think, place, place_output, place_thinking, start_tool, complete, finish_at, call_of,
  add_event, add_entry, group_from, group, started,
}

module _ {V : Type 0} where
  -- The text of a block of a stream.
  abbrev pub words : OutputStream → Segment V → String
  words stdout (out t) = t
  words thinking (thought t) = t
  words x _ = ""

  -- The texts of a stream's blocks, one after another.
  abbrev pub said : OutputStream → List (Segment V) → String
  said x [] = ""
  said x (s ∷ rest) = str_append (words x s) (said x rest)

  -- The text that an entry adds to a stream.
  abbrev pub chunk : OutputStream → EventKind V → String
  chunk stdout (output stdout c) = c
  chunk thinking (output thinking c) = c
  chunk x _ = ""

  abbrev pub chunk_of : OutputStream → Entry V → String
  chunk_of x (event e) = chunk x e.kind
  chunk_of x _ = ""

  abbrev pub chunks : OutputStream → List (Entry V) → String
  chunks x [] = ""
  chunks x (entry ∷ rest) = str_append (chunk_of x entry) (chunks x rest)

words_out :
    (V : Type 0) (x : OutputStream) (c : String)
    → words {V = V} x (out c) ≡ chunk {V = V} x (output stdout c)
words_out V stdout c = refl
words_out V thinking c = refl

words_thought :
    (V : Type 0) (x : OutputStream) (c : String)
    → words {V = V} x (thought c) ≡ chunk {V = V} x (output thinking c)
words_thought V stdout c = refl
words_thought V thinking c = refl

module _ {V : Type 0} where
  said-append :
      (x : OutputStream) (front : List (Segment V)) (s : Segment V)
      → said x (front ++ (s ∷ [])) ≡ str_append (said x front) (words x s)
  said-append x [] s = text_nil (words x s) ∙ sym (append.nil (words x s))
  said-append x (a ∷ rest) s =
      ap (str_append (words x a)) (said-append x rest s)
      ∙ sym (text_assoc (words x a) (said x rest) (words x s))

  abbrev block : OutputStream → String → Segment V
  block stdout t = out t
  block thinking t = thought t

  -- An index stands for the last segment, a block of the stream.
  abbrev Ends : OutputStream → Option ℕ → List (Segment V) → Type 0
  Ends x none segs = Unit
  Ends x (some i) segs =
      (before : List (Segment V)) × (t : String) × (segs ≡ before ++ (block x t ∷ []))
      × (i ≡ length before)

  abbrev IsOpen : Grouping V → Type 0
  IsOpen g = Ends stdout g.open_output g.segs × Ends thinking g.open_thinking g.segs

  modify_last :
      (f : Segment V → Segment V) (before : List (Segment V)) (s : Segment V)
      → modify (length before) f (before ++ (s ∷ [])) ≡ before ++ (f s ∷ [])
  unfolding modify
  modify_last f [] s = refl
  modify_last f (b ∷ rest) s = ap (◌∷◌ b) (modify_last f rest s)

  -- A write that leaves the last segment alone.
  modify_calm :
      (i : ℕ) (f : Segment V → Segment V) (before : List (Segment V)) (s : Segment V)
      → f s ≡ s
      → (before' : List (Segment V)) × (modify i f (before ++ (s ∷ [])) ≡ before' ++ (s ∷ []))
        × (length before' ≡ length before)
  unfolding modify
  modify_calm zero f [] s h = ([], ap (λ x. x ∷ []) h, refl)
  modify_calm (suc i) f [] s h = ([], refl, refl)
  modify_calm zero f (b ∷ rest) s h = (f b ∷ rest, refl, refl)
  modify_calm (suc i) f (b ∷ rest) s h =
      let (before', e, l) = modify_calm i f rest s h in (b ∷ before', ap (◌∷◌ b) e, ap suc l)

  said-modify :
      (x : OutputStream) (i : ℕ) (f : Segment V → Segment V) (segs : List (Segment V))
      → ((s : Segment V) → words x (f s) ≡ words x s)
      → said x (modify i f segs) ≡ said x segs
  unfolding modify
  said-modify x i f [] h = refl
  said-modify x zero f (s ∷ rest) h = ap (λ t. str_append t (said x rest)) (h s)
  said-modify x (suc i) f (s ∷ rest) h = ap (str_append (words x s)) (said-modify x i f rest h)

  -- Text that is put at the end of the open block.
  say_more :
      (x : OutputStream) (i : ℕ) (c : String) (segs : List (Segment V))
      → Ends stdout (some i) segs
      → said x (modify i (say c) segs)
        ≡ str_append (said x segs) (chunk {V = V} x (output stdout c))
  unfolding say
  say_more stdout i c segs (before, t, e, l) =
      rw (e, l, modify_last (say c) before (out t), said-append, said-append)
        (sym (text_assoc (said stdout before) t c))
  say_more thinking i c segs (before, t, e, l) =
      rw (e, l, modify_last (say c) before (out t), said-append, said-append) (sym (text_nil _))

  think_more :
      (x : OutputStream) (i : ℕ) (c : String) (segs : List (Segment V))
      → Ends thinking (some i) segs
      → said x (modify i (think c) segs)
        ≡ str_append (said x segs) (chunk {V = V} x (output thinking c))
  unfolding think
  think_more thinking i c segs (before, t, e, l) =
      rw (e, l, modify_last (think c) before (thought t), said-append, said-append)
        (sym (text_assoc (said thinking before) t c))
  think_more stdout i c segs (before, t, e, l) =
      rw (e, l, modify_last (think c) before (thought t), said-append, said-append)
        (sym (text_nil _))

  calm-Ends :
      (x : OutputStream) (o : Option ℕ) (i : ℕ) (f : Segment V → Segment V)
      (segs : List (Segment V))
      → ((t : String) → f (block x t) ≡ block x t)
      → Ends x o segs
      → Ends x o (modify i f segs)
  calm-Ends x none i f segs h ends = tt
  calm-Ends x (some j) i f segs h (before, t, e, l) =
      let (before', e', l') = modify_calm i f before (block x t) (h t) in
      (before', t, ap (modify i f) e ∙ e', l ∙ sym l')

  -- One entry adds its own text, and leaves each open block last.
  abbrev Adds : Grouping V → Grouping V → (OutputStream → String) → Type 0
  Adds g g' texts =
      IsOpen g' × ((x : OutputStream) → said x g'.segs ≡ str_append (said x g.segs) (texts x))

  place-Adds :
      (g : Grouping V) (s : Segment V) (texts : OutputStream → String)
      → words stdout s ≡ texts stdout
      → words thinking s ≡ texts thinking
      → Adds g (place g s) texts
  unfolding place
  place-Adds g s texts h k = ((tt, tt), placed)
    where
      placed :
          (x : OutputStream) → said x (g.segs ++ (s ∷ [])) ≡ str_append (said x g.segs) (texts x)
      placed stdout = said-append stdout g.segs s ∙ ap (str_append (said stdout g.segs)) h
      placed thinking = said-append thinking g.segs s ∙ ap (str_append (said thinking g.segs)) k

  -- The open block stays last when it grows.
  grown-Ends :
      (x : OutputStream) (i : ℕ) (f : Segment V → Segment V) (segs : List (Segment V))
      → ((t : String) → (t' : String) × (f (block x t) ≡ block x t'))
      → Ends x (some i) segs
      → Ends x (some i) (modify i f segs)
  grown-Ends x i f segs h (before, t, e, l) =
      let (t', grown) = h t in
      (
        before,
        t',
        rw (e, l) (modify_last f before (block x t) ∙ ap (λ s. before ++ (s ∷ [])) grown),
        l,
      )

  output-Adds :
      (g : Grouping V) (c : String) (o : Option ℕ)
      → g.open_output ≡ o
      → IsOpen g
      → Adds g (place_output g c o) (λ x. chunk {V = V} x (output stdout c))
  unfolding place_output say
  output-Adds g c none e h = (
    ((g.segs, c, refl, refl), tt),
    λ x. said-append x g.segs (out c) ∙ ap (str_append (said x g.segs)) (words_out V x c),
  )
  output-Adds g c (some i) e (h, k) =
      let ends : Ends stdout (some i) g.segs = subst (λ o. Ends stdout o g.segs) e h in
      (
        (
          subst (λ o. Ends stdout o (modify i (say c) g.segs)) (sym e)
              (grown-Ends stdout i (say c) g.segs (λ t. (str_append t c, refl)) ends),
          tt,
        ),
        λ x. say_more x i c g.segs ends,
      )

  thinking-Adds :
      (g : Grouping V) (c : String) (o : Option ℕ)
      → g.open_thinking ≡ o
      → IsOpen g
      → Adds g (place_thinking g c o) (λ x. chunk {V = V} x (output thinking c))
  unfolding place_thinking think
  thinking-Adds g c none e h = (
    (tt, (g.segs, c, refl, refl)),
    λ x. said-append x g.segs (thought c) ∙ ap (str_append (said x g.segs)) (words_thought V x c),
  )
  thinking-Adds g c (some i) e (h, k) =
      let ends : Ends thinking (some i) g.segs = subst (λ o. Ends thinking o g.segs) e k in
      (
        (
          tt,
          subst (λ o. Ends thinking o (modify i (think c) g.segs)) (sym e)
              (grown-Ends thinking i (think c) g.segs (λ t. (str_append t c, refl)) ends),
        ),
        λ x. think_more x i c g.segs ends,
      )

module _ {V : Type 0} (duration_ms : String → String → Option ℕ)
    (kind_label : EventKind V → String) where
  words-complete :
      (x : OutputStream) (ok : Bool) (took : Option ℕ) (result : Option String) (truncated : Bool)
      (s : Segment V)
      → words x (complete duration_ms kind_label ok took result truncated s) ≡ words x s
  unfolding complete
  words-complete stdout ok took result truncated (tool t) = refl
  words-complete thinking ok took result truncated (tool t) = refl
  words-complete x ok took result truncated (init a b c) = refl
  words-complete x ok took result truncated (out t) = refl
  words-complete x ok took result truncated (thought t) = refl
  words-complete x ok took result truncated (status a b) = refl
  words-complete x ok took result truncated (finished a b c) = refl
  words-complete x ok took result truncated (skipped n) = refl
  words-complete x ok took result truncated (unreadable w) = refl
  words-complete x ok took result truncated (other l) = refl

  silent_chunk :
      (g g' : Grouping V) (k : EventKind V)
      → chunk stdout k ≡ ""
      → chunk thinking k ≡ ""
      → Adds g g' (λ x. "")
      → Adds g g' (λ x. chunk x k)
  silent_chunk g g' k h j (o, e) = (o, both)
    where
      both : (x : OutputStream) → said x g'.segs ≡ str_append (said x g.segs) (chunk x k)
      both stdout = e stdout ∙ ap (str_append (said stdout g.segs)) (sym h)
      both thinking = e thinking ∙ ap (str_append (said thinking g.segs)) (sym j)

  finish_at-Adds :
      (g : Grouping V) (ts : String) (ok : Bool) (result : Option String) (truncated : Bool)
      (o : Option ℕ)
      → IsOpen g
      → Adds g (finish_at duration_ms kind_label g ts ok result truncated o) (λ x. "")
  unfolding finish_at complete
  finish_at-Adds g ts ok result truncated none h = (h, λ x. sym (text_nil (said x g.segs)))
  finish_at-Adds g ts ok result truncated (some i) (h, k) = (
    (
      calm-Ends stdout g.open_output i _ g.segs (λ t. refl) h,
      calm-Ends thinking g.open_thinking i _ g.segs (λ t. refl) k,
    ),
    λ x.
        said-modify x i _ g.segs (words-complete x ok _ result truncated)
        ∙ sym (text_nil (said x g.segs)),
  )

  add_event-Adds :
      (g : Grouping V) (e : FleetEvent V) (k : EventKind V)
      → IsOpen g
      → Adds g (add_event duration_ms kind_label g e k) (λ x. chunk x k)
  unfolding add_event start_tool place started
  add_event-Adds g e (output stdout c) h = output-Adds g c g.open_output refl h
  add_event-Adds g e (output thinking c) h = thinking-Adds g c g.open_thinking refl h
  add_event-Adds g e (tool_started id name input) h =
      place-Adds g (tool (started e id name input)) (λ x. chunk x (tool_started id name input)) refl
        refl
  add_event-Adds g e (tool_finished id name ok result truncated) h =
      silent_chunk g
        (finish_at duration_ms kind_label g e.ts ok result truncated
          (call_of id g.segs g.open_tools))
        (tool_finished id name ok result truncated) refl refl
        (finish_at-Adds g e.ts ok result truncated (call_of id g.segs g.open_tools) h)
  add_event-Adds g e (agent_init model tools session_id) h =
      place-Adds g (init model tools session_id) (λ x. chunk x (agent_init model tools session_id))
        refl refl
  add_event-Adds g e (status_changed from to) h =
      place-Adds g (status from to) (λ x. chunk x (status_changed from to)) refl refl
  add_event-Adds g e (agent_finished outcome cost_usd turns) h =
      place-Adds g (finished outcome cost_usd turns)
        (λ x. chunk x (agent_finished outcome cost_usd turns)) refl refl
  add_event-Adds g e agent_spawned h =
      place-Adds g (other (kind_label agent_spawned)) (λ x. chunk x agent_spawned) refl refl
  add_event-Adds g e agent_discovered h =
      place-Adds g (other (kind_label agent_discovered)) (λ x. chunk x agent_discovered) refl refl
  add_event-Adds g e agent_gone h =
      place-Adds g (other (kind_label agent_gone)) (λ x. chunk x agent_gone) refl refl
  add_event-Adds g e (store_persist_failed lost_seq detail) h =
      place-Adds g (other (kind_label (store_persist_failed lost_seq detail)))
        (λ x. chunk x (store_persist_failed lost_seq detail)) refl refl
  add_event-Adds g e (deadline_set deadline) h =
      place-Adds g (other (kind_label (deadline_set deadline)))
        (λ x. chunk x (deadline_set deadline)) refl refl
  add_event-Adds g e (agent_timed_out deadline) h =
      place-Adds g (other (kind_label (agent_timed_out deadline)))
        (λ x. chunk x (agent_timed_out deadline)) refl refl
  add_event-Adds g e (repo_health health) h =
      place-Adds g (other (kind_label (repo_health health))) (λ x. chunk x (repo_health health))
        refl refl

  add_entry-Adds :
      (g : Grouping V) (entry : Entry V)
      → IsOpen g
      → Adds g (add_entry duration_ms kind_label g entry) (λ x. chunk_of x entry)
  unfolding add_entry
  add_entry-Adds g (event e) h = add_event-Adds g e e.kind h
  add_entry-Adds g (gap n) h = place-Adds g (skipped n) (λ x. "") refl refl
  add_entry-Adds g (undecodable why) h = place-Adds g (unreadable why) (λ x. "") refl refl

  group_from-said :
      (x : OutputStream) (g : Grouping V) (entries : List (Entry V))
      → IsOpen g
      → said x (group_from duration_ms kind_label g entries).segs
        ≡ str_append (said x g.segs) (chunks x entries)
  unfolding group_from
  group_from-said x g [] h = sym (text_nil (said x g.segs))
  group_from-said x g (entry ∷ rest) h =
      let (h', e) = add_entry-Adds g entry h in
      group_from-said x (add_entry duration_ms kind_label g entry) rest h'
      ∙ ap (λ t. str_append t (chunks x rest)) (e x)
      ∙ text_assoc (said x g.segs) (chunk_of x entry) (chunks x rest)

  -- However the entries interleave, the texts of a stream's blocks, one after another, are the chunks of
  -- that stream, in their order, with nothing lost, doubled or moved to the other stream.
  pub said-group :
      (x : OutputStream) (entries : List (Entry V))
      → said x (group duration_ms kind_label entries) ≡ chunks x entries
  unfolding group
  said-group x entries = group_from-said x _ entries (tt, tt) ∙ append.nil (chunks x entries)
