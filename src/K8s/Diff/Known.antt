-- ===== src/K8s/Diff/Known.antt =====
-- What a pass leaves known: the listed tasks, as they were overlaid.
use prospero.Prelude.{
  ◌≡◌, refl, sym, ◌∙◌, subst, Bool, true, false, Option, none, some, List, [], ◌∷◌, map, String,
  str_eq, eq_iff, if◌then◌else◌, if_lem, any, arith, get, insert, Bool-cases, String-cases, inl,
  ◌⊎◌, ◌≢◌, inr, get-insert, get-insert_other, get-remove, get-remove_other,
}
use prospero.Model.{Agent}
use prospero.Fleet.Manager.{contains}
use prospero.K8s.{CalibanTask}
use prospero.K8s.Task.{or_empty, agent_from_task}
use prospero.K8s.Overlay.{is_some}
use prospero.K8s.Diff.{Diff, observe_agent, observe_named, observe, diff, by_id}
use prospero.K8s.Diff.View.{still_known_there, still_known_left}

abbrev pub is_named : String → Option String → Bool
is_named id none = false
is_named id (some name) = str_eq name id

-- A task of that name is listed.
abbrev pub lists : String → List CalibanTask → Bool
lists id tasks = any (λ (t : CalibanTask). is_named id t.metadata.name) tasks

-- Before its task is reached an agent waits in `overlaid`, afterwards it is known.
abbrev Stands : String → List (String × Agent) → Diff → Type 0
Stands id b d =
    ((contains id d.seen ≡ true) × (get id d.known ≡ get id b) × (get id d.overlaid ≡ none))
    ⊎ ((contains id d.seen ≡ false) × (get id d.overlaid ≡ get id b))

-- An agent stands for each name.
abbrev HasName : List (String × Agent) → Option String → Type 0
HasName b none = Unit
HasName b (some name) = is_some (get name b) ≡ true

abbrev HasAll : List (String × Agent) → List CalibanTask → Type 0
HasAll b [] = Unit
HasAll b (t ∷ rest) = HasName b t.metadata.name × HasAll b rest

module _ (debug : String → String) (id : String) (b : List (String × Agent)) where
  -- The agent's own task.
  observe_agent_self :
      (d : Diff) (t : CalibanTask) (o : Option Agent)
      → get id d.overlaid ≡ o
      → is_some (get id b) ≡ true
      → Stands id b d
      → Stands id b (observe_agent debug d t id o)
  unfolding observe_agent contains is_some
  observe_agent_self d t none e h (inl (seen, known, waits)) =
      inl (ground (arith, eq_iff id id), known, waits)
  observe_agent_self d t none e h (inr (unseen, waits)) = absurd (ground (arith, h, e, waits))
  observe_agent_self d t (some a) e h (inl (seen, known, waits)) = absurd (ground (arith, e, waits))
  observe_agent_self d t (some a) e h (inr (unseen, waits)) = inl (
    ground (arith, eq_iff id id),
    get-insert id a d.known ∙ sym e ∙ waits,
    get-remove id d.overlaid,
  )

  -- Another agent's task.
  observe_agent_other :
      (d : Diff) (t : CalibanTask) (name : String) (o : Option Agent)
      → name ≢ id
      → Stands id b d
      → Stands id b (observe_agent debug d t name o)
  unfolding observe_agent contains
  observe_agent_other d t name none n (inl (seen, known, waits)) =
      inl (ground (arith, eq_iff name id), known, waits)
  observe_agent_other d t name none n (inr (unseen, waits)) =
      inr (ground (arith, eq_iff name id), waits)
  observe_agent_other d t name (some a) n (inl (seen, known, waits)) = inl (
    ground (arith, eq_iff name id),
    get-insert_other id name a d.known n ∙ known,
    get-remove_other id name d.overlaid n ∙ waits,
  )
  observe_agent_other d t name (some a) n (inr (unseen, waits)) =
      inr (ground (arith, eq_iff name id), get-remove_other id name d.overlaid n ∙ waits)

  observe_agent-Stands :
      (d : Diff) (t : CalibanTask) (name : String) (o : Option Agent)
      → get name d.overlaid ≡ o
      → is_some (get name b) ≡ true
      → Stands id b d
      → Stands id b (observe_agent debug d t name o)
  observe_agent-Stands d t name o e h s = elim (String-cases name id) [
    | inl p ↦
        subst (λ k. Stands id b (observe_agent debug d t k o)) (sym p)
          (observe_agent_self d t o (subst (λ k. get k d.overlaid ≡ o) p e)
            (subst (λ k. is_some (get k b) ≡ true) p h) s)
    | inr n ↦ observe_agent_other d t name o n s
  ]

  observe_named-Stands :
      (d : Diff) (t : CalibanTask) (name : Option String)
      → HasName b name
      → Stands id b d
      → Stands id b (observe_named debug d t name)
  unfolding observe_named
  observe_named-Stands d t none h s = s
  observe_named-Stands d t (some name) h s =
      observe_agent-Stands d t name (get name d.overlaid) refl h s

  observe-Stands :
      (d : Diff) (tasks : List CalibanTask)
      → HasAll b tasks
      → Stands id b d
      → Stands id b (observe debug d tasks)
  unfolding observe
  observe-Stands d [] h s = s
  observe-Stands d (t ∷ rest) h s =
      observe-Stands (observe_named debug d t t.metadata.name) rest h.1
        (observe_named-Stands d t t.metadata.name h.0 s)

  seen_agent :
      (d : Diff) (t : CalibanTask) (name : String) (o : Option Agent)
      → contains id (observe_agent debug d t name o).seen
        ≡ (if str_eq name id then true else contains id d.seen)
  unfolding observe_agent contains
  seen_agent d t name none = refl
  seen_agent d t name (some a) = refl

  seen_named :
      (d : Diff) (t : CalibanTask) (name : Option String)
      → contains id (observe_named debug d t name).seen
        ≡ (if is_named id name then true else contains id d.seen)
  unfolding observe_named
  seen_named d t none = refl
  seen_named d t (some name) = seen_agent d t name (get name d.overlaid)

  seen_lem :
      (d : Diff) (tasks : List CalibanTask)
      → contains id (observe debug d tasks).seen
        ≡ (if lists id tasks then true else contains id d.seen)
  unfolding observe
  seen_lem d [] = refl
  seen_lem d (t ∷ rest) = ground (
    arith,
    seen_lem (observe_named debug d t t.metadata.name) rest,
    seen_named d t t.metadata.name,
  )

-- An agent put there is found.
is_some-by_id :
    (id : String) (agents : List Agent) (m : List (String × Agent))
    → (if any (λ (a : Agent). str_eq a.id id) agents then true else is_some (get id m)) ≡ true
    → is_some (get id (by_id agents m)) ≡ true
unfolding by_id is_some
is_some-by_id id [] m h = h
is_some-by_id id (a ∷ rest) m h =
    is_some-by_id id rest (insert a.id a m) (elim (String-cases a.id id) [
      | inl e ↦
          if_lem (λ b. b ≡ true) (any (λ (x : Agent). str_eq x.id id) rest) refl
            (subst (λ k. is_some (get k (insert a.id a m)) ≡ true) e
              (rw (get-insert a.id a m) refl))
      | inr n ↦ rw (get-insert_other id a.id a m n) (ground (arith, eq_iff a.id id, h))
    ])

-- The agents are those of the tasks, one by one.
abbrev pub SameIds : List Agent → List CalibanTask → Type 0
SameIds [] [] = Unit
SameIds [] (t ∷ tasks) = ⊥
SameIds (a ∷ agents) [] = ⊥
SameIds (a ∷ agents) (t ∷ tasks) = (a.id ≡ or_empty t.metadata.name) × SameIds agents tasks

pub agent_from_task-SameIds : (tasks : List CalibanTask) → SameIds (map agent_from_task tasks) tasks
unfolding agent_from_task
agent_from_task-SameIds [] = tt
agent_from_task-SameIds (t ∷ rest) = (refl, agent_from_task-SameIds rest)

pub map-SameIds :
    (f : Agent → Agent) (same : (a : Agent) → (f a).id ≡ a.id) (agents : List Agent)
    (tasks : List CalibanTask)
    → SameIds agents tasks
    → SameIds (map f agents) tasks
map-SameIds f same [] [] h = tt
map-SameIds f same [] (t ∷ tasks) h = h
map-SameIds f same (a ∷ agents) [] h = h
map-SameIds f same (a ∷ agents) (t ∷ tasks) (e, h) = (same a ∙ e, map-SameIds f same agents tasks h)

named_any :
    (id : String) (name : Option String)
    → is_named id name ≡ true
    → str_eq (or_empty name) id ≡ true
unfolding or_empty
named_any id none h = absurd (ground (arith, h))
named_any id (some name) h = h

lists-any :
    (id : String) (agents : List Agent) (tasks : List CalibanTask)
    → SameIds agents tasks
    → lists id tasks ≡ true
    → any (λ (a : Agent). str_eq a.id id) agents ≡ true
lists-any id [] [] s h = h
lists-any id [] (t ∷ tasks) s h = absurd s
lists-any id (a ∷ agents) [] s h = absurd s
lists-any id (a ∷ agents) (t ∷ tasks) (e, s) h = elim (Bool-cases (is_named id t.metadata.name)) [
  | inl named ↦ rw (e, named_any id t.metadata.name named) refl
  | inr other ↦
      if_lem (λ b. b ≡ true) (str_eq a.id id) refl (lists-any id agents tasks s (rw other at h))
]

HasName-lem :
    (b : List (String × Agent)) (name : Option String)
    → ((id : String) → is_named id name ≡ true → is_some (get id b) ≡ true)
    → HasName b name
HasName-lem b none h = tt
HasName-lem b (some name) h = h name (ground (arith, eq_iff name name))

HasAll-lem :
    (b : List (String × Agent)) (tasks : List CalibanTask)
    → ((id : String) → lists id tasks ≡ true → is_some (get id b) ≡ true)
    → HasAll b tasks
HasAll-lem b [] h = tt
HasAll-lem b (t ∷ rest) h = (
  HasName-lem b t.metadata.name (λ id q. h id (rw q refl)),
  HasAll-lem b rest (λ id q. h id (if_lem (λ x. x ≡ true) (is_named id t.metadata.name) refl q)),
)

-- After a diff the listed agents are known, as they are in `agents`, and no others.
pub known-diff :
    (debug : String → String) (known : List (String × Agent)) (tasks : List CalibanTask)
    (agents : List Agent) (id : String)
    → SameIds agents tasks
    → get id (diff debug known tasks agents).known
      ≡ (if lists id tasks then get id (by_id agents []) else none)
unfolding diff contains
known-diff debug known tasks agents id s =
    let b = by_id agents [] in
    let start : Diff = record {
      known = known;
      seen = [];
      overlaid = b;
      changes = [];
      to_attach = [];
    } in
    let o = observe debug start tasks in
    let has =
      HasAll-lem b tasks
        (λ k q. is_some-by_id k agents [] (rw (lists-any k agents tasks s q) refl)) in
    let seen : contains id o.seen ≡ (if lists id tasks then true else false) =
      seen_lem debug id b start tasks in
    elim (observe-Stands debug id b start tasks has (inr (refl, refl))) [
      | inl (there, same, waits) ↦
          let listed : lists id tasks ≡ true = ground (arith, seen, there) in
          rw listed (still_known_there id o.seen o.known there ∙ same)
      | inr (left, waits) ↦
          let unlisted : lists id tasks ≡ false = ground (arith, seen, left) in
          rw unlisted (still_known_left id o.seen o.known left)
    ]
