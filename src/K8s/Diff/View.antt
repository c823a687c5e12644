-- ===== src/K8s/Diff/View.antt =====
-- What a pass leaves known, and what a subscriber who applies its changes sees.
use prospero.Prelude.{
  ◌≡◌, refl, sym, ap, ◌∙◌, subst, true, false, Option, none, some, List, [], ◌∷◌, ◌++◌, String,
  eq_iff, if◌then◌else◌, arith, get, insert, remove, Bool-cases, String-cases, inl, inr, get-insert,
  get-insert_other, get-remove, get-remove_other,
}
use prospero.Model.{Agent, AgentStatus}
use prospero.Fleet.Manager.{contains}
use prospero.Fleet.Reconcile.{same_status, same_status-eq}
use prospero.K8s.{CalibanTask}
use prospero.Model.Change.{FleetChange, discovered, status_changed, gone, workspace_health}
use prospero.K8s.Diff.{
  Diff, change_of, observe_agent, observe_named, observe, gone_of, still_known, diff, by_id,
}

-- A subscriber's view: the status of each agent that is there.
abbrev pub View : Type 0
View = List (String × AgentStatus)

abbrev pub apply : View → FleetChange → View
apply v (discovered id workspace a) = insert id a.status v
apply v (status_changed id workspace from to) = insert id to v
apply v (gone id workspace) = remove id v
apply v (workspace_health workspace state) = v

abbrev pub apply_all : View → List FleetChange → View
apply_all v [] = v
apply_all v (c ∷ rest) = apply_all (apply v c) rest

abbrev pub status_at : Option Agent → Option AgentStatus
status_at none = none
status_at (some a) = some a.status

-- The view has the agents that are known, with their statuses, and no others.
abbrev pub Agrees : View → List (String × Agent) → Type 0
Agrees v known = (id : String) → get id v ≡ status_at (get id known)

pub apply_all-append :
    (v : View) (cs ds : List FleetChange) → apply_all v (cs ++ ds) ≡ apply_all (apply_all v cs) ds
apply_all-append v [] ds = refl
apply_all-append v (c ∷ cs) ds = apply_all-append (apply v c) cs ds

put-Agrees :
    (v : View) (known : List (String × Agent)) (name : String) (a : Agent)
    → Agrees v known
    → Agrees (insert name a.status v) (insert name a known)
put-Agrees v known name a h id = elim (String-cases name id) [
  | inl e ↦
      subst (λ k. get k (insert name a.status v) ≡ status_at (get k (insert name a known))) e
        (get-insert name a.status v ∙ sym (ap status_at (get-insert name a known)))
  | inr d ↦
      get-insert_other id name a.status v d
      ∙ h id
      ∙ sym (ap status_at (get-insert_other id name a known d))
]

keep-Agrees :
    (v : View) (known : List (String × Agent)) (name : String) (a : Agent)
    → get name v ≡ some a.status
    → Agrees v known
    → Agrees v (insert name a known)
keep-Agrees v known name a same h id = elim (String-cases name id) [
  | inl e ↦
      subst (λ k. get k v ≡ status_at (get k (insert name a known))) e
        (same ∙ sym (ap status_at (get-insert name a known)))
  | inr d ↦ h id ∙ sym (ap status_at (get-insert_other id name a known d))
]

change_of-Agrees :
    (v : View) (known : List (String × Agent)) (name : String) (a : Agent) (o : Option Agent)
    → get name known ≡ o
    → Agrees v known
    → Agrees (apply_all v (change_of name o a)) (insert name a known)
unfolding change_of
change_of-Agrees v known name a none e h = put-Agrees v known name a h
change_of-Agrees v known name a (some prev) e h =
    elim (Bool-cases (same_status prev.status a.status)) [
      | inl same ↦ rw same (
          keep-Agrees v known name a
            (h name ∙ ap status_at e ∙ ap some (same_status-eq prev.status a.status same)) h)
      | inr other ↦ rw other (put-Agrees v known name a h)
    ]

module _ (debug : String → String) (v : View) where
  observe_agent-Agrees :
      (d : Diff) (t : CalibanTask) (name : String) (o : Option Agent)
      → Agrees (apply_all v d.changes) d.known
      → let d' = observe_agent debug d t name o in Agrees (apply_all v d'.changes) d'.known
  unfolding observe_agent
  observe_agent-Agrees d t name none h = h
  observe_agent-Agrees d t name (some a) h =
      rw apply_all-append
        (change_of-Agrees (apply_all v d.changes) d.known name a (get name d.known) refl h)

  observe_named-Agrees :
      (d : Diff) (t : CalibanTask) (name : Option String)
      → Agrees (apply_all v d.changes) d.known
      → let d' = observe_named debug d t name in Agrees (apply_all v d'.changes) d'.known
  unfolding observe_named
  observe_named-Agrees d t none h = h
  observe_named-Agrees d t (some name) h = observe_agent-Agrees d t name (get name d.overlaid) h

  observe-Agrees :
      (d : Diff) (tasks : List CalibanTask)
      → Agrees (apply_all v d.changes) d.known
      → let d' = observe debug d tasks in Agrees (apply_all v d'.changes) d'.known
  unfolding observe
  observe-Agrees d [] h = h
  observe-Agrees d (t ∷ rest) h =
      observe-Agrees (observe_named debug d t t.metadata.name) rest
        (observe_named-Agrees d t t.metadata.name h)

-- What is still seen stays as it was.
gone_kept :
    (id : String) (seen : List String) (m : List (String × Agent)) (v : View)
    → contains id seen ≡ true
    → get id (apply_all v (gone_of seen m)) ≡ get id v
unfolding gone_of
gone_kept id seen [] v h = refl
gone_kept id seen ((name, a) ∷ rest) v h = elim (Bool-cases (contains name seen)) [
  | inl there ↦ rw there (gone_kept id seen rest v h)
  | inr left ↦ rw left (
      gone_kept id seen rest (remove name v) h
      ∙ get-remove_other id name v
          (λ e. ground (arith, subst (λ k. contains k seen ≡ false) e left, h)))
]

-- What is seen no more is removed.
gone_dropped :
    (id : String) (seen : List String) (m : List (String × Agent)) (v : View)
    → contains id seen ≡ false
    → (get id m ≡ none → get id v ≡ none)
    → get id (apply_all v (gone_of seen m)) ≡ none
unfolding gone_of get
gone_dropped id seen [] v h k = k refl
gone_dropped id seen ((name, a) ∷ rest) v h k = elim (String-cases name id) [
  | inl e ↦ rw (subst (λ j. contains j seen ≡ false) (sym e) h) (
      gone_dropped id seen rest (remove name v) h
        (λ q. subst (λ j. get j (remove name v) ≡ none) e (get-remove name v)))
  | inr d ↦
      let same : get id rest ≡ none → get id v ≡ none =
        λ q. k (ground (arith, eq_iff name id, q, d)) in
      elim (Bool-cases (contains name seen)) [
        | inl there ↦ rw there (gone_dropped id seen rest v h same)
        | inr left ↦ rw left (
            gone_dropped id seen rest (remove name v) h
              (λ q. get-remove_other id name v d ∙ same q))
      ]
]

get-still_known :
    (id : String) (seen : List String) (m : List (String × Agent))
    → get id (still_known seen m) ≡ (if contains id seen then get id m else none)
unfolding still_known get
get-still_known id seen [] = ground arith
get-still_known id seen ((name, a) ∷ rest) = elim (String-cases name id) [
  | inl e ↦
      ground (arith, eq_iff name id, get-still_known id seen rest, ap (λ k. contains k seen) e)
  | inr d ↦ ground (arith, eq_iff name id, get-still_known id seen rest)
]

pub still_known_there :
    (id : String) (seen : List String) (m : List (String × Agent))
    → contains id seen ≡ true
    → get id (still_known seen m) ≡ get id m
still_known_there id seen m h = ground (arith, get-still_known id seen m)

pub still_known_left :
    (id : String) (seen : List String) (m : List (String × Agent))
    → contains id seen ≡ false
    → get id (still_known seen m) ≡ none
still_known_left id seen m h = ground (arith, get-still_known id seen m)

-- The diff of a pass.
pub diff-Agrees :
    (debug : String → String) (v : View) (known : List (String × Agent)) (tasks : List CalibanTask)
    (agents : List Agent)
    → Agrees v known
    → let d = diff debug known tasks agents in Agrees (apply_all v d.changes) d.known
unfolding diff
diff-Agrees debug v known tasks agents h id =
    let start : Diff = record {
      known = known;
      seen = [];
      overlaid = by_id agents [];
      changes = [];
      to_attach = [];
    } in
    let o = observe debug start tasks in
    let same = observe-Agrees debug v start tasks h in
    rw apply_all-append (elim (Bool-cases (contains id o.seen)) [
      | inl there ↦
          gone_kept id o.seen o.known (apply_all v o.changes) there
          ∙ same id
          ∙ sym (ap status_at (still_known_there id o.seen o.known there))
      | inr left ↦
          gone_dropped id o.seen o.known (apply_all v o.changes) left
            (λ q. same id ∙ ap status_at q)
          ∙ sym (ap status_at (still_known_left id o.seen o.known left))
    ])
