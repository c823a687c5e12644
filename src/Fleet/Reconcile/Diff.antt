-- ===== src/Fleet/Reconcile/Diff.antt =====
-- The events of a poll, agent by agent.
use mathlib.Core.List.{append_assoc, append-nil}
use prospero.Prelude.{
  ◌≡◌, refl, sym, ap, subst, ◌∙◌, Bool, true, false, not, ◌&&◌, Option, none, some, List, [], ◌∷◌,
  ◌++◌, String, str_eq, eq_iff, if◌then◌else◌, if_cases, any, get, insert, arith, Bool-cases, inl,
  inr, get-insert_other,
}
use prospero.Model.{Agent, AgentStatus}
use prospero.Model.Event.{EventKind, agent_discovered, status_changed, agent_gone}
use prospero.Caliband.Wire.{AgentRecord, domain_status}
use prospero.Fleet.Manager.{Manager, Emission, contains, emit}
use prospero.Fleet.Reconcile.{
  statuses, same_status, observed, workspace_agents, emit_some, emit_observed, emit_gone, emit_diff,
}

-- The kinds of what was emitted for an agent, in order.
abbrev pub kinds_for : {V : Type 0} → String → List (Emission V) → List (EventKind V)
kinds_for id [] = []
kinds_for id (e ∷ es) = if str_eq e.agent_id id then e.kind ∷ kinds_for id es else kinds_for id es

abbrev pub listed {ℓ} : {A : Type ℓ} → Option A → List A
listed none = []
listed (some a) = a ∷ []

-- The status of an agent in caliband's list.
abbrev pub status_of : String → List AgentRecord → Option AgentStatus
status_of id [] = none
status_of id (r ∷ rest) =
    if str_eq r.id id then some (domain_status r.status) else status_of id rest

-- No two entries of caliband's list have one id.
abbrev pub IsUnique : List AgentRecord → Type 0
IsUnique [] = Unit
IsUnique (r ∷ rest) = (status_of r.id rest ≡ none) × IsUnique rest

-- What a poll says of an agent, by what was known of it and what is listed now: one that was unknown
-- and that no attach task follows is discovered, one whose status differs has changed, one that is
-- listed no more is gone. A replica without the lease says nothing.
abbrev pub news :
    {V : Type 0} → (own attached : Bool) → (old now : Option AgentStatus) → List (EventKind V)
news false attached old now = []
news true attached none none = []
news true true none (some now) = []
news true false none (some now) = agent_discovered ∷ []
news true attached (some old) none = agent_gone ∷ []
news true attached (some old) (some now) =
    if same_status old now then [] else status_changed old now ∷ []

kinds_for-append :
    {V : Type 0} (id : String) (es fs : List (Emission V))
    → kinds_for id (es ++ fs) ≡ kinds_for id es ++ kinds_for id fs
kinds_for-append id [] fs = refl
kinds_for-append id (e ∷ es) fs = ground (arith, kinds_for-append id es fs)

-- The entries of an association list that `insert` has built have keys of their own.
abbrev IsMap : List (String × AgentStatus) → Type 0
IsMap [] = Unit
IsMap ((k, s) ∷ rest) = (get k rest ≡ none) × IsMap rest

insert-IsMap :
    (k : String) (s : AgentStatus) (m : List (String × AgentStatus))
    → IsMap m
    → IsMap (insert k s m)
unfolding insert get
insert-IsMap k s [] h = (refl, tt)
insert-IsMap k s ((j, b) ∷ rest) (h, hs) =
    if_cases IsMap (str_eq j k) (λ e. (ground (arith, h, e, eq_iff j k), hs))
      (λ e. (
        get-insert_other j k s rest (λ p. ground (arith, p, e, eq_iff j k)) ∙ h,
        insert-IsMap k s rest hs,
      ))

statuses-IsMap :
    (agents : List Agent) (m : List (String × AgentStatus)) → IsMap m → IsMap (statuses agents m)
unfolding statuses
statuses-IsMap [] m h = h
statuses-IsMap (a ∷ rest) m h =
    statuses-IsMap rest (insert a.id a.status m) (insert-IsMap a.id a.status m h)

abbrev pub is_there {ℓ} : {A : Type ℓ} → Option A → Bool
is_there none = false
is_there (some a) = true

pub any-status_of :
    (id : String) (records : List AgentRecord)
    → any (λ (r : AgentRecord). str_eq r.id id) records ≡ is_there (status_of id records)
any-status_of id [] = refl
any-status_of id (r ∷ rest) = ground (arith, any-status_of id rest)

-- What the loop over the list says of an agent.
abbrev heard :
    {V : Type 0} → (own attached : Bool) → (old now : Option AgentStatus) → List (EventKind V)
heard own attached old none = []
heard own attached old (some now) = listed (observed own attached old now)

-- What the loop over the known agents says of one.
abbrev missed : {V : Type 0} → Bool → Option AgentStatus → Bool → List (EventKind V)
missed own none there = []
missed own (some old) there = if own && not there then agent_gone ∷ [] else []

heard-missed :
    {V : Type 0} (own attached : Bool) (old now : Option AgentStatus)
    → heard {V = V} own attached old now ++ missed own old (is_there now)
      ≡ news own attached old now
unfolding observed
heard-missed false attached none none = refl
heard-missed false attached none (some now) = refl
heard-missed false attached (some old) none = refl
heard-missed false attached (some old) (some now) = refl
heard-missed true attached none none = refl
heard-missed true true none (some now) = refl
heard-missed true false none (some now) = refl
heard-missed true attached (some old) none = refl
heard-missed true attached (some old) (some now) = ground arith

module _ {V Config : Type 0} (repo : String) (own : Bool) where
  kinds_for-emit :
      (id id' : String) (m : Manager V Config) (kind : EventKind V)
      → kinds_for id (emit m repo id' kind).emitted
        ≡ kinds_for id m.emitted ++ (if str_eq id' id then kind ∷ [] else [])
  unfolding emit
  kinds_for-emit id id' m kind = kinds_for-append id m.emitted _

  kinds_for-emit_some :
      (id id' : String) (m : Manager V Config) (o : Option (EventKind V))
      → kinds_for id (emit_some m repo id' o).emitted
        ≡ kinds_for id m.emitted ++ (if str_eq id' id then listed o else [])
  unfolding emit_some
  kinds_for-emit_some id id' m none = ground (arith, append-nil (kinds_for id m.emitted))
  kinds_for-emit_some id id' m (some kind) = kinds_for-emit id id' m kind

  kinds_for-emit_observed :
      (id : String) (attached : List String) (prior : List (String × AgentStatus))
      (records : List AgentRecord) (m : Manager V Config)
      → IsUnique records
      → kinds_for id (emit_observed m repo own attached prior records).emitted
        ≡ kinds_for id m.emitted
          ++ heard own (contains id attached) (get id prior) (status_of id records)
  unfolding emit_observed
  kinds_for-emit_observed id attached prior [] m h = sym (append-nil (kinds_for id m.emitted))
  kinds_for-emit_observed id attached prior (r ∷ rest) m (h, hs) =
      let o = observed own (contains r.id attached) (get r.id prior) (domain_status r.status) in
      let m' = emit_some m repo r.id o in
      kinds_for-emit_observed id attached prior rest m' hs
      ∙ ap (λ ks. ks ++ heard own (contains id attached) (get id prior) (status_of id rest))
          (kinds_for-emit_some id r.id m o)
      ∙ elim (Bool-cases (str_eq r.id id)) [
        | inl e ↦
            let p : r.id ≡ id = ground (arith, eq_iff r.id id, e) in
            rw (e, subst (λ k. status_of k rest ≡ none) p h)
              (append-nil _
                ∙ ap
                    (λ k.
                      kinds_for id m.emitted
                      ++ listed (
                          observed own (contains k attached) (get k prior)
                            (domain_status r.status)))
                    p)
        | inr e ↦ rw e (
            ap (λ ks. ks ++ heard own (contains id attached) (get id prior) (status_of id rest))
              (append-nil (kinds_for id m.emitted)))
      ]

  kinds_for-emit_if :
      (id id' : String) (m : Manager V Config) (kind : EventKind V) (b : Bool)
      → kinds_for id (if b then emit m repo id' kind else m).emitted
        ≡ kinds_for id m.emitted ++ (if str_eq id' id then (if b then kind ∷ [] else []) else [])
  kinds_for-emit_if id id' m kind true = kinds_for-emit id id' m kind
  kinds_for-emit_if id id' m kind false = ground (arith, append-nil (kinds_for id m.emitted))

  kinds_for-emit_gone :
      (id : String) (records : List AgentRecord) (prior : List (String × AgentStatus))
      (m : Manager V Config)
      → IsMap prior
      → kinds_for id (emit_gone m repo own records prior).emitted
        ≡ kinds_for id m.emitted ++ missed own (get id prior) (is_there (status_of id records))
  unfolding emit_gone get
  kinds_for-emit_gone id records [] m h = sym (append-nil (kinds_for id m.emitted))
  kinds_for-emit_gone id records ((k, old) ∷ rest) m (h, hs) =
      let there = any (λ (r : AgentRecord). str_eq r.id k) records in
      let m' = if own && not there then emit m repo k agent_gone else m in
      kinds_for-emit_gone id records rest m' hs
      ∙ ap (λ ks. ks ++ missed own (get id rest) (is_there (status_of id records)))
          (kinds_for-emit_if id k m agent_gone (own && not there))
      ∙ elim (Bool-cases (str_eq k id)) [
        | inl e ↦
            let p : k ≡ id = ground (arith, eq_iff k id, e) in
            rw (e, subst (λ j. get j rest ≡ none) p h)
              (append-nil _
                ∙ ap (λ b. kinds_for id m.emitted ++ (if own && not b then agent_gone ∷ [] else []))
                    (any-status_of k records ∙ ap (λ j. is_there (status_of j records)) p))
        | inr e ↦ rw e (
            ap (λ ks. ks ++ missed own (get id rest) (is_there (status_of id records)))
              (append-nil (kinds_for id m.emitted)))
      ]

  -- Over a list of agents of different ids, what the comparison of a poll with the snapshot (`emit_diff`)
  -- emits for each agent is its news, and what was emitted before stands. What a poll emits for deadlines
  -- is no part of it.
  pub emit_diff_exact :
      (m : Manager V Config) (records : List AgentRecord) (id : String)
      → IsUnique records
      → kinds_for id (emit_diff m repo own records).emitted
        ≡ kinds_for id m.emitted
          ++ news own
              (contains id m.attached)
              (get id (statuses (workspace_agents m repo) []))
              (status_of id records)
  unfolding emit_diff
  emit_diff_exact m records id h =
      let prior = statuses (workspace_agents m repo) [] in
      let m' = emit_observed m repo own m.attached prior records in
      kinds_for-emit_gone id records prior m' (statuses-IsMap (workspace_agents m repo) [] tt)
      ∙ ap (λ ks. ks ++ missed own (get id prior) (is_there (status_of id records)))
          (kinds_for-emit_observed id m.attached prior records m h)
      ∙ append_assoc (kinds_for id m.emitted) _ _
      ∙ ap (λ ks. kinds_for id m.emitted ++ ks)
          (heard-missed own (contains id m.attached) (get id prior) (status_of id records))
