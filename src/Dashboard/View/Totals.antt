-- ===== src/Dashboard/View/Totals.antt =====
-- The numbers of the overview, and the key that its usage panel is fetched again by.
use mathlib.Core.List.{Permᴰ}
use native.Mathlib.Nat.{mod-add-mod}
use prospero.Prelude.{
  ℕ, ◌+◌, ◌%◌, ◌^◌, ◌≡◌, refl, sym, ap, ◌∙◌, List, [], ◌∷◌, ◌++◌, String, length, length-append,
  arith,
}
use prospero.Model.{Agent, AgentStatus}
use prospero.Fleet.Manager.{Workspace, FleetSnapshot}
use prospero.Dashboard.View.{
  StatusCounts, total, no_counts, count_status, count_from, count_statuses, add_counts, FleetTotals,
  add_workspace, add_workspaces, fresh_totals, totals, key_of_agents, key_of_workspaces,
  activity_key,
}

count_from-append :
    (c : StatusCounts) (xs ys : List Agent)
    → count_from c (xs ++ ys) ≡ count_from (count_from c xs) ys
unfolding count_from
count_from-append c [] ys = refl
count_from-append c (a ∷ rest) ys = count_from-append (count_status c a.status) rest ys

counts-eq :
    {c d : StatusCounts}
    → c.running ≡ d.running
    → c.idle ≡ d.idle
    → c.spawning ≡ d.spawning
    → c.done ≡ d.done
    → c.bad ≡ d.bad
    → c ≡ d
counts-eq r i s e b =
    λ k. record { running = r k; idle = i k; spawning = s k; done = e k; bad = b k }

add_counts-status :
    (t c : StatusCounts) (s : AgentStatus)
    → add_counts t (count_status c s) ≡ count_status (add_counts t c) s
unfolding add_counts count_status
add_counts-status t c AgentStatus.running =
    counts-eq (omega arith) (omega arith) (omega arith) (omega arith) (omega arith)
add_counts-status t c AgentStatus.idle =
    counts-eq (omega arith) (omega arith) (omega arith) (omega arith) (omega arith)
add_counts-status t c AgentStatus.spawning =
    counts-eq (omega arith) (omega arith) (omega arith) (omega arith) (omega arith)
add_counts-status t c AgentStatus.done =
    counts-eq (omega arith) (omega arith) (omega arith) (omega arith) (omega arith)
add_counts-status t c AgentStatus.killed =
    counts-eq (omega arith) (omega arith) (omega arith) (omega arith) (omega arith)
add_counts-status t c AgentStatus.failed =
    counts-eq (omega arith) (omega arith) (omega arith) (omega arith) (omega arith)
add_counts-status t c AgentStatus.crashed =
    counts-eq (omega arith) (omega arith) (omega arith) (omega arith) (omega arith)

count_from-add :
    (t c : StatusCounts) (xs : List Agent)
    → add_counts t (count_from c xs) ≡ count_from (add_counts t c) xs
unfolding count_from
count_from-add t c [] = refl
count_from-add t c (a ∷ rest) =
    count_from-add t (count_status c a.status) rest
    ∙ ap (λ d. count_from d rest) (add_counts-status t c a.status)

add_counts-none : (t : StatusCounts) → add_counts t no_counts ≡ t
unfolding add_counts no_counts
add_counts-none t = counts-eq (omega arith) (omega arith) (omega arith) (omega arith) (omega arith)

total-status : (c : StatusCounts) (s : AgentStatus) → total (count_status c s) ≡ total c + 1
unfolding total count_status
total-status c AgentStatus.running = omega arith
total-status c AgentStatus.idle = omega arith
total-status c AgentStatus.spawning = omega arith
total-status c AgentStatus.done = omega arith
total-status c AgentStatus.killed = omega arith
total-status c AgentStatus.failed = omega arith
total-status c AgentStatus.crashed = omega arith

total-from : (c : StatusCounts) (xs : List Agent) → total (count_from c xs) ≡ total c + length xs
unfolding count_from
total-from c [] = omega arith
total-from c (a ∷ rest) =
    ground (arith, total-from (count_status c a.status) rest, total-status c a.status)

module _ {Config : Type 0} where
  abbrev pub agents_of : List (Workspace Config) → List Agent
  agents_of [] = []
  agents_of (ws ∷ rest) = ws.agents ++ agents_of rest

  workspaces-kept :
      (t : FleetTotals) (wss : List (Workspace Config))
      → (add_workspaces t wss).workspaces ≡ t.workspaces
  unfolding add_workspaces add_workspace
  workspaces-kept t [] = refl
  workspaces-kept t (ws ∷ rest) = workspaces-kept (add_workspace t ws) rest

  statuses-counted :
      (t : FleetTotals) (wss : List (Workspace Config))
      → (add_workspaces t wss).statuses ≡ count_from t.statuses (agents_of wss)
  unfolding add_workspaces add_workspace count_statuses count_from
  statuses-counted t [] = refl
  statuses-counted t (ws ∷ rest) =
      statuses-counted (add_workspace t ws) rest
      ∙ ap (λ c. count_from c (agents_of rest))
          (count_from-add t.statuses no_counts ws.agents
            ∙ ap (λ c. count_from c ws.agents) (add_counts-none t.statuses))
      ∙ sym (count_from-append t.statuses ws.agents (agents_of rest))

  agents-counted :
      (t : FleetTotals) (wss : List (Workspace Config))
      → (add_workspaces t wss).agents ≡ t.agents + length (agents_of wss)
  unfolding add_workspaces add_workspace
  agents-counted t [] = omega arith
  agents-counted t (ws ∷ rest) =
      ground
        (arith, agents-counted (add_workspace t ws) rest, length-append ws.agents (agents_of rest))

  health-counted :
      (t : FleetTotals) (wss : List (Workspace Config))
      → (add_workspaces t wss).healthy + (add_workspaces t wss).unreachable
        ≡ t.healthy + t.unreachable + length wss
  unfolding add_workspaces add_workspace
  health-counted t [] = omega arith
  health-counted t (ws ∷ rest) = ground (arith, health-counted (add_workspace t ws) rest)

  -- The overview's numbers add up: the counts by status are those of all the agents of the fleet in one
  -- list, each agent is counted under one status, and each workspace as healthy or unreachable.
  totals_add_up :
      (snap : FleetSnapshot Config)
      → ((totals snap).statuses ≡ count_statuses (agents_of snap.workspaces))
        × ((totals snap).agents ≡ length (agents_of snap.workspaces))
        × (total (totals snap).statuses ≡ (totals snap).agents)
        × ((totals snap).healthy + (totals snap).unreachable ≡ (totals snap).workspaces)
        × ((totals snap).workspaces ≡ length snap.workspaces)
  unfolding totals fresh_totals count_statuses no_counts total
  totals_add_up snap =
      let agents = agents-counted (fresh_totals snap) snap.workspaces in
      let statuses = statuses-counted (fresh_totals snap) snap.workspaces in
      (
        statuses,
        ground (arith, agents),
        ground (arith, ap total statuses, total-from no_counts (agents_of snap.workspaces), agents),
        ground (
          arith,
          health-counted (fresh_totals snap) snap.workspaces,
          workspaces-kept (fresh_totals snap) snap.workspaces,
        ),
        workspaces-kept (fresh_totals snap) snap.workspaces,
      )

module _ (digest : String → String → AgentStatus → ℕ) where
  digests : List Agent → ℕ
  digests [] = 0
  digests (a ∷ rest) = digest a.id a.workspace a.status + digests rest

  digest_of : Agent → ℕ
  digest_of a = digest a.id a.workspace a.status

  digests-perm : {xs ys : List Agent} → Permᴰ xs ys → digests xs ≡ digests ys
  unfolding digests digest_of
  digests-perm Permᴰ.nil = refl
  digests-perm (Permᴰ.cons e p) = ground (arith, ap digest_of e, digests-perm p)
  digests-perm (Permᴰ.swap e f) = ground (arith, ap digest_of e, ap digest_of f)
  digests-perm (Permᴰ.trans p q) = digests-perm p ∙ digests-perm q

  key_of_agents-append :
      (key : ℕ) (xs ys : List Agent)
      → key_of_agents digest key (xs ++ ys) ≡ key_of_agents digest (key_of_agents digest key xs) ys
  unfolding key_of_agents
  key_of_agents-append key [] ys = refl
  key_of_agents-append key (a ∷ rest) ys =
      key_of_agents-append ((key + digest a.id a.workspace a.status) % 2 ^ 64) rest ys

  key_of_all :
      {Config : Type 0} (key : ℕ) (wss : List (Workspace Config))
      → key_of_workspaces digest key wss ≡ key_of_agents digest key (agents_of wss)
  unfolding key_of_workspaces key_of_agents
  key_of_all key [] = refl
  key_of_all key (ws ∷ rest) =
      key_of_all (key_of_agents digest key ws.agents) rest
      ∙ sym (key_of_agents-append key ws.agents (agents_of rest))

  key-digests :
      (key : ℕ) (xs : List Agent)
      → key_of_agents digest (key % 2 ^ 64) xs ≡ (key + digests xs) % 2 ^ 64
  unfolding key_of_agents digests
  key-digests key [] = ground arith
  key-digests key (a ∷ rest) =
      let d = digest a.id a.workspace a.status in
      ap (λ k. key_of_agents digest k rest) (mod-add-mod key (2 ^ 64) d)
      ∙ key-digests (key + d) rest
      ∙ ap (λ n. n % 2 ^ 64) {x = key + d + digests rest} {y = key + (d + digests rest)}
          (omega arith)

  -- The key does not depend on the order of the workspaces or of their agents: snapshots whose agents
  -- are the same up to order have the same key.
  activity_key-perm :
      {Config : Type 0} (snap snap' : FleetSnapshot Config)
      → Permᴰ (agents_of snap.workspaces) (agents_of snap'.workspaces)
      → activity_key digest snap ≡ activity_key digest snap'
  unfolding activity_key
  activity_key-perm snap snap' p =
      key_of_all 0 snap.workspaces
      ∙ key-digests 0 (agents_of snap.workspaces)
      ∙ ap (λ n. (0 + n) % 2 ^ 64) (digests-perm p)
      ∙ sym (key-digests 0 (agents_of snap'.workspaces))
      ∙ sym (key_of_all 0 snap'.workspaces)
