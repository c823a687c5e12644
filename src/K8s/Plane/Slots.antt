-- ===== src/K8s/Plane/Slots.antt =====
-- Who holds a slot, and what a task that was replaced does when it ends.
use prospero.Prelude.{
  ℕ, ◌==◌, ◌≡◌, ◌≢◌, refl, sym, ap, ◌∙◌, subst, Bool, true, false, not, ◌&&◌, Option, none, some,
  List, [], ◌∷◌, String, str_eq, eq_iff, if_cases, filter, arith, In, inl, inr, ◌⊎◌, get, insert,
  remove, Bool-cases, Option-cases, if_lem, String-cases, get-insert, get-insert_other, get-remove,
  get-remove_other,
}
use prospero.Fleet.Manager.{contains}
use prospero.K8s.Plane.{
  AttachTask, Plane, PodAgentError, has_entry, acquired, reserve, register, registered,
  cleanup_attach, release, end_task, forget_terminal, stopped, stop, without, over, marked,
  is_generation,
}

-- What the callers of `attach` and `stop`, and the tasks, may do to the plane, one piece at a time. A
-- reservation stands for every caller that has passed the guards, however long ago.
pub data Step (p : Plane) : Plane → Type 0 where
  claiming : (id : String) → Step p (acquired p id)
  reserving : (id : String) → Step p (reserve p id)
  registering : (id : String) (generation : ℕ) → Step p (register p id generation)
  ending :
      (id : String) (generation : ℕ) (resolved : PodAgentError ⊎ String)
      → In (id, generation) p.running
      → Step p (end_task p id generation resolved)
  stopping : (id : String) (in_time : Bool) → Step p (stop p id in_time)

pub data Reach (p : Plane) : Plane → Type 0 where
  here : Reach p p
  next : {q r : Plane} → Reach p q → Step q r → Reach p r

abbrev pub empty : Plane
empty = record { attached = []; generation = 0; terminal = []; held = []; running = [] }

-- Each slot is held by a task that runs.
abbrev pub HeldBy : List (String × AttachTask) → List (String × ℕ) → Type 0
HeldBy slots running =
    (id : String) (t : AttachTask) → get id slots ≡ some t → In (id, t.generation) running

abbrev pub IsHeld : Plane → Type 0
IsHeld p = HeldBy p.attached p.running

In-filter :
    {A : Type 0} (f : A → Bool) (x : A) (xs : List A) → f x ≡ true → In x xs → In x (filter f xs)
In-filter f x [] h i = i
In-filter f x (y ∷ rest) h (inl e) = rw (e, h) (inl refl)
In-filter f x (y ∷ rest) h (inr i) =
    if_cases (In x) (f y) (λ q. inr (In-filter f x rest h i)) (λ q. In-filter f x rest h i)

insert-HeldBy :
    (id : String) (t : AttachTask) (slots : List (String × AttachTask))
    (running : List (String × ℕ))
    → HeldBy slots running
    → In (id, t.generation) running
    → HeldBy (insert id t slots) running
insert-HeldBy id t slots running h i k t' e = elim (String-cases id k) [
  | inl p ↦
      let same : t ≡ t' = ground (
        arith,
        get-insert id t slots,
        subst (λ j. get j (insert id t slots) ≡ some t') (sym p) e,
      ) in
      subst (λ j. In (j, t'.generation) running) p
        (subst (λ x. In (id, x.generation) running) same i)
  | inr n ↦ h k t' (sym (get-insert_other k id t slots n) ∙ e)
]

remove-HeldBy :
    (id : String) (slots : List (String × AttachTask)) (running : List (String × ℕ))
    → HeldBy slots running
    → HeldBy (remove id slots) running
remove-HeldBy id slots running h k t e = elim (String-cases id k) [
  | inl p ↦
      absurd (
        ground
          (arith, get-remove id slots, subst (λ j. get j (remove id slots) ≡ some t) (sym p) e))
  | inr n ↦ h k t (sym (get-remove_other k id slots n) ∙ e)
]

-- A task that is over held no slot.
abbrev lasting : String → ℕ → String × ℕ → Bool
lasting id g t = not (str_eq t.0 id && t.1 == g)

over-HeldBy :
    (id : String) (g : ℕ) (slots : List (String × AttachTask)) (running : List (String × ℕ))
    → ((t : AttachTask) → get id slots ≡ some t → (t.generation == g) ≡ false)
    → HeldBy slots running
    → HeldBy slots (filter (lasting id g) running)
over-HeldBy id g slots running other h k t e =
    In-filter (lasting id g) (k, t.generation) running
      (elim (String-cases k id) [
        | inl p ↦ rw (other t (subst (λ j. get j slots ≡ some t) p e)) (ground arith)
        | inr n ↦ ground (arith, eq_iff k id)
      ])
      (h k t e)

reserve-IsHeld : (p : Plane) (id : String) → IsHeld p → IsHeld (reserve p id)
unfolding reserve
reserve-IsHeld p id h = if_lem IsHeld (has_entry (get id p.attached)) h (
    insert-HeldBy id (record { abort = false; generation = p.generation }) p.attached
      ((id, p.generation) ∷ p.running) (λ k t e. inr (h k t e)) (inl refl))

registered-IsHeld :
    (o : Option AttachTask) (id : String) (g : ℕ) (p : Plane)
    → get id p.attached ≡ o
    → IsHeld p
    → IsHeld (registered o id g p)
unfolding registered
registered-IsHeld none id g p e h = h
registered-IsHeld (some t) id g p e h =
    if_lem IsHeld (t.generation == g)
      (insert-HeldBy id (record t { abort = true }) p.attached p.running h (h id t e)) h

marked-IsHeld :
    (p : Plane) (id : String) (resolved : PodAgentError ⊎ String)
    → IsHeld p
    → IsHeld (marked p id resolved)
unfolding marked
marked-IsHeld p id (inl (PodAgentError.terminal e)) h = h
marked-IsHeld p id (inl (PodAgentError.transient e)) h = h
marked-IsHeld p id (inr agent) h = h

is_generation_other :
    (g : ℕ) (o : Option AttachTask) (t : AttachTask)
    → is_generation g o ≡ false
    → o ≡ some t
    → (t.generation == g) ≡ false
unfolding is_generation
is_generation_other g none t h e = absurd (ground (arith, e))
is_generation_other g (some t') t h e = ground (arith, e, h)

cleaned-IsHeld :
    (p : Plane) (id : String) (g : ℕ)
    → IsHeld p
    → IsHeld (over (release (cleanup_attach p id g) id) id g)
unfolding cleanup_attach release over
cleaned-IsHeld p id g h = elim (Bool-cases (is_generation g (get id p.attached))) [
  | inl ours ↦ rw ours (
      over-HeldBy id g (remove id p.attached) p.running
        (λ t e. absurd (ground (arith, get-remove id p.attached, e)))
        (remove-HeldBy id p.attached p.running h))
  | inr other ↦ rw other (
      over-HeldBy id g p.attached p.running
        (λ t e. is_generation_other g (get id p.attached) t other e) h)
]

stopped-IsHeld :
    (p : Plane) (id : String) (in_time : Bool) (o : Option AttachTask)
    → IsHeld p
    → IsHeld (stopped p id in_time o)
unfolding stopped over
stopped-IsHeld p id in_time none h = h
stopped-IsHeld p id in_time (some t) h =
    let free = remove-HeldBy id p.attached p.running h in
    if_lem IsHeld (t.abort && in_time)
      (over-HeldBy id t.generation (remove id p.attached) p.running
        (λ x e. absurd (ground (arith, get-remove id p.attached, e))) free)
      free

stopped_frees :
    (p : Plane) (id : String) (in_time : Bool) (o : Option AttachTask)
    → get id p.attached ≡ o
    → get id (stopped p id in_time o).attached ≡ none
unfolding stopped over
stopped_frees p id in_time none e = e
stopped_frees p id in_time (some t) e =
    if_lem (λ (q : Plane). get id q.attached ≡ none) (t.abort && in_time) (get-remove id p.attached)
      (get-remove id p.attached)

Step-IsHeld : {p q : Plane} → Step p q → IsHeld p → IsHeld q
unfolding acquired register end_task stop release forget_terminal
Step-IsHeld (claiming id) h = h
Step-IsHeld {p} (reserving id) h = reserve-IsHeld p id h
Step-IsHeld {p} (registering id g) h = registered-IsHeld (get id p.attached) id g p refl h
Step-IsHeld {p} (ending id g resolved i) h =
    cleaned-IsHeld (marked p id resolved) id g (marked-IsHeld p id resolved h)
Step-IsHeld {p} (stopping id in_time) h = stopped-IsHeld p id in_time (get id p.attached) h

Reach-IsHeld : {p q : Plane} → IsHeld p → Reach p q → IsHeld q
Reach-IsHeld h here = h
Reach-IsHeld h (next r st) = Step-IsHeld st (Reach-IsHeld h r)

-- In every interleaving of attaching, stopping and ending tasks, an agent has no slot, or one that
-- belongs to a task of the slot's own generation that still runs: a slot does not outlive its task.
pub slots_held :
    (p : Plane) (id : String)
    → Reach empty p
    → (get id p.attached ≡ none)
      ⊎ ((t : AttachTask) × (get id p.attached ≡ some t) × In (id, t.generation) p.running)
unfolding get
slots_held p id r =
    let h = Reach-IsHeld (λ k t e. absurd (ground (arith, e))) r in
    elim (Option-cases (get id p.attached)) [ inl e ↦ inl e | inr (t, e) ↦ inr (t, e, h id t e) ]

contains-without : (id : String) (xs : List String) → contains id (without id xs) ≡ false
unfolding contains without
contains-without id [] = refl
contains-without id (x ∷ rest) = ground (arith, contains-without id rest)

attached-marked :
    (p : Plane) (id : String) (resolved : PodAgentError ⊎ String)
    → (marked p id resolved).attached ≡ p.attached
unfolding marked
attached-marked p id (inl (PodAgentError.terminal e)) = refl
attached-marked p id (inl (PodAgentError.transient e)) = refl
attached-marked p id (inr agent) = refl

cleanup_other :
    (p : Plane) (id : String) (g : ℕ) (t : AttachTask)
    → get id p.attached ≡ some t
    → t.generation ≢ g
    → cleanup_attach p id g ≡ p
unfolding cleanup_attach is_generation
cleanup_other p id g t e n = rw e (ground arith)

-- A task that ends after its slot went to another leaves the other's slot alone, and yet gives back the
-- lease that the other needs: the replica holds it no more.
pub stale_end :
    (p : Plane) (id : String) (g : ℕ) (resolved : PodAgentError ⊎ String) (t : AttachTask)
    → get id p.attached ≡ some t
    → t.generation ≢ g
    → let p' = end_task p id g resolved in
      (get id p'.attached ≡ some t) × (contains id p'.held ≡ false)
unfolding end_task release over
stale_end p id g resolved t e n =
    let e' = ap (get id) (attached-marked p id resolved) ∙ e in
    rw (cleanup_other (marked p id resolved) id g t e' n) (e', contains-without id _)

-- After a stop there is no slot.
pub stop_frees :
    (p : Plane) (id : String) (in_time : Bool) → get id (stop p id in_time).attached ≡ none
unfolding stop release forget_terminal
stop_frees p id in_time = stopped_frees p id in_time (get id p.attached) refl
