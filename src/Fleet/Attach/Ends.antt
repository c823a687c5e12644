-- ===== src/Fleet/Attach/Ends.antt =====
-- That an attach task ends: a stream of finitely many lines lets it connect only so often.
use native.Mathlib.Nat.{mul-le-mul_right, sub-zero, add-mul}
use prospero.Prelude.{
  ℕ, suc, ◌+◌, ◌-◌, ◌*◌, ◌≤◌, ◌<◌, ◌≡◌, refl, Bool, true, false, ◌||◌, Option, none, some, List, [],
  ◌∷◌, String, arith, ltb, leb, if◌then◌else◌, if_lem, if_cases, length, length-append, All, ap,
}
use prospero.Error.{Result, ok, err}
use prospero.Json.{Value}
use prospero.Fleet.Emitter.{Emitter}
use prospero.Fleet.Attach.{
  Attach, Setup, Try, Read, attach_once, attach_from, attach_loop, is_final,
}
use prospero.Fleet.Attach.Replay.{lines, IsReplay, attach_once_resumes}

-- The tries that are left, over a stream of `n` lines: as many as the budget for each line that no
-- connection has read, and what is left of the budget.
abbrev pub tries_left : (max_retries n seen attempt : ℕ) → ℕ
tries_left max_retries n seen attempt = (n - seen) * max_retries + (max_retries - attempt)

tries_left_progress :
    (m n seen seen' attempt : ℕ)
    → seen < seen'
    → seen' ≤ n
    → 0 < m
    → tries_left m n seen' 1 < tries_left m n seen attempt
tries_left_progress m n seen seen' attempt h k z =
    let d : suc (n - seen') ≤ n - seen = omega arith in omega (arith, mul-le-mul_right m d)

tries_left_chosen :
    (m n seen seen' attempt : ℕ) (b : Bool)
    → (b ≡ true → seen < seen')
    → (b ≡ false → seen' ≡ seen)
    → let attempt' = if b then 0 else attempt in
      seen' ≤ n
      → attempt' + 1 ≤ m
      → tries_left m n seen' (attempt' + 1) < tries_left m n seen attempt
tries_left_chosen m n seen seen' attempt true p q k l =
    tries_left_progress m n seen seen' attempt (p refl) k l
tries_left_chosen m n seen seen' attempt false p q k l = rw (q refl) (omega (arith, l))

tries_left_less :
    (m n seen seen' attempt : ℕ)
    → let attempt' = if ltb seen seen' then 0 else attempt in
      seen ≤ seen'
      → seen' ≤ n
      → attempt' + 1 ≤ m
      → tries_left m n seen' (attempt' + 1) < tries_left m n seen attempt
tries_left_less m n seen seen' attempt h k l =
    tries_left_chosen m n seen seen' attempt (ltb seen seen') (λ e. ground (arith, e))
      (λ e. ground (arith, e, h)) k l

ends_start : (n m tries : ℕ) → (n + 1) * m < tries → tries_left m n 0 0 < tries
ends_start n m tries h = rw (sub-zero) (omega (arith, h, add-mul n 1 m))

-- The task has a result.
abbrev pub IsOver {ℓ} : {A : Type ℓ} → Option A → Type 0
IsOver none = ⊥
IsOver (some a) = Unit

module _ (setup : Setup) where
  open setup use {api, backoff}
  open api use {Store}

  attach_once_seen :
      (stream : List String) (att : Attach Store) (opened : Result (List Read))
      → IsReplay stream opened
      → att.frames_seen ≤ length stream
      → (att.frames_seen ≤ (attach_once setup att opened).0.frames_seen)
        × ((attach_once setup att opened).0.frames_seen ≤ length stream)
  unfolding attach_once
  attach_once_seen stream att (err e) h k = omega arith
  attach_once_seen stream att (ok reads) (rest, h) k =
      let (e, emitted) = attach_once_resumes setup att reads in
      omega (arith, e, k, length-append (lines reads) rest, ap length h)

  attach_from_ends :
      (stream : List String) (tries : List Try) (att : Attach Store) (attempt : ℕ)
      → All (λ t. IsReplay stream t.opened) tries
      → att.frames_seen ≤ length stream
      → attempt ≤ backoff.max_retries
      → tries_left backoff.max_retries (length stream) att.frames_seen attempt < length tries
      → IsOver (attach_from setup att attempt tries).1
  unfolding attach_from
  attach_from_ends stream [] att attempt h k a m = omega arith
  attach_from_ends stream (t ∷ tries) att attempt (h, hs) k a m =
      let (att', outcome) = attach_once setup att t.opened in
      let (grows, bounded) = attach_once_seen stream att t.opened h k in
      let attempt' = if ltb att.frames_seen att'.frames_seen then 0 else attempt in
      let P = λ (p : Attach Store × Option (Result (Unit {0}))). IsOver p.1 in
      if_lem P (is_final outcome || t.stopped) tt (
        if_cases P (leb backoff.max_retries attempt') (λ spent. tt)
          (λ left.
            let within : attempt' + 1 ≤ backoff.max_retries = ground (arith, left) in
            let fewer =
              tries_left_less backoff.max_retries (length stream) att.frames_seen att'.frames_seen
                attempt grows bounded within in
            if_lem P t.stopped_waiting tt (
              attach_from_ends stream tries att' (attempt' + 1) hs bounded within
                (omega (arith, m, fewer)))))

  -- A task whose connections all deliver the same stream is over after at most one try more than
  -- `max_retries` for each of its lines and `max_retries` more: it has a result by then, whatever the
  -- connections do and whenever they break.
  pub attach_loop_ends :
      (stream : List String) (em : Emitter Store Value) (unknown_frames : ℕ) (tries : List Try)
      → All (λ t. IsReplay stream t.opened) tries
      → (length stream + 1) * backoff.max_retries < length tries
      → IsOver (attach_loop setup em unknown_frames tries).1
  unfolding attach_loop
  attach_loop_ends stream em unknown_frames tries h m =
      attach_from_ends stream tries _ 0 h (omega arith) (omega arith)
        (ends_start (length stream) backoff.max_retries (length tries) m)
