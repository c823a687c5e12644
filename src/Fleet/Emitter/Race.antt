-- ===== src/Fleet/Emitter/Race.antt =====
-- `Emitter::next_seq` under concurrent tasks of one process, for one stream: the lock is not held
-- while the durable high-water mark is read, so another task may number events in between. A read that
-- fails counts as 0, a conflict makes a task forget the counter, and other replicas write too.
use prospero.Prelude.{
  ℕ, ◌+◌, ◌≡◌, max, zero, suc, length, Option, none, some, List, [], ◌∷◌, All, In,
}

-- `mark` is the durable high-water mark, `reading` what tasks have read of it and not yet used, and
-- `issued` the numbers given out, the latest first.
pub record Stream : Type 0 where
  pub counter : Option ℕ
  pub mark : ℕ
  pub reading : List ℕ
  pub issued : List ℕ

-- The number that the second critical section gives out.
unfoldable pub next_after : Option ℕ → ℕ → ℕ
next_after (some n) seeded = n + 1
next_after none seeded = seeded + 1

unfoldable pub issue : Stream → ℕ → Stream
issue s n = record s { counter = some n; issued = n ∷ s.issued }

-- One atomic action of some task: the two critical sections, the read between them, which may fail, the
-- write of a numbered event, and the forgetting of the counter after a conflict; or the write of a number
-- by another replica.
pub data Step (s : Stream) : Stream → Type 0 where
  fast : (n : ℕ) → s.counter ≡ some n → Step s (issue s (n + 1))
  read : s.counter ≡ none → Step s (record s { reading = s.mark ∷ s.reading })
  seed : (seeded : ℕ) → In seeded s.reading → Step s (issue s (next_after s.counter seeded))
  append : (n : ℕ) → In n s.issued → Step s (record s { mark = max s.mark n })
  failed_read : s.counter ≡ none → Step s (record s { reading = 0 ∷ s.reading })
  reseed : Step s (record s { counter = none })
  elsewhere : (n : ℕ) → Step s (record s { mark = max s.mark n })

pub data Reach (s : Stream) : Stream → Type 0 where
  here : Reach s s
  next : {t u : Stream} → Reach s t → Step t u → Reach s u

-- A task numbers or writes, or reads with success.
abbrev pub IsCalmStep : {s t : Stream} → Step s t → Type 0
IsCalmStep (fast n e) = Unit
IsCalmStep (read e) = Unit
IsCalmStep (seed seeded i) = Unit
IsCalmStep (append n i) = Unit
IsCalmStep (failed_read e) = ⊥
IsCalmStep reseed = ⊥
IsCalmStep (elsewhere n) = ⊥

-- No read fails, no task forgets the counter, and no other replica writes.
abbrev pub IsCalm : {s t : Stream} → Reach s t → Type 0
IsCalm here = Unit
IsCalm (next r step) = IsCalm r × IsCalmStep step

abbrev pub start : ℕ → Stream
start mark = record { counter = none; mark = mark; reading = []; issued = [] }

-- `mark + k`, …, `mark + 1`.
abbrev pub descending : ℕ → ℕ → List ℕ
descending mark zero = []
descending mark (suc k) = (mark + suc k) ∷ descending mark k

abbrev Counts : ℕ → Option ℕ → ℕ → List ℕ → Type 0
Counts first none mark issued = (issued ≡ []) × (mark ≡ first)
Counts first (some n) mark issued =
    (issued ≡ descending first (length issued)) × (n ≡ first + length issued)

record Inv (first : ℕ) (s : Stream) : Type 0 where
  counts : Counts first s.counter s.mark s.issued
  reads : All (λ n. n ≡ first) s.reading
