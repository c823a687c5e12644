-- ===== src/Deadline/Expiry.antt =====
-- Which agents `expired` selects, and what a timeout beyond an i64 does.
use prospero.Prelude.{
  ℕ, ◌+◌, ◌-◌, ◌*◌, ◌^◌, ◌/◌, ◌≤◌, ◌<◌, ◌≡◌, ◌↔◌, refl, sym, subst, ap, Bool, true, false, Option,
  none, some, List, [], ◌∷◌, ◌++◌, String, leb, get, In, inl, inr, ◌⊎◌, arith, if◌then◌else◌,
}
use prospero.Model.{Agent, is_terminal}
use prospero.Deadline.{come, passed, expired, i64_max, earlier_by, deadline_at, Overdue}

In-append-left : {A : Type 0} (x : A) (xs ys : List A) → In x xs → In x (xs ++ ys)
In-append-left x [] ys i = elim i [ ]
In-append-left x (y ∷ xs) ys (inl e) = inl e
In-append-left x (y ∷ xs) ys (inr i) = inr (In-append-left x xs ys i)

In-append-right : {A : Type 0} (x : A) (xs ys : List A) → In x ys → In x (xs ++ ys)
In-append-right x [] ys i = i
In-append-right x (y ∷ xs) ys i = inr (In-append-right x xs ys i)

In-append : {A : Type 0} (x : A) (xs ys : List A) → In x (xs ++ ys) → In x xs ⊎ In x ys
In-append x [] ys i = inr i
In-append x (y ∷ xs) ys (inl e) = inl (inl e)
In-append x (y ∷ xs) ys (inr i) = elim (In-append x xs ys i) [ inl j ↦ inl (inr j) | inr j ↦ inr j ]

if-In : {A : Type 0} (b : Bool) (x y : A) → In y (if b then x ∷ [] else []) → (b ≡ true) × (x ≡ y)
if-In true x y (inl e) = (refl, e)
if-In true x y (inr i) = elim i [ ]
if-In false x y i = elim i [ ]

come-In :
    (now : ℕ) (a : Agent) (raw id raw' : String) (o : Option ℕ)
    → In (id, raw') (come now a raw o)
    → (a.id ≡ id) × (raw ≡ raw') × ((at : ℕ) × (o ≡ some at) × (at ≤ now))
unfolding come
come-In now a raw id raw' none i = elim i [ ]
come-In now a raw id raw' (some at) i =
    let (b, e) = if-In (leb at now) (a.id, raw) (id, raw') i in
    (ground (arith, e), ground (arith, e), (at, refl, ground arith))

due : (t at now : ℕ) → some t ≡ some at → at ≤ now → leb t now ≡ true
due t at now e h = ground arith

In-come :
    (now at : ℕ) (a : Agent) (raw : String) (o : Option ℕ)
    → o ≡ some at
    → at ≤ now
    → In (a.id, raw) (come now a raw o)
unfolding come
In-come now at a raw none e h = ground arith
In-come now at a raw (some t) e h = rw (due t at now e h) (inl refl)

passed-In :
    (parse : String → Option ℕ) (now : ℕ) (a : Agent) (o : Option String) (id raw : String)
    → In (id, raw) (passed parse now a o)
    → (a.id ≡ id) × (o ≡ some raw) × ((at : ℕ) × (parse raw ≡ some at) × (at ≤ now))
unfolding passed
passed-In parse now a none id raw i = elim i [ ]
passed-In parse now a (some raw') id raw i =
    let (e, same, (at, p, h)) = come-In now a raw' id raw (parse raw') i in
    (e, ap some same, (at, subst (λ r. parse r ≡ some at) same p, h))

In-passed :
    (parse : String → Option ℕ) (now at : ℕ) (a : Agent) (o : Option String) (id raw : String)
    → a.id ≡ id
    → o ≡ some raw
    → parse raw ≡ some at
    → at ≤ now
    → In (id, raw) (passed parse now a o)
unfolding passed
In-passed parse now at a o id raw e q p h =
    subst (λ x. In (x, raw) (passed parse now a o)) e
      (subst (λ x. In (a.id, raw) (passed parse now a x)) (sym q)
        (In-come now at a raw (parse raw) p h))

In-else :
    {A : Type 0} (b : Bool) (x : A) (xs ys : List A)
    → In x (if b then ys else xs ++ ys)
    → ((b ≡ false) × In x xs) ⊎ In x ys
In-else true x xs ys i = inr i
In-else false x xs ys i = elim (In-append x xs ys i) [ inl j ↦ inl (refl, j) | inr j ↦ inr j ]

else-here :
    {A : Type 0} (b : Bool) (x : A) (xs ys : List A)
    → b ≡ false
    → In x xs
    → In x (if b then ys else xs ++ ys)
else-here true x xs ys e i = ground arith
else-here false x xs ys e i = In-append-left x xs ys i

else-later :
    {A : Type 0} (b : Bool) (x : A) (xs ys : List A) → In x ys → In x (if b then ys else xs ++ ys)
else-later true x xs ys i = i
else-later false x xs ys i = In-append-right x xs ys i

expired_sound :
    (parse : String → Option ℕ) (now : ℕ) (deadlines : List (String × String)) (agents : List Agent)
    (id raw : String)
    → In (id, raw) (expired parse now deadlines agents)
    → (a : Agent) × In a agents × Overdue parse now deadlines id raw a
unfolding expired passed
expired_sound parse now deadlines [] id raw i = elim i [ ]
expired_sound parse now deadlines (a ∷ rest) id raw i =
    elim (In-else (is_terminal a.status) (id, raw) (passed parse now a (get a.id deadlines))
      (expired parse now deadlines rest) i) [
        | inl (live, j) ↦
            let (e, o, at) = passed-In parse now a (get a.id deadlines) id raw j in
            (a, inl refl, (e, live, o, at))
        | inr j ↦ let (b, k, o) = expired_sound parse now deadlines rest id raw j in (b, inr k, o)
      ]

expired_complete :
    (parse : String → Option ℕ) (now : ℕ) (deadlines : List (String × String)) (agents : List Agent)
    (id raw : String) (a : Agent)
    → In a agents
    → Overdue parse now deadlines id raw a
    → In (id, raw) (expired parse now deadlines agents)
unfolding expired passed
expired_complete parse now deadlines [] id raw a i o = elim i [ ]
expired_complete parse now deadlines (b ∷ rest) id raw a (inl e) o =
    subst (λ c. In (id, raw) (expired parse now deadlines (c ∷ rest))) (sym e)
      (else-here (is_terminal a.status) (id, raw) (passed parse now a (get a.id deadlines))
        (expired parse now deadlines rest) o.1
        (In-passed parse now o.3.0 a (get a.id deadlines) id raw o.0 o.2 o.3.1 o.3.2))
expired_complete parse now deadlines (b ∷ rest) id raw a (inr i) o =
    else-later (is_terminal b.status) (id, raw) (passed parse now b (get b.id deadlines))
      (expired parse now deadlines rest) (expired_complete parse now deadlines rest id raw a i o)

-- `expired` selects an id with a deadline exactly when one of the agents has that id, has not stopped, and
-- has that deadline, which can be read and has come.
pub expired_iff :
    (parse : String → Option ℕ) (now : ℕ) (deadlines : List (String × String)) (agents : List Agent)
    (id raw : String)
    → In (id, raw) (expired parse now deadlines agents)
      ↔ ((a : Agent) × In a agents × Overdue parse now deadlines id raw a)
expired_iff parse now deadlines agents id raw = (
  expired_sound parse now deadlines agents id raw,
  λ (a, i, o). expired_complete parse now deadlines agents id raw a i o,
)

-- A timeout of which the u64 is within `i64::MAX / 1000` of `2 ^ 64`, and no further from it in seconds than
-- the start is from the first moment of a DateTime, gives a deadline before the start.
pub huge_timeout :
    (latest started secs : ℕ)
    → secs < 2 ^ 64
    → 2 ^ 64 ≤ secs + i64_max / 1000
    → 1000 * (2 ^ 64 - secs) ≤ started
    → (at : ℕ) × (deadline_at latest started secs ≡ some (some at)) × (at < started)
unfolding deadline_at earlier_by
huge_timeout latest started secs h k l =
    (started - 1000 * (2 ^ 64 - secs), ground arith, omega arith)
