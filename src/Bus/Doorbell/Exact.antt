-- ===== src/Bus/Doorbell/Exact.antt =====
-- What a subscriber of the doorbell receives.
use Prim.Native.String.append
use Prim.Native.String.{◌++◌ as str_append}
use Prim.Native.Char.{Char}
use mathlib.Core.List.{append_assoc, append-nil, map-append}
use prospero.Prelude.{
  ℕ, zero, suc, ◌+◌, ◌/◌, ◌%◌, ◌≤◌, ◌<◌, max, ◌≡◌, refl, ap, sym, ◌∙◌, Bool, true, false, Option,
  none, some, List, [], ◌∷◌, ◌++◌, map, String, ltb, leb, not, if◌then◌else◌, if_lem, take, drop,
  filter, length, arith,
}
use prospero.Error.{Result, ok, err}
use prospero.Model.Event.{FleetEvent, stream_key}
use prospero.Bus.{BusEvent}
use prospero.Bus.Doorbell.{
  digit, decimals, show_u64, payload_of, last_cut, rsplit_colon, Notice, forward, answered, heard,
  listen, subscribe,
}
use prospero.Store.Query.{replay, on_stream}
use prospero.Store.Order.{replay_from}

digit-rsplit_colon : (n : ℕ) → rsplit_colon (digit n) ≡ none
unfolding digit rsplit_colon last_cut
digit-rsplit_colon zero = refl
digit-rsplit_colon (suc zero) = refl
digit-rsplit_colon (suc (suc zero)) = refl
digit-rsplit_colon (suc (suc (suc zero))) = refl
digit-rsplit_colon (suc (suc (suc (suc zero)))) = refl
digit-rsplit_colon (suc (suc (suc (suc (suc zero))))) = refl
digit-rsplit_colon (suc (suc (suc (suc (suc (suc zero)))))) = refl
digit-rsplit_colon (suc (suc (suc (suc (suc (suc (suc zero))))))) = refl
digit-rsplit_colon (suc (suc (suc (suc (suc (suc (suc (suc zero)))))))) = refl
digit-rsplit_colon (suc (suc (suc (suc (suc (suc (suc (suc (suc n))))))))) = refl

-- A text without a colon in it.
abbrev HasNone : String → Type 0
HasNone s = rsplit_colon s ≡ none

last_cut-rsplit :
    (c : Char) (a b : String) (o o' : Option (String × String))
    → last_cut c a o ≡ none
    → (o ≡ none → o' ≡ none)
    → last_cut c b o' ≡ none
unfolding last_cut
last_cut-rsplit c a b none o' h k = rw (k refl) (ground (arith, h))
last_cut-rsplit c a b (some (before, after)) o' h k = absurd (ground (arith, h))

append-HasNone : (a b : String) → HasNone a → HasNone b → HasNone (str_append a b)
unfolding rsplit_colon
append-HasNone String.[] b h k = rw (append.nil b) k
append-HasNone (String.◌∷◌ c a) b h k = rw (append.cons c a b) (
    last_cut-rsplit c a (str_append a b) (rsplit_colon a) (rsplit_colon (str_append a b)) h
      (λ p. append-HasNone a b p k))

decimals-HasNone : (fuel n : ℕ) → HasNone (decimals fuel n)
unfolding decimals rsplit_colon
decimals-HasNone zero n = refl
decimals-HasNone (suc fuel) n = if_lem HasNone (ltb n 10) (digit-rsplit_colon n) (
    append-HasNone (decimals fuel (n / 10)) (digit (n % 10)) (decimals-HasNone fuel (n / 10))
      (digit-rsplit_colon (n % 10)))

-- The last colon is the one before the digits, whatever the key has.
rsplit_colon-append :
    (key t : String) → HasNone t → rsplit_colon (str_append key (str_append ":" t)) ≡ some (key, t)
unfolding rsplit_colon last_cut
rsplit_colon-append String.[] t h =
    rw (append.nil (str_append ":" t), append.cons _ "" t, append.nil t, h) refl
rsplit_colon-append (String.◌∷◌ c key) t h =
    rw (append.cons c key (str_append ":" t), rsplit_colon-append key t h) refl

rsplit_colon-payload_of :
    {V : Type 0} (e : FleetEvent V)
    → rsplit_colon (payload_of e) ≡ some (stream_key e, show_u64 e.seq)
unfolding payload_of show_u64
rsplit_colon-payload_of e =
    rsplit_colon-append (stream_key e) (decimals 20 e.seq) (decimals-HasNone 20 e.seq)

-- An event whose notification is heard, and the log that the store has at that moment, if it can be
-- read.
pub record Ring (V : Type 0) : Type 0 where
  pub event : FleetEvent V
  pub log : Result (List (FleetEvent V))

max_suc : (d p : ℕ) → max (suc d) (suc p) ≡ suc (max d p)
max_suc d p = omega arith

zero-max : (p : ℕ) → max zero p ≡ p
zero-max p = omega arith

max-zero : (d : ℕ) → max (suc d) zero ≡ suc d
max-zero d = omega arith

module _ {V : Type 0} where
  -- The numbers rise strictly, from above `n`.
  abbrev pub Rising : ℕ → List (FleetEvent V) → Type 0
  Rising n [] = Unit
  Rising n (e ∷ rest) = (n < e.seq) × Rising e.seq rest

  -- The last number, or `n`.
  abbrev mark : ℕ → List (FleetEvent V) → ℕ
  mark n [] = n
  mark n (e ∷ rest) = mark e.seq rest

  abbrev above : ℕ → List (FleetEvent V) → List (FleetEvent V)
  above n = filter (λ (e : FleetEvent V). leb (n + 1) e.seq)

  mark-take_le : (n d : ℕ) (all : List (FleetEvent V)) → Rising n all → n ≤ mark n (take d all)
  mark-take_le n zero all r = omega arith
  mark-take_le n (suc d) [] r = omega arith
  mark-take_le n (suc d) (x ∷ xs) r = omega (arith, mark-take_le x.seq d xs r.1, r.0)

  above-take :
      (m n p : ℕ) (all : List (FleetEvent V))
      → Rising n all
      → m ≤ n
      → above m (take p all) ≡ take p all
  above-take m n zero all r h = refl
  above-take m n (suc p) [] r h = refl
  above-take m n (suc p) (x ∷ xs) r h = ground (arith, above-take m x.seq p xs r.1, r.0)

  -- What lies above the first `d` events in what a read sees.
  above-mark :
      (n d p : ℕ) (all : List (FleetEvent V))
      → Rising n all
      → above (mark n (take d all)) (take p all) ≡ drop d (take p all)
  above-mark n zero p all r = above-take n n p all r (omega arith)
  above-mark n (suc d) zero all r = refl
  above-mark n (suc d) (suc p) [] r = refl
  above-mark n (suc d) (suc p) (x ∷ xs) r =
      ground (arith, above-mark x.seq d p xs r.1, mark-take_le x.seq d xs r.1)

  forward-take :
      (n p : ℕ) (all : List (FleetEvent V))
      → Rising n all
      → forward n (take p all) ≡ (mark n (take p all), map BusEvent.event (take p all))
  unfolding forward
  forward-take n zero all r = refl
  forward-take n (suc p) [] r = refl
  forward-take n (suc p) (x ∷ xs) r = ground (arith, forward-take x.seq p xs r.1, r.0)

  forward-drop :
      (n d p : ℕ) (all : List (FleetEvent V))
      → Rising n all
      → forward (mark n (take d all)) (drop d (take p all))
        ≡ (mark n (take (max d p) all), map BusEvent.event (drop d (take p all)))
  unfolding forward
  forward-drop n zero p all r = rw (zero-max p) (forward-take n p all r)
  forward-drop n (suc d) zero all r = rw (max-zero d) refl
  forward-drop n (suc d) (suc p) [] r = rw (max_suc d p) refl
  forward-drop n (suc d) (suc p) (x ∷ xs) r = rw (max_suc d p) (forward-drop x.seq d p xs r.1)

  take-drop :
      (d p : ℕ) (all : List (FleetEvent V)) → take d all ++ drop d (take p all) ≡ take (max d p) all
  take-drop zero p all = rw (zero-max p) refl
  take-drop (suc d) zero all = rw (max-zero d) (append-nil _)
  take-drop (suc d) (suc p) [] = rw (max_suc d p) refl
  take-drop (suc d) (suc p) (x ∷ xs) = rw (max_suc d p) (ap (◌∷◌ x) (take-drop d p xs))

  abbrev answer : Result (List (FleetEvent V)) → String → ℕ → Result (List (FleetEvent V))
  answer (err e) key from_seq = err e
  answer (ok log) key from_seq = ok (replay key from_seq log)

  abbrev pub notice_of : Ring V → Notice V
  notice_of ring = record { payload = payload_of ring.event; replay = answer ring.log }

  abbrev Sees : String → List (FleetEvent V) → Result (List (FleetEvent V)) → Type 0
  Sees key all (err e) = Unit
  Sees key all (ok log) = replay key 0 log ≡ take (length (replay key 0 log)) all

  -- Each log that can be read has the first events of the stream, however many.
  abbrev pub AllSee : String → List (FleetEvent V) → List (Ring V) → Type 0
  AllSee key all [] = Unit
  AllSee key all (ring ∷ rest) = Sees key all ring.log × AllSee key all rest

  abbrev reached : String → ℕ → Result (List (FleetEvent V)) → ℕ
  reached key n (err e) = n
  reached key n (ok log) = max n (length (replay key 0 log))

  -- How many events of the stream the fullest log had that could be read when one of the stream's own
  -- notifications was heard.
  abbrev pub farthest : String → ℕ → List (Ring V) → ℕ
  farthest key n [] = n
  farthest key n (ring ∷ rest) =
      farthest key (if on_stream key ring.event then reached key n ring.log else n) rest

  -- What is delivered takes the stream's first `n` events to its first `n'`.
  abbrev Takes : List (FleetEvent V) → ℕ → ℕ → ℕ × List (BusEvent V) → Type 0
  Takes all n n' result =
      (es : List (FleetEvent V)) × (result ≡ (mark 0 (take n' all), map BusEvent.event es))
      × (take n all ++ es ≡ take n' all)

  answered-Takes :
      (key : String) (all : List (FleetEvent V)) (n : ℕ) (log : Result (List (FleetEvent V)))
      → Rising 0 all
      → Sees key all log
      → Takes all n
          (reached key n log)
          (answered (mark 0 (take n all)) (answer log key (mark 0 (take n all) + 1)))
  unfolding answered
  answered-Takes key all n (err e) r s = ([], refl, append-nil _)
  answered-Takes key all n (ok log) r s =
      let p = length (replay key 0 log) in
      (
        drop n (take p all),
        ap (forward (mark 0 (take n all))) (
              replay_from key (mark 0 (take n all) + 1) log
              ∙ ap (above (mark 0 (take n all))) s
              ∙ above-mark 0 n p all r)
            ∙ forward-drop 0 n p all r,
        take-drop n p all,
      )

  chosen :
      (all : List (FleetEvent V)) (n : ℕ) (b : Bool) (n' : ℕ) (result : ℕ × List (BusEvent V))
      → Takes all n n' result
      → Takes all n (if b then n' else n) (if not b then (mark 0 (take n all), []) else result)
  chosen all n true n' result h = h
  chosen all n false n' result h = ([], refl, append-nil _)

  heard-Takes :
      (key : String) (all : List (FleetEvent V)) (n : ℕ) (ring : Ring V)
      → Rising 0 all
      → Sees key all ring.log
      → Takes all n
          (if on_stream key ring.event then reached key n ring.log else n)
          (heard key (mark 0 (take n all)) (notice_of ring) (rsplit_colon (payload_of ring.event)))
  unfolding heard
  heard-Takes key all n ring r s =
      rw (rsplit_colon-payload_of ring.event)
        (chosen all n (on_stream key ring.event) _ _ (answered-Takes key all n ring.log r s))

  listen-farthest :
      (key : String) (all : List (FleetEvent V)) (n : ℕ) (rings : List (Ring V))
      → Rising 0 all
      → AllSee key all rings
      → map BusEvent.event (take n all) ++ listen key (mark 0 (take n all)) (map notice_of rings)
        ≡ map BusEvent.event (take (farthest key n rings) all)
  unfolding listen
  listen-farthest key all n [] r s = append-nil _
  listen-farthest key all n (ring ∷ rest) r (s, ss) =
      let n' = if on_stream key ring.event then reached key n ring.log else n in
      let (es, e, k) = heard-Takes key all n ring r s in
      rw e (
        sym (append_assoc (map BusEvent.event (take n all)) _ _)
        ∙ ap (λ out. out ++ listen key (mark 0 (take n' all)) (map notice_of rest))
            (sym (map-append BusEvent.event (take n all) es) ∙ ap (map BusEvent.event) k)
        ∙ listen-farthest key all n' rest r ss)

  -- A subscriber of a stream receives the stream's events from the first on, in order, each once, as
  -- far as the fullest log went that it could read at a notification of that stream: whatever
  -- notifications of it are missed, come twice or come late, whatever ones of other streams come
  -- between, and whichever reads fail; if every log has the first events of the stream and their
  -- numbers rise from 1.
  pub subscribe_exact :
      (key : String) (all : List (FleetEvent V)) (rings : List (Ring V))
      → Rising 0 all
      → AllSee key all rings
      → subscribe true key (map notice_of rings)
        ≡ map BusEvent.event (take (farthest key 0 rings) all)
  unfolding subscribe
  subscribe_exact key all rings r s = listen-farthest key all 0 rings r s
