-- ===== src/Automation/Template/Bounds.antt =====
-- How long a filled template is.
use Prim.Native.Char.{Char, code}
use Prim.Native.String.append
use Prim.Native.String.{◌++◌ as str_append}
use prospero.Prelude.{
  ℕ, zero, suc, ◌+◌, ◌*◌, ◌-◌, ◌≤◌, ◌<◌, ◌==◌, ◌≡◌, refl, ap, Option, none, some, String, if_cases,
  leb, leb→le, ==_iff, ◌⊎◌, inl, inr, arith, strip_prefix, first_cut, cut, bytes, width, take_bytes,
  trim,
}
use prospero.Json.{Value, null, boolean, u64, other_number, text, array, object}
use prospero.Automation.Template.{
  Unfilled, truncate, rendered, lookup, fill, closed_slot, next_slot, fill_slot, interpolate_from,
  interpolate, max_substitution,
}

-- The text is the prefix and what follows it.
abbrev Follows : String → String → Option String → Type 0
Follows p s none = Unit
Follows p s (some rest) = bytes s ≡ bytes p + bytes rest

Follows-more :
    (c d : Char) (p s : String) (o : Option String)
    → width (code c) ≡ width (code d)
    → Follows p s o
    → Follows (String.◌∷◌ c p) (String.◌∷◌ d s) o
unfolding bytes
Follows-more c d p s none e h = tt
Follows-more c d p s (some rest) e h = omega (arith, e, h)

strip_prefix-Follows : (p s : String) → Follows p s (strip_prefix p s)
unfolding strip_prefix bytes
strip_prefix-Follows String.[] s = omega arith
strip_prefix-Follows (String.◌∷◌ c p) String.[] = tt
strip_prefix-Follows (String.◌∷◌ c p) (String.◌∷◌ d s) =
    if_cases (Follows (String.◌∷◌ c p) (String.◌∷◌ d s)) (code c == code d)
      (λ e.
        Follows-more c d p s (strip_prefix p s)
          (ap width (ground (arith, ==_iff (code c) (code d), e))) (strip_prefix-Follows p s))
      (λ e. tt)

-- The text is what stands before the place, the place, and what stands after.
abbrev Cuts : String → String → Option (String × String) → Type 0
Cuts p s none = Unit
Cuts p s (some (before, after)) = bytes s ≡ bytes before + bytes p + bytes after

first_cut-Cuts :
    (p : String) (c : Char) (s : String) (here : Option String) (later : Option (String × String))
    → Follows p (String.◌∷◌ c s) here
    → Cuts p s later
    → Cuts p (String.◌∷◌ c s) (first_cut c s here later)
unfolding first_cut bytes
first_cut-Cuts p c s (some after) later h k = omega (arith, h)
first_cut-Cuts p c s none none h k = tt
first_cut-Cuts p c s none (some (before, after)) h k = omega (arith, k)

cut-Cuts : (p s : String) → Cuts p s (cut p s)
unfolding cut
cut-Cuts p String.[] = tt
cut-Cuts p (String.◌∷◌ c s) =
    first_cut-Cuts p c s (strip_prefix p (String.◌∷◌ c s)) (cut p s)
      (strip_prefix-Follows p (String.◌∷◌ c s)) (cut-Cuts p s)

bytes-append : (a b : String) → bytes (str_append a b) ≡ bytes a + bytes b
unfolding bytes
bytes-append String.[] b = rw (append.nil b) (omega arith)
bytes-append (String.◌∷◌ c a) b = rw (append.cons c a b) (omega (arith, bytes-append a b))

take_bytes-le : (n : ℕ) (s : String) → bytes (take_bytes n s) ≤ n
unfolding bytes take_bytes
take_bytes-le n String.[] = omega arith
take_bytes-le n (String.◌∷◌ c s) =
    if_cases (λ t. bytes t ≤ n) (leb (width (code c)) n)
      (λ e. omega (arith, leb→le (width (code c)) n e, take_bytes-le (n - width (code c)) s))
      (λ e. omega arith)

marker : bytes " […truncated]" ≡ 15
unfolding bytes width
marker = refl

truncate-le : (s : String) → bytes (truncate s) ≤ 4111
unfolding truncate
truncate-le s =
    if_cases (λ t. bytes t ≤ 4111) (leb (bytes s) max_substitution)
      (λ e. omega (arith, leb→le (bytes s) max_substitution e))
      (λ e.
        rw (bytes-append (take_bytes max_substitution s) " […truncated]")
          (omega (arith, take_bytes-le max_substitution s, marker)))

-- A value that fills a slot is within the cap and its marker.
abbrev IsShort : Unfilled ⊎ String → Type 0
IsShort (inl e) = Unit
IsShort (inr value) = bytes value ≤ 4111

rendered-IsShort :
    (render : Value → String) (path : String) (o : Option Value) → IsShort (rendered render path o)
unfolding rendered
rendered-IsShort render path none = tt
rendered-IsShort render path (some null) = tt
rendered-IsShort render path (some (boolean b)) = truncate-le _
rendered-IsShort render path (some (u64 n)) = truncate-le _
rendered-IsShort render path (some (other_number n)) = truncate-le _
rendered-IsShort render path (some (text s)) = truncate-le s
rendered-IsShort render path (some (array xs)) = truncate-le _
rendered-IsShort render path (some (object es)) = truncate-le _

-- The text is what stands before a slot, the slot, and what stands after it.
abbrev Slots : String → Option (String × String × String) → Type 0
Slots s none = Unit
Slots s (some (before, path, after)) = bytes s ≡ bytes before + 2 + bytes path + 2 + bytes after

closed_slot-Slots :
    (s before after : String) (o : Option (String × String))
    → bytes s ≡ bytes before + 2 + bytes after
    → Cuts "}}" after o
    → Slots s (closed_slot before o)
unfolding closed_slot bytes width
closed_slot-Slots s before after none h k = tt
closed_slot-Slots s before after (some (path, rest)) h k = omega (arith, h, k)

next_slot-Slots :
    (s : String) (o : Option (String × String)) → Cuts "{{" s o → Slots s (next_slot o)
unfolding next_slot bytes width
next_slot-Slots s none h = tt
next_slot-Slots s (some (before, after)) h =
    closed_slot-Slots s before after (cut "}}" after) (omega (arith, h)) (cut-Cuts "}}" after)

-- There is a result, and it is an error or a text within the size.
abbrev pub Fills : ℕ → Option (Unfilled ⊎ String) → Type 0
Fills size none = ⊥
Fills size (some (inl e)) = Unit
Fills size (some (inr out)) = bytes out ≤ 1028 * size

fill-Fills :
    (before : String) (n size : ℕ) (value : Unfilled ⊎ String) (later : Option (Unfilled ⊎ String))
    → bytes before + 4 + n ≤ size
    → IsShort value
    → Fills n later
    → Fills size (fill before value later)
unfolding fill
fill-Fills before n size (inl e) later h k l = tt
fill-Fills before n size (inr value) none h k l = l
fill-Fills before n size (inr value) (some (inl e)) h k l = tt
fill-Fills before n size (inr value) (some (inr rest)) h k l =
    rw (bytes-append before (str_append value rest), bytes-append value rest)
      (omega (arith, h, k, l))

fill_slot-Fills :
    (render : Value → String) (payload : Value) (rest : String)
    (later : String → Option (Unfilled ⊎ String)) (o : Option (String × String × String))
    → Slots rest o
    → ((after : String) → bytes after < bytes rest → Fills (bytes after) (later after))
    → Fills (bytes rest) (fill_slot render payload rest later o)
unfolding fill_slot lookup
fill_slot-Fills render payload rest later none h k = omega arith
fill_slot-Fills render payload rest later (some (before, path, after)) h k =
    fill-Fills before (bytes after) (bytes rest) (lookup render payload (trim path)) (later after)
      (omega (arith, h)) (rendered-IsShort render (trim path) _) (k after (omega (arith, h)))

interpolate_from-Fills :
    (render : Value → String) (payload : Value) (n : ℕ) (rest : String)
    → bytes rest < n
    → Fills (bytes rest) (interpolate_from render payload n rest)
unfolding interpolate_from
interpolate_from-Fills render payload zero rest h = omega arith
interpolate_from-Fills render payload (suc n) rest h =
    fill_slot-Fills render payload rest (interpolate_from render payload n)
      (next_slot (cut "{{" rest)) (next_slot-Slots rest (cut "{{" rest) (cut-Cuts "{{" rest))
      (λ after k. interpolate_from-Fills render payload n after (omega (arith, h, k)))

-- Whatever the payload, a template is filled in or refused, the fuel being enough, and what it is
-- filled in to has at most 1028 times as many bytes as the template.
pub interpolate-Fills :
    (render : Value → String) (template : String) (payload : Value)
    → Fills (bytes template) (interpolate render template payload)
unfolding interpolate
interpolate-Fills render template payload =
    interpolate_from-Fills render payload (suc (bytes template)) template (omega arith)
