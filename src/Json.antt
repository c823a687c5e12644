-- ===== src/Json.antt =====
-- serde_json's `Value`, with the readings of it that the source makes. An object is the list of its
-- entries in the map's own order. A number is either a `u64` or the spelling of one that is not.
use prospero.Prelude.{ℕ, Bool, Option, none, some, String, str_eq, if◌then◌else◌}

mutual
  pub data Value : Type 0 where
    null : Value
    boolean : Bool → Value
    u64 : ℕ → Value
    other_number : String → Value
    text : String → Value
    array : Items → Value
    object : Entries → Value

  pub data Items : Type 0 where
    nil : Items
    item : Value → Items → Items

  pub data Entries : Type 0 where
    end : Entries
    member : String → Value → Entries → Entries

unfoldable pub get_entry : String → Entries → Option Value
get_entry key end = none
get_entry key (member k v es) = if str_eq k key then some v else get_entry key es

-- `Value::get` with a text: only an object has entries.
unfoldable pub get_field : Value → String → Option Value
get_field (object es) key = get_entry key es
get_field _ key = none

unfoldable pub as_str : Value → Option String
as_str (text s) = some s
as_str _ = none

unfoldable pub as_bool : Value → Option Bool
as_bool (boolean b) = some b
as_bool _ = none

unfoldable pub as_u64 : Value → Option ℕ
as_u64 (u64 n) = some n
as_u64 _ = none

unfoldable pub first_key : Entries → Option String
first_key end = none
first_key (member k v es) = some k
