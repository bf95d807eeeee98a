-- ===== src/Json.antt =====
-- JSON values, as `json.load` returns them.
use Prim.Native.String.{String}
use mathlib.Core.Bool.{Bool, ◌||◌, true, false}
use mathlib.Core.Option.{Option, none, some}
use mathlib.Core.List.{List, [], ◌∷◌}
use text.Mathlib.Text.{◌==◌ as str_eq}
use dm_simulator.Base.Int.{ℤ}
use dm_simulator.Base.{if◌then◌else◌, Result, ok, err, key_error, type_error, attribute_error}
use dm_simulator.Text.{has}

-- `F` is the type of floats. A member that stands twice has its last value.
mutual
  pub data Json (F : Type 0) : Type 0 where
    null : Json F
    flag : Bool → Json F
    integer : ℤ → Json F
    float : F → Json F
    string : String → Json F
    array : Elements F → Json F
    object : Members F → Json F

  pub data Elements (F : Type 0) : Type 0 where
    no_element : Elements F
    element : Json F → Elements F → Elements F

  pub data Members (F : Type 0) : Type 0 where
    no_member : Members F
    member : String → Json F → Members F → Members F

module _ {F : Type 0} where
  abbrev pub or_else : Option (Json F) → Option (Json F) → Option (Json F)
  or_else none o = o
  or_else (some v) o = some v

  -- The value of a member.
  unfoldable pub find_member : Members F → String → Option (Json F)
  find_member no_member key = none
  find_member (member name value members) key =
      or_else (find_member members key) (if str_eq name key then some value else none)

  -- `value.get(key)`: only an object has this method.
  unfoldable pub get_member : Json F → String → Result (Option (Json F))
  get_member (object members) key = ok (find_member members key)
  get_member _ key = err attribute_error

  -- `value.get(key, {})`
  abbrev pub or_empty : Option (Json F) → Json F
  or_empty none = object no_member
  or_empty (some value) = value

  unfoldable pub elements : Elements F → List (Json F)
  elements no_element = []
  elements (element value rest) = value ∷ elements rest

  unfoldable pub member_names : Members F → List (Json F)
  member_names no_member = []
  member_names (member name value members) = string name ∷ member_names members

  unfoldable pub characters : String → List (Json F)
  characters String.[] = []
  characters (String.◌∷◌ c s) = string (String.◌∷◌ c String.[]) ∷ characters s

  -- `for item in value`
  unfoldable pub items : Json F → Result (List (Json F))
  items (array values) = ok (elements values)
  items (object members) = ok (member_names members)
  items (string text) = ok (characters text)
  items _ = err type_error

  abbrev pub is_text : String → Json F → Bool
  is_text key (string text) = str_eq text key
  is_text key _ = false

  abbrev pub is_some : Option (Json F) → Bool
  is_some none = false
  is_some (some v) = true

  unfoldable pub any_text : String → Elements F → Bool
  any_text key no_element = false
  any_text key (element value rest) = is_text key value || any_text key rest

  -- `key in value`
  unfoldable pub has_key : String → Json F → Result Bool
  has_key key (object members) = ok (is_some (find_member members key))
  has_key key (string text) = ok (has text key)
  has_key key (array values) = ok (any_text key values)
  has_key key _ = err type_error

  abbrev pub found : String → Option (Json F) → Result (Json F)
  found key none = err (key_error key)
  found key (some value) = ok value

  -- `value[key]`: only an object takes a text for its index.
  unfoldable pub index : Json F → String → Result (Json F)
  index (object members) key = found key (find_member members key)
  index _ key = err type_error
