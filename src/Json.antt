-- ===== src/Json.antt =====
-- The values of a Python `dict[str, Any]` that came from JSON: tool arguments, metadata and the
-- provider messages. A number is kept as its literal text: the program never computes with one
-- that it reads from such a dict, except for token counts, which have a record of their own.
pub mod Laws
use ftre_agent_core.Prelude.{
  String, Option, none, some, Bool, true, false, List, [], ◌∷◌, ◌==◌, not, if◌then◌else◌,
}

mutual
  pub data Json : Type 0 where
    null : Json
    bool : Bool → Json
    number : String → Json
    str : String → Json
    arr : Items → Json
    obj : Fields → Json

  pub data Items : Type 0 where
    nil : Items
    cons : Json → Items → Items

  -- A dict in insertion order.
  pub data Fields : Type 0 where
    end : Fields
    field : String → Json → Fields → Fields

-- `d.get(key)`, and `key in d` is that it is not `none`
unfoldable pub get : String → Fields → Option Json
get key end = none
get key (field name value rest) = if name == key then some value else get key rest

-- `d[key] = value`: an old key keeps its place, a new one goes last
unfoldable pub put : String → Json → Fields → Fields
put key value end = field key value end
put key value (field name old rest) =
    if name == key then field name value rest else field name old (put key value rest)

-- `d.pop(key, None)`
unfoldable pub remove : String → Fields → Fields
remove key end = end
remove key (field name value rest) =
    let rest' = remove key rest in if name == key then rest' else field name value rest'

unfoldable pub list_of : Items → List Json
list_of nil = []
list_of (cons x xs) = x ∷ list_of xs

unfoldable pub items_of : List Json → Items
items_of [] = nil
items_of (x ∷ xs) = cons x (items_of xs)

-- `bool(value)`; a number's text is never that of a zero in the dicts of this program
abbrev pub truthy : Json → Bool
truthy null = false
truthy (bool b) = b
truthy (number n) = true
truthy (str s) = not (s == "")
truthy (arr nil) = false
truthy (arr (cons x xs)) = true
truthy (obj end) = false
truthy (obj (field k v rest)) = true

-- `bool(d.get(key))`
abbrev pub truthy? : Option Json → Bool
truthy? none = false
truthy? (some v) = truthy v
