-- ===== src/Normalization/Values.antt =====
-- The envelopes of src/mori_soc/collectors/base.py, and how src/mori_soc/services/normalization.py
-- reads their values. A field that an entity declares to be a text, or a list of texts, is given as
-- one; the literal of a number stands for it.
use mori_soc.Prelude.{
  leb, eqb, if◌then◌else◌, contains, ℕ, String, Bool, true, false, not, ◌&&◌, ◌||◌, Option, none,
  some, List, [], ◌∷◌, ◌++◌, ◌==◌,
}
use mori_soc.Prelude.Dict.{Dict, get}
use mori_soc.Inventory.Entities.{
  Json, Items, Fields, null, boolean, number, text, array, object, no_items, item, no_fields,
  with_field,
}
use Prim.Native.Char.{code}

-- A value of an envelope: a JSON value, or a `datetime`.
pub data Value : Type 0 where
  json : Json → Value
  moment : ℕ → Value

pub record Envelope : Type 0 where
  pub entity_type : String
  pub entity_id : String
  pub observed_at : ℕ
  pub source : String
  pub raw_ref : Option String
  pub normalized : Dict Value
  pub raw_payload : Fields

abbrev pub string_value : Option Value → Option String
string_value (some (json (text s))) = if s == "" then none else some s
string_value _ = none

abbrev pub value_of : Envelope → String → Option String
value_of e k = string_value (get e.normalized k)

-- `value or d`
abbrev pub or_string : Option String → String → String
or_string none d = d
or_string (some s) d = s

abbrev pub or_else : Option String → Option String → Option String
or_else none b = b
or_else (some a) b = some a

-- The texts of a list, each once, after those of `aliases`.
unfoldable pub add_aliases : List String → Items → List String
add_aliases aliases no_items = aliases
add_aliases aliases (item (text s) r) =
    add_aliases (if not (s == "") && not (contains aliases s) then aliases ++ s ∷ [] else aliases) r
add_aliases aliases (item _ r) = add_aliases aliases r

abbrev pub listed_aliases : List String → Option Value → List String
listed_aliases aliases (some (json (array xs))) = add_aliases aliases xs
listed_aliases aliases _ = aliases

abbrev pub first? : List String → Option String
first? [] = none
first? (x ∷ xs) = some x

abbrev pub one_or_none : Option String → List String
one_or_none none = []
one_or_none (some p) = p ∷ []

unfoldable pub extract_aliases : Envelope → Option String × List String
unfolding add_aliases get
extract_aliases e =
    let primary = value_of e "host_id" in
    let aliases = listed_aliases (one_or_none primary) (get e.normalized "source_aliases") in
    (or_else primary (first? aliases), aliases)

abbrev pub host_status : Option String → String
host_status none = "unknown"
host_status (some s) = if contains ("online" ∷ "offline" ∷ "unknown" ∷ []) s then s else "unknown"

-- The digits of a JSON number before its exponent: zero is false.
unfoldable pub is_nonzero : String → Bool
is_nonzero String.[] = false
is_nonzero (String.◌∷◌ c s) =
    let rest = is_nonzero s in
    if eqb (code c) 101 || eqb (code c) 69
    then false
    else if leb 49 (code c) && leb (code c) 57
    then true
    else rest

-- `bool(value)`
abbrev pub truthy : Option Value → Bool
truthy none = false
truthy (some (moment t)) = true
truthy (some (json null)) = false
truthy (some (json (boolean b))) = b
truthy (some (json (number s))) = is_nonzero s
truthy (some (json (text s))) = not (s == "")
truthy (some (json (array no_items))) = false
truthy (some (json (array (item _ _)))) = true
truthy (some (json (object no_fields))) = false
truthy (some (json (object (with_field _ _ _)))) = true

abbrev pub moment_of : Option Value → Option ℕ
moment_of (some (moment t)) = some t
moment_of _ = none

unfoldable pub texts_of : Items → List String
texts_of no_items = []
texts_of (item (text s) r) = s ∷ texts_of r
texts_of (item _ r) = texts_of r

abbrev pub text_list : Option Value → List String
text_list (some (json (array xs))) = texts_of xs
text_list _ = []

abbrev pub fields_of : Option Value → Fields
fields_of (some (json (object fs))) = fs
fields_of _ = no_fields

unfoldable pub get_field : Fields → String → Option Json
get_field no_fields k = none
get_field (with_field j v r) k = let rest = get_field r k in if j == k then some v else rest

abbrev pub field_text : Fields → String → Option String
field_text fs k = elim (get_field fs k) [ none ↦ none | some v ↦ string_value (some (json v)) ]
