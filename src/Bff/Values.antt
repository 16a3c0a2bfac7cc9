-- ===== src/Bff/Values.antt =====
-- Python's view of JSON values: `json.loads` of a body, `get`, `pop`, `str` and truth.
use substy.Base.{
  Bool, true, false, not, ◌||◌, Option, none, some, [], ◌∷◌, String, truthy, str_eq, if◌then◌else◌,
  Json, Items, Fields, Outcome, ok, err, external,
}
use substy.Bff.Model.{Library, Bytes, loaded, json_error, unicode_error}

abbrev pub object_of : Json → Option Fields
object_of (Json.object fields) = some fields
object_of _ = none

-- Only JSONDecodeError is caught.
unfoldable pub as_json_dict : Library → Bytes → Outcome (Option Fields)
as_json_dict lib [] = ok none
as_json_dict lib (b ∷ bs) = elim (lib.json_loads (b ∷ bs)) [
  | loaded payload ↦ ok (object_of payload)
  | json_error ↦ ok none
  | unicode_error ↦ err (external "UnicodeDecodeError")
]

-- `payload.get(key)`
unfoldable pub get_field : String → Fields → Option Json
get_field key Fields.stop = none
get_field key (Fields.field k v fields) =
    let rest = get_field key fields in if str_eq k key then some v else rest

-- `payload.pop(key, None)`, what is left
unfoldable pub pop_field : String → Fields → Fields
pop_field key Fields.stop = Fields.stop
pop_field key (Fields.field k v fields) =
    let rest = pop_field key fields in if str_eq k key then rest else Fields.field k v rest

-- The text of a JSON string that is not empty.
abbrev pub nonempty_text : Option Json → Option String
nonempty_text (some (Json.text s)) = if truthy s then some s else none
nonempty_text _ = none

abbrev pub text_of : Option Json → Option String
text_of (some (Json.text s)) = some s
text_of _ = none

-- `str(value)`; an array or an object does not print as an id.
abbrev pub printed : Option Json → Option String
printed none = some "None"
printed (some Json.null) = some "None"
printed (some (Json.boolean b)) = if b then some "True" else some "False"
printed (some (Json.number n)) = some n
printed (some (Json.text s)) = some s
printed (some (Json.array _)) = none
printed (some (Json.object _)) = none

-- A value that Python takes for true, as `or` does.
abbrev pub is_true : Option Json → Bool
is_true none = false
is_true (some Json.null) = false
is_true (some (Json.boolean b)) = b
is_true (some (Json.number n)) =
    not (str_eq n "0" || str_eq n "-0" || str_eq n "0.0" || str_eq n "-0.0")
is_true (some (Json.text s)) = truthy s
is_true (some (Json.array Items.end)) = false
is_true (some (Json.array _)) = true
is_true (some (Json.object Fields.stop)) = false
is_true (some (Json.object _)) = true
