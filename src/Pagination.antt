-- ===== src/Pagination.antt =====
-- core/pagination.py, which the notifications and the subscriptions service both have. JSON, Base64 and the printing of ids and times are library code: `Codec` stands
-- for them.
use substy.Base.{
  ℕ, Option, none, some, List, [], ◌∷◌, String, str_eq, if◌then◌else◌, not, truthy, Outcome, ok,
  err, validation_error, length, take, ltb, last_of,
}

-- What Base64 and `json.loads` make of a text: they raise, or the value is no object, or it is one,
-- whose keys and values are printed.
pub data Loaded : Type 0 where
  raised not_object : Loaded
  object : List (String × String) → Loaded

pub record Codec : Type 0 where
  -- `json.dumps`, encoded
  pub encode : List (String × String) → String
  pub load : String → Loaded
  -- `str(uuid)` and `UUID(text)`, `isoformat` and `fromisoformat`
  pub uuid_text : ℕ → String
  pub parse_uuid : String → Option ℕ
  pub time_text : ℕ → String
  pub parse_time : String → Option ℕ

module _ (codec : Codec) where
  abbrev pub loaded : Loaded → Outcome (List (String × String))
  loaded raised = err (validation_error "Invalid cursor")
  loaded not_object = err (validation_error "Invalid cursor")
  loaded (object fields) = ok fields

  -- No cursor is an empty one: both are false.
  unfoldable pub decode_cursor : Option String → Outcome (List (String × String))
  decode_cursor none = ok []
  decode_cursor (some cursor) = if not (truthy cursor) then ok [] else loaded (codec.load cursor)

  unfoldable pub field_of : String → List (String × String) → Option String
  field_of key [] = none
  field_of key ((k, v) ∷ fields) =
      let rest = field_of key fields in if str_eq k key then some v else rest

  -- A parsed field; `none` is a KeyError or a ValueError.
  abbrev pub parsed : (String → Option ℕ) → Option String → Option ℕ
  parsed parse none = none
  parsed parse (some text) = parse text

  abbrev pub both : Option ℕ → Option ℕ → Outcome (Option (ℕ × ℕ))
  both none b = err (validation_error "Invalid cursor")
  both (some a) none = err (validation_error "Invalid cursor")
  both (some a) (some b) = ok (some (a, b))

  -- `if cursor_data:` and the two fields.
  unfoldable pub cursor_pair :
      String → (String → Option ℕ) → List (String × String) → Outcome (Option (ℕ × ℕ))
  unfolding field_of
  cursor_pair first parse [] = ok none
  cursor_pair first parse (f ∷ fs) =
      both (parsed parse (field_of first (f ∷ fs)))
        (parsed codec.parse_uuid (field_of "id" (f ∷ fs)))

  unfoldable pub subscriptions_cursor : ℕ → ℕ → String
  subscriptions_cursor created_at id =
      codec.encode (("created_at", codec.time_text created_at) ∷ ("id", codec.uuid_text id) ∷ [])

  -- `topic_cursor` and `notifications_cursor` have the same fields.
  unfoldable pub topic_cursor : ℕ → ℕ → String
  topic_cursor created_at id =
      codec.encode (("created_at", codec.time_text created_at) ∷ ("id", codec.uuid_text id) ∷ [])

  unfoldable pub notifications_cursor : ℕ → ℕ → String
  notifications_cursor created_at id =
      codec.encode (("created_at", codec.time_text created_at) ∷ ("id", codec.uuid_text id) ∷ [])

  unfoldable pub subscribers_cursor : ℕ → ℕ → String
  subscribers_cursor user_id subscription_id =
      codec.encode
        (("user_id", codec.uuid_text user_id) ∷ ("id", codec.uuid_text subscription_id) ∷ [])

abbrev next_of {ℓ} : {A : Type ℓ} → (A → String) → Option A → Option String
next_of cursor_of none = none
next_of cursor_of (some row) = some (cursor_of row)

-- The page and its cursor, from one row more than the limit, which the API keeps at least 1: the code
-- would raise at 0, where this gives no cursor.
abbrev pub cut_page {ℓ} : {A : Type ℓ} → (A → String) → ℕ → List A → List A × Option String
cut_page cursor_of limit rows =
    if ltb limit (length rows)
    then (take limit rows, next_of cursor_of (last_of (take limit rows)))
    else (rows, none)
