-- ===== src/Bff/Search.antt =====
-- The search of api/subscriptions.py for the topic of a subscription, in one page of the listing.
use substy.Base.{
  Bool, false, Option, none, some, [], ◌∷◌, String, truthy, str_eq, if◌then◌else◌, Json, Items,
  Fields,
}
use substy.Bff.Model.{Headers}
use substy.Bff.Values.{get_field, nonempty_text, printed, is_true}

-- What is found in a page of subscriptions: nothing, an item of the subscription without a topic, or
-- its topic.
pub data Search : Type 0 where
  absent : Search
  found : Option String → Search

-- `item.get("topic_id")` of the item that was found.
abbrev topic_of : Fields → Search
topic_of item = found (nonempty_text (get_field "topic_id" item))

abbrev has_id : String → Fields → Bool
has_id subscription_id item = elim (printed (get_field "id" item)) [
  | none ↦ false
  | some id ↦ str_eq id subscription_id
]

unfoldable pub search_items : String → Items → Search
unfolding get_field
search_items subscription_id Items.end = absent
search_items subscription_id (Items.item (Json.object item) items) =
    let rest = search_items subscription_id items in
    if has_id subscription_id item then topic_of item else rest
search_items subscription_id (Items.item _ items) = search_items subscription_id items

-- `payload.get("next_cursor") or payload.get("nextCursor")`, if it is a text and not empty
unfoldable pub next_cursor_of : Fields → Option String
unfolding get_field
next_cursor_of payload = nonempty_text (
    if is_true (get_field "next_cursor" payload)
    then get_field "next_cursor" payload
    else get_field "nextCursor" payload)

abbrev pub page_params : Option String → Headers
page_params none = ("limit", "500") ∷ []
page_params (some cursor) =
    if truthy cursor then ("limit", "500") ∷ ("cursor", cursor) ∷ [] else ("limit", "500") ∷ []

-- A page as it was answered: nothing to search, or its items and the next cursor.
abbrev pub page_of : Option Fields → Option (Items × Option String)
page_of none = none
page_of (some payload) = items_of (get_field "items" payload)
  where
    items_of : Option Json → Option (Items × Option String)
    items_of (some (Json.array items)) = some (items, next_cursor_of payload)
    items_of _ = none
