-- ===== src/Notifications/Payload.antt =====
-- core/payload.py. A payload is a JSON object; `number` holds the text that `json.dumps` prints.
pub mod Depth
use Prim.Native.Char.{code}
use substy.Base.{
  ℕ, ◌+◌, max, true, false, ◌||◌, ◌&&◌, String, ltb, leb, ◌==◌, if◌then◌else◌, char_count, Json,
  Items, Fields,
}

-- Bytes of a code point in UTF-8.
abbrev utf8_len : ℕ → ℕ
utf8_len c = if ltb c 0x80 then 1 else if ltb c 0x800 then 2 else if ltb c 0x10000 then 3 else 4

-- Bytes of a character in a JSON string, with `ensure_ascii=False`: quotes, backslashes and the five
-- named control characters take a backslash, the other control characters six characters.
abbrev char_size : ℕ → ℕ
char_size c =
    if c == 0x22 || c == 0x5c
    then 2
    else if leb 8 c && leb c 13 && (c == 8 || c == 9 || c == 10 || c == 12 || c == 13)
    then 2
    else if ltb c 0x20
    then 6
    else utf8_len c

unfoldable pub chars_size : String → ℕ
chars_size String.[] = 0
chars_size (String.◌∷◌ c s) = char_size (code c) + chars_size s

-- Bytes of `json.dumps(value, separators=(",", ":"), ensure_ascii=False)`; `comma` is 1 behind an
-- earlier item.
unfoldable mutual
  unfolding chars_size

  pub payload_size_bytes : Json → ℕ
  payload_size_bytes Json.null = 4
  payload_size_bytes (Json.boolean true) = 4
  payload_size_bytes (Json.boolean false) = 5
  payload_size_bytes (Json.number s) = char_count s
  payload_size_bytes (Json.text s) = 2 + chars_size s
  payload_size_bytes (Json.array xs) = 2 + items_size 0 xs
  payload_size_bytes (Json.object fs) = 2 + fields_size 0 fs

  pub items_size : ℕ → Items → ℕ
  items_size comma Items.end = 0
  items_size comma (Items.item v xs) = comma + payload_size_bytes v + items_size 1 xs

  pub fields_size : ℕ → Fields → ℕ
  fields_size comma Fields.stop = 0
  fields_size comma (Fields.field k v fs) =
      comma + (2 + chars_size k) + 1 + payload_size_bytes v + fields_size 1 fs

-- `payload_depth`, with its `current_depth`; the loops take the maximum over the members.
unfoldable mutual
  pub payload_depth : Json → ℕ → ℕ
  payload_depth Json.null d = d + 1
  payload_depth (Json.boolean b) d = d + 1
  payload_depth (Json.number s) d = d + 1
  payload_depth (Json.text s) d = d + 1
  payload_depth (Json.array xs) d = items_depth xs d
  payload_depth (Json.object fs) d = fields_depth fs d

  pub items_depth : Items → ℕ → ℕ
  items_depth Items.end d = d + 1
  items_depth (Items.item v Items.end) d = payload_depth v (d + 1)
  items_depth (Items.item v (Items.item w xs)) d =
      max (payload_depth v (d + 1)) (items_depth (Items.item w xs) d)

  pub fields_depth : Fields → ℕ → ℕ
  fields_depth Fields.stop d = d + 1
  fields_depth (Fields.field k v Fields.stop) d = payload_depth v (d + 1)
  fields_depth (Fields.field k v (Fields.field j w fs)) d =
      max (payload_depth v (d + 1)) (fields_depth (Fields.field j w fs) d)
