-- ===== src/Notifications/Payload/Depth.antt =====
-- What the depth of a payload is (core/payload.py, `payload_depth`).
use substy.Base.{ℕ, ◌+◌, ◌≤◌, max, ◌≡◌, ◌↔◌, Json, Items, Fields, arith, ok}
use substy.Notifications.Payload.{payload_depth, items_depth, fields_depth, payload_size_bytes}
use substy.Notifications.Model.{Settings}
use substy.Notifications.Service.{validate_payload}

-- The number of values on the longest way down, the value itself included: a scalar and an empty
-- array or object count 1.
unfoldable mutual
  pub nesting : Json → ℕ
  nesting Json.null = 1
  nesting (Json.boolean b) = 1
  nesting (Json.number s) = 1
  nesting (Json.text s) = 1
  nesting (Json.array xs) = 1 + items_nesting xs
  nesting (Json.object fs) = 1 + fields_nesting fs

  pub items_nesting : Items → ℕ
  items_nesting Items.end = 0
  items_nesting (Items.item v xs) = max (nesting v) (items_nesting xs)

  pub fields_nesting : Fields → ℕ
  fields_nesting Fields.stop = 0
  fields_nesting (Fields.field k v fs) = max (nesting v) (fields_nesting fs)

mutual
  unfolding payload_depth nesting

  depth_lem : (v : Json) (d : ℕ) → payload_depth v d ≡ d + nesting v
  depth_lem Json.null d = omega arith
  depth_lem (Json.boolean b) d = omega arith
  depth_lem (Json.number s) d = omega arith
  depth_lem (Json.text s) d = omega arith
  depth_lem (Json.array xs) d = items_lem xs d
  depth_lem (Json.object fs) d = fields_lem fs d

  items_lem : (xs : Items) (d : ℕ) → items_depth xs d ≡ d + (1 + items_nesting xs)
  items_lem Items.end d = omega arith
  items_lem (Items.item v Items.end) d = omega (arith, depth_lem v (d + 1))
  items_lem (Items.item v (Items.item w xs)) d =
      omega (arith, depth_lem v (d + 1), items_lem (Items.item w xs) d)

  fields_lem : (fs : Fields) (d : ℕ) → fields_depth fs d ≡ d + (1 + fields_nesting fs)
  fields_lem Fields.stop d = omega arith
  fields_lem (Fields.field k v Fields.stop) d = omega (arith, depth_lem v (d + 1))
  fields_lem (Fields.field k v (Fields.field j w fs)) d =
      omega (arith, depth_lem v (d + 1), fields_lem (Fields.field j w fs) d)

-- A payload is accepted exactly when its JSON text has at most the allowed bytes and its values nest
-- at most as deep as allowed, by a measure that does not count from above.
pub validate_payload_lem :
    (settings : Settings) (payload : Json)
    → (validate_payload settings payload ≡ ok tt) ↔ (
        (payload_size_bytes payload ≤ settings.payload_max_bytes)
        × (nesting payload ≤ settings.payload_max_depth))
unfolding validate_payload
validate_payload_lem settings payload = ground (arith, depth_lem payload 0)
