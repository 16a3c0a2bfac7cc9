-- ===== src/Bff/Guards.antt =====
-- What a request passes before its endpoint, and what becomes of an error: core/body_limit.py,
-- security/jwt.py, security/deps.py, rate_limit/limiter.py, api/dependencies.py, core/errors.py and
-- core/exceptions_handler.py.
use substy.Base.{
  ℕ, ◌+◌, Bool, false, not, ◌||◌, Option, none, some, List, [], ◌∷◌, String, strip, split, truthy,
  member, starts_with, drop_prefix, map, rows_where, length, ltb, leb, if◌then◌else◌, Json, Items,
  Fields, Outcome, ok, err, Error, unauthorized, forbidden, not_found, validation_error,
  upstream_error, rate_limited, service_unavailable, value_error, pure, raise, lift, ◌>>=◌, ◌>>◌,
}
use Prim.Native.String
use substy.Bff.Model.{
  Request, Response, Content, json, unchanged, Call, Library, Settings, Identity,
}
use substy.Bff.Headers.{get_header, host_or_unknown}
use substy.Bff.Values.{get_field, printed, is_true}

abbrev pub error_payload : Request → String → String → Content
error_payload request code message = json (
    Fields.field "code" (Json.text code) (
      Fields.field "message" (Json.text message)
        (Fields.field "request_id" (Json.text request.request_id) Fields.stop)))

abbrev pub error_response : Request → ℕ → String → String → Response
error_response request status code message = record {
  status_code = status;
  headers = [];
  content = error_payload request code message;
  cookie = unchanged;
}

-- The exception handlers, with the code and the status of each class of error.
unfoldable pub failure : Request → Error → Response
failure request (unauthorized message) = error_response request 401 "unauthorized" message
failure request (forbidden message) = error_response request 403 "forbidden" message
failure request (not_found message) = error_response request 404 "not_found" message
failure request (validation_error message) = error_response request 422 "validation_error" message
failure request (upstream_error message) = error_response request 502 "upstream_error" message
failure request (rate_limited message) = error_response request 429 "rate_limited" message
failure request (service_unavailable message) =
    error_response request 503 "service_unavailable" message
failure request _ = error_response request 500 "internal_error" "Internal server error"

abbrev pub too_large : Request → Response
too_large request = error_response request 413 "payload_too_large" "Request body is too large"

-- The length that the header announces, if it is there and not empty.
unfoldable pub announced_length : Library → Request → Outcome (Option ℕ)
unfolding get_header
announced_length lib request = parsed (get_header lib "content-length" request.headers)
  where
    parsed : Option String → Outcome (Option ℕ)
    parsed none = ok none
    parsed (some text) = if not (truthy text) then ok none else elim (lib.parse_int text) [
      | none ↦ err (value_error "invalid literal for int() with base 10")
      | some n ↦ ok (some n)
    ]

abbrev over : ℕ → Option ℕ → Bool
over limit none = false
over limit (some n) = ltb limit n

-- `BodySizeLimitMiddleware.dispatch`: the rest gets the request with its body read.
unfoldable pub limit_body : Library → Settings → (Request → Call Response) → Request → Call Response
unfolding announced_length
limit_body lib settings call_next request = do
  content_length ← lift (announced_length lib request)
  if over settings.max_body_bytes content_length
      then pure (too_large request)
      else if ltb settings.max_body_bytes (length request.body)
      then pure (too_large request)
      else call_next (record request { cached_body = some request.body })

-- `{role.strip().lower() for role in …if role.strip()}`
unfoldable pub clean_roles : Library → List String → List String
unfolding strip
clean_roles lib roles =
    map (λ role. lib.lower (strip role)) (rows_where (λ role. truthy (strip role)) roles)

-- `str(role)` of each item; an array or an object among them is left out.
unfoldable pub printed_items : Items → List String
printed_items Items.end = []
printed_items (Items.item v items) =
    let rest = printed_items items in elim (printed (some v)) [ none ↦ rest | some s ↦ s ∷ rest ]

unfoldable pub roles_of : Library → Option Json → List String
unfolding clean_roles printed_items split
roles_of lib (some (Json.text raw_roles)) = clean_roles lib (split b',' raw_roles)
roles_of lib (some (Json.array raw_roles)) = clean_roles lib (printed_items raw_roles)
roles_of lib _ = []

abbrev invalid : Error
invalid = unauthorized "Invalid access token"

-- `verify` of what `jwt.decode` makes of the token: `none` is an InvalidTokenError.
unfoldable pub verify : Library → Option Fields → Outcome Identity
unfolding get_field roles_of
verify lib none = err invalid
verify lib (some payload) =
    if not (is_true (get_field "sub" payload))
    then err invalid
    else elim (printed (get_field "sub" payload)) [
      | none ↦ err invalid
      | some sub ↦ elim (lib.parse_uuid sub) [
        | none ↦ err invalid
        | some user_id ↦
            ok (record { user_id = user_id; roles = roles_of lib (get_field "roles" payload) })
      ]
    ]

module _ (lib : Library) (settings : Settings) (jwt_decode : String → Option Fields) where
  unfoldable pub get_current_identity : Request → Outcome Identity
  unfolding get_header starts_with drop_prefix strip verify
  get_current_identity request = bearer (get_header lib "authorization" request.headers)
    where
      bearer : Option String → Outcome Identity
      bearer none = err (unauthorized "Unauthorized")
      bearer (some authorization) =
          if not (truthy authorization) || not (starts_with "Bearer " authorization)
          then err (unauthorized "Unauthorized")
          else verify lib (jwt_decode (strip (drop_prefix "Bearer " authorization)))

  unfoldable pub require_admin : Request → Outcome Identity
  unfolding get_current_identity member
  require_admin request = elim (get_current_identity request) [
    | err e ↦ err e
    | ok identity ↦
        if member "admin" identity.roles then ok identity else err (forbidden "Forbidden")
  ]

-- `metrics.inc_rate_limited`
abbrev count_limited : Call (Unit {0})
count_limited w = (ok tt, record w { rate_limited = w.rate_limited + 1 })

-- `is_allowed`, by the count that the script returns
abbrev pub is_allowed : ℕ → ℕ → Bool
is_allowed current limit = leb current limit

-- What the script returns for a key, in a window of 60 seconds; `none` where Redis raises.
module _ (lib : Library) (settings : Settings) (count : String → Option ℕ) where
  -- The whole header, not its first address.
  abbrev pub auth_key : Request → String
  auth_key request =
      let client_ip : String = elim (get_header lib "x-forwarded-for" request.headers) [
        | none ↦ host_or_unknown request.client_host
        | some forwarded ↦
            if truthy forwarded then forwarded else host_or_unknown request.client_host
      ] in
      String.◌++◌ "bff:rate:auth:" (String.◌++◌ request.path (String.◌++◌ ":" client_ip))

  -- Without Redis the endpoints of the session are closed, …
  unfoldable pub rate_limit_auth : Request → Call (Unit {0})
  unfolding get_header
  rate_limit_auth request = elim (count (auth_key request)) [
    | none ↦ count_limited >> raise (service_unavailable "Rate limiter unavailable")
    | some current ↦
        if is_allowed current settings.rate_limit_auth_per_minute
        then pure tt
        else (count_limited >> raise (rate_limited "Too many requests"))
  ]

  -- … and the others open.
  unfoldable pub rate_limit_user : Identity → Call Identity
  rate_limit_user identity =
      elim (count (String.◌++◌ "bff:rate:user:" (lib.uuid_text identity.user_id))) [
        | none ↦ pure identity
        | some current ↦
            if is_allowed current settings.rate_limit_user_per_minute
            then pure identity
            else (count_limited >> raise (rate_limited "Too many requests"))
      ]
