-- ===== src/Bff/Auth.antt =====
-- api/auth.py: the endpoints of the session. The browser keeps the refresh token in a cookie.
pub mod Cookies
use substy.Base.{
  ℕ, Bool, true, false, not, ◌&&◌, ◌||◌, Option, none, some, List, [], ◌∷◌, String, strip, truthy,
  truthy?, str_eq, ◌==◌, if◌then◌else◌, Json, Items, Fields, Outcome, ok, err, Error, external,
  pure, raise, lift, ◌>>=◌, ◌>>◌,
}
use Prim.Native.Char.{Char, code}
use Prim.Native.String
use substy.Bff.Model.{
  Request, Sent, Upstream, Response, Content, raw, json, no_content, CookieChange, unchanged,
  cleared, set_to, World, Call, Library, Env, Settings, Bytes, Headers, Loads, loaded, json_error,
  unicode_error,
}
use substy.Bff.Values.{
  as_json_dict, object_of, get_field, pop_field, nonempty_text, text_of, printed, is_true,
}
use substy.Bff.Headers.{without, base_headers, set_header}
use substy.Bff.Downstream.{send_with_retries}
use substy.Bff.Proxy.{cached_body, record_error, passed_on, proxy_request}

abbrev pub blocked : List String
blocked =
    "transfer-encoding" ∷ "connection" ∷ "content-length" ∷ "set-cookie" ∷ "content-encoding" ∷ []

unfoldable lstrip_quotes : String → String
lstrip_quotes String.[] = ""
lstrip_quotes (String.◌∷◌ c s) = if code c == b'"' then lstrip_quotes s else String.◌∷◌ c s

unfoldable quoted_char : Char → String → String
quoted_char c String.[] = if code c == b'"' then "" else String.◌∷◌ c ""
quoted_char c (String.◌∷◌ d s) = String.◌∷◌ c (String.◌∷◌ d s)

unfoldable rstrip_quotes : String → String
unfolding quoted_char
rstrip_quotes String.[] = ""
rstrip_quotes (String.◌∷◌ c s) = quoted_char c (rstrip_quotes s)

-- `None` is also what is no string.
unfoldable pub normalize_refresh_token : Library → Option String → Option String
unfolding lstrip_quotes rstrip_quotes strip
normalize_refresh_token lib none = none
normalize_refresh_token lib (some value) =
    let normalized = strip (lstrip_quotes (rstrip_quotes (strip (lib.unquote value)))) in
    if truthy normalized then some normalized else none

unfoldable pub refresh_from_body : Library → Bytes → Outcome (Option String)
unfolding as_json_dict normalize_refresh_token get_field
refresh_from_body lib body = elim (as_json_dict lib body) [
  | err e ↦ err e
  | ok none ↦ ok none
  | ok (some payload) ↦
      ok (normalize_refresh_token lib (text_of (get_field "refresh_token" payload)))
]

-- `request.cookies.get(name)`
unfoldable pub cookie_of : String → List (String × String) → Option String
cookie_of name [] = none
cookie_of name ((k, v) ∷ cookies) =
    let rest = cookie_of name cookies in if str_eq k name then some v else rest

-- The token of the cookie or, without one, of the body.
unfoldable pub refresh_token_of : Library → Settings → Request → Outcome (Option String)
unfolding normalize_refresh_token refresh_from_body cookie_of
refresh_token_of lib settings request =
    elim (normalize_refresh_token lib (cookie_of settings.refresh_cookie_name request.cookies)) [
      | some token ↦ ok (some token)
      | none ↦ refresh_from_body lib (cached_body request)
    ]

abbrev pub is_invalid_refresh_token_status : ℕ → Bool
is_invalid_refresh_token_status status =
    status == 400
    || status == 401
    || status == 404
    || status == 409
    || status == 410
    || status == 422

-- Neither caller asks for the cookie to be cleared.
abbrev pub unauthorized_response : Request → String → Response
unauthorized_response request message = record {
  status_code = 401;
  headers = [];
  content = json (
      Fields.field "code" (Json.text "unauthorized") (
        Fields.field "message" (Json.text message)
          (Fields.field "request_id" (Json.text request.request_id) Fields.stop)));
  cookie = unchanged;
}

-- `any(key.lower() == "content-type" for key in headers)`
unfoldable pub has_content_type : Library → Headers → Bool
has_content_type lib [] = false
has_content_type lib ((k, v) ∷ headers) =
    str_eq (lib.lower k) "content-type" || has_content_type lib headers

abbrev pub is_filled : Bytes → Bool
is_filled [] = false
is_filled (b ∷ bs) = true

-- `json.dumps({"refresh_token": refresh_token})`
abbrev pub token_body : Library → String → Bytes
token_body lib refresh_token =
    lib.json_dumps
      (Json.object (Fields.field "refresh_token" (Json.text refresh_token) Fields.stop))

-- The end of `login` and of `refresh`: the refresh token goes from the body into the cookie.
unfoldable pub token_from : Library → Upstream → Outcome (Option Fields) → Outcome Response
unfolding get_field pop_field
token_from lib upstream (err e) = err e
token_from lib upstream (ok none) = ok (passed_on lib blocked upstream)
token_from lib upstream (ok (some payload)) =
    elim (nonempty_text (get_field "refresh_token" payload)) [
      | none ↦ ok (passed_on lib blocked upstream)
      | some refresh_token ↦ ok (record {
        status_code = upstream.status_code;
        headers = without lib blocked upstream.headers;
        content = json (pop_field "refresh_token" payload);
        cookie = set_to refresh_token;
      })
    ]

unfoldable pub token_response : Library → Upstream → Outcome Response
unfolding as_json_dict token_from
token_response lib upstream = token_from lib upstream (as_json_dict lib upstream.content)

abbrev pub logged_out : Response
logged_out = record { status_code = 204; headers = []; content = no_content; cookie = cleared }

module _ (lib : Library) (settings : Settings) (env : Env) where
  unfoldable pub send_auth_request : Request → String → Bytes → Call Upstream
  unfolding send_with_retries base_headers has_content_type
  send_auth_request request path body =
      let headers = base_headers lib request in
      send_with_retries lib env settings.http_retries_get (record {
        service = "auth";
        method = request.method;
        path = path;
        params = request.query;
        headers =
            (if is_filled body && not (has_content_type lib headers)
              then set_header "Content-Type" "application/json" headers
              else headers);
        content = body;
      })

  unfoldable pub login : Request → Call Response
  unfolding send_auth_request token_response
  login request = do
    upstream ← send_auth_request request "/auth/login" (cached_body request)
    record_error "auth" upstream.status_code
    lift (token_response lib upstream)

  -- `refresh` with the token that was found, if any
  unfoldable pub refresh_with : Request → Option String → Call Response
  unfolding send_auth_request token_response
  refresh_with request none = pure (unauthorized_response request "Missing refresh token")
  refresh_with request (some refresh_token) = do
    upstream ← send_auth_request request "/auth/refresh" (token_body lib refresh_token)
    record_error "auth" upstream.status_code
    if is_invalid_refresh_token_status upstream.status_code
        then pure (unauthorized_response request "Invalid refresh token")
        else lift (token_response lib upstream)

  unfoldable pub refresh : Request → Call Response
  unfolding refresh_token_of refresh_with
  refresh request = do
    refresh_token ← lift (refresh_token_of lib settings request)
    refresh_with request refresh_token

  unfoldable pub logout_with : Request → Option String → Call Response
  unfolding send_auth_request
  logout_with request none = pure logged_out
  logout_with request (some refresh_token) = do
    upstream ← send_auth_request request "/auth/logout" (token_body lib refresh_token)
    record_error "auth" upstream.status_code
    if is_invalid_refresh_token_status upstream.status_code
        then pure logged_out
        else pure (record (passed_on lib blocked upstream) { cookie = cleared })

  unfoldable pub logout : Request → Call Response
  unfolding refresh_token_of logout_with
  logout request = do
    refresh_token ← lift (refresh_token_of lib settings request)
    logout_with request refresh_token

  unfoldable pub register : Request → Call Response
  unfolding proxy_request
  register request = proxy_request lib settings env "auth" "/auth/register" none none request

  unfoldable pub me : String → List String → Request → Call Response
  unfolding proxy_request
  me user_id roles request =
      proxy_request lib settings env "auth" "/auth/me" (some user_id) (some roles) request
