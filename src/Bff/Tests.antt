-- ===== src/Bff/Tests.antt =====
-- Runs of the gateway.
use substy.Base.{
  zero, suc, ◌≡◌, refl, some, none, [], ◌∷◌, String, str_eq, member, if◌then◌else◌, ok, err, List,
  Json, Fields, upstream_error, HoldsFor,
}
use substy.Bff.Model.{
  Request, Sent, reply, transient, World, Library, Env, Settings, loaded, Response, json, set_to,
}
use substy.Bff.Headers.{proxy_headers, get_header, with_roles, base_headers}
use substy.Bff.Services.{get_current_user_id}
use substy.Bff.Services.Forwarded.{proxied_user}
use substy.Bff.Auth.{login, refresh, logout}
use substy.Bff.Auth.Cookies.{IsHidden, IsCleared, session_cookie}
use substy.Bff.Downstream.{send_with_retries}
use substy.Bff.Downstream.Retries.{send_with_retries_lem}

-- The header names of the gateway, and the method, in the case that is asked for.
abbrev test_lower : String → String
test_lower name =
    if str_eq name "X-User-Id"
    then "x-user-id"
    else if str_eq name "X-Request-Id"
    then "x-request-id"
    else if str_eq name "X-Client-Ip"
    then "x-client-ip"
    else if str_eq name "X-User-Roles"
    then "x-user-roles"
    else name

abbrev library : Library
library = record {
  lower = test_lower;
  upper = λ name. name;
  unquote = λ s. s;
  json_loads = λ bytes. loaded (
      Json.object (
        Fields.field "refresh_token" (Json.text "secret")
          (Fields.field "expires_in" (Json.number "900") Fields.stop)));
  json_dumps = λ value. 1 ∷ [];
  sorted = λ roles. roles;
  inject = λ headers. headers;
  uuid_text = λ n. "00000000-0000-0000-0000-000000000009";
  parse_uuid = λ s.
      if str_eq s "00000000-0000-0000-0000-000000000009"
      then some 9
      else if str_eq s "00000000-0000-0000-0000-000000000004"
      then some 4
      else none;
  parse_int = λ s. none;
}

abbrev settings : Settings
settings = record {
  http_retries_get = 2;
  refresh_cookie_name = "refresh_token";
  rate_limit_auth_per_minute = 5;
  rate_limit_user_per_minute = 60;
  max_body_bytes = 1048576;
}

abbrev browser : List (String × String) → Request
browser headers = record {
  method = "GET";
  path = "/subscriptions/me";
  query = [];
  headers = headers;
  cookies = [];
  client_host = some "10.0.0.1";
  body = [];
  cached_body = none;
  request_id = "r1";
}

-- An `x-user-id` of the browser's own is the one that the services read.
proxied_user_example :
    get_current_user_id library (
      proxy_headers library
        (browser (("accept", "*/*") ∷ ("x-user-id", "00000000-0000-0000-0000-000000000004") ∷ []))
        (some "00000000-0000-0000-0000-000000000009")
        (some ("user" ∷ [])))
    ≡ ok 4
unfolding get_header
proxied_user_example =
    proxied_user library
      (browser (("accept", "*/*") ∷ ("x-user-id", "00000000-0000-0000-0000-000000000004") ∷ [])) 9
      ("user" ∷ []) refl refl refl refl (refl, (refl, tt)) refl refl

honest :
    get_current_user_id library (
      proxy_headers library
        (browser (("accept", "*/*") ∷ []))
        (some "00000000-0000-0000-0000-000000000009")
        (some ("user" ∷ [])))
    ≡ ok 9
unfolding get_current_user_id proxy_headers with_roles base_headers member
honest = refl

-- The second attempt succeeds.
abbrev env : Env
env = record {
  answer = λ n r. elim n [
    | zero ↦ transient
    | suc _ ↦ reply (record {
      status_code = 200;
      headers = ("content-type", "application/json") ∷ [];
      content = 7 ∷ [];
    })
  ];
}

abbrev nothing_sent : World
nothing_sent = record { sent = []; downstream_errors = []; rate_limited = 0 }

abbrev get_page : Sent
get_page = record {
  service = "subscriptions";
  method = "GET";
  path = "/subscriptions/me";
  params = [];
  headers = [];
  content = [];
}

send_with_retries_lem_example : send_with_retries library env 2 get_page nothing_sent ≡ (
  ok (record {
    status_code = 200;
    headers = ("content-type", "application/json") ∷ [];
    content = 7 ∷ [];
  }),
  record nothing_sent { sent = get_page ∷ get_page ∷ [] },
)
send_with_retries_lem_example = send_with_retries_lem library env 2 get_page nothing_sent

posts_once :
    (send_with_retries library env 2 (record get_page { method = "POST" }) nothing_sent).0
    ≡ err (upstream_error "subscriptions is unavailable")
unfolding send_with_retries
posts_once = refl

-- A run in which the auth service answers a login with a token.
abbrev logs_in : World
logs_in = record nothing_sent { sent = get_page ∷ [] }

abbrev login_response : Response
login_response = record {
  status_code = 200;
  headers = ("content-type", "application/json") ∷ [];
  content = json (Fields.field "expires_in" (Json.number "900") Fields.stop);
  cookie = set_to "secret";
}

moves_token : (login library settings env (browser []) logs_in).0 ≡ ok login_response
unfolding login member
moves_token = refl

session_cookie_example :
    HoldsFor (IsHidden library) (login library settings env (browser []) logs_in).0
    × HoldsFor (IsHidden library) (refresh library settings env (browser []) logs_in).0
    × HoldsFor (IsCleared library) (logout library settings env (browser []) logs_in).0
session_cookie_example = session_cookie library settings env (browser []) logs_in
