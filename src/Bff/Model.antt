-- ===== src/Bff/Model.antt =====
-- What the gateway is given and what it leaves: the browser's request, the answers of the services
-- behind it, its settings, its response, and the libraries that it calls.
use substy.Base.{ℕ, List, Option, String, Json, Fields, Action, Error}

abbrev pub Bytes : Type 0
Bytes = List ℕ

-- Names and their values. The header names of a request are in lower case (ASGI).
abbrev pub Headers : Type 0
Headers = List (String × String)

pub record Request : Type 0 where
  pub method : String
  pub path : String
  -- the query parameters
  pub query : Headers
  pub headers : Headers
  pub cookies : List (String × String)
  pub client_host : Option String
  pub body : Bytes
  -- what the middlewares put into `request.state`
  pub cached_body : Option Bytes
  pub request_id : String

-- A request to a service, and its response.
pub record Sent : Type 0 where
  pub service : String
  pub method : String
  pub path : String
  pub params : Headers
  pub headers : Headers
  pub content : Bytes

pub record Upstream : Type 0 where
  pub status_code : ℕ
  pub headers : Headers
  pub content : Bytes

-- What `client.request` does: it returns, raises ConnectError or ReadTimeout, or raises what no
-- caller catches.
pub data Answer : Type 0 where
  reply : Upstream → Answer
  transient : Answer
  failed : Error → Answer

-- What a response does to the refresh cookie of the browser.
pub data CookieChange : Type 0 where
  unchanged cleared : CookieChange
  set_to : String → CookieChange

pub data Content : Type 0 where
  raw : Bytes → Content
  json : Fields → Content
  no_content : Content

pub record Response : Type 0 where
  pub status_code : ℕ
  pub headers : Headers
  pub content : Content
  pub cookie : CookieChange

-- What was sent to the services, and the counters of observability/metrics.py.
pub record World : Type 0 where
  pub sent : List Sent
  pub downstream_errors : List String
  pub rate_limited : ℕ

abbrev pub Call : Type 0 → Type 0
Call A = Action World A

pub record Settings : Type 0 where
  -- not negative
  pub http_retries_get : ℕ
  pub refresh_cookie_name : String
  pub rate_limit_auth_per_minute : ℕ
  pub rate_limit_user_per_minute : ℕ
  pub max_body_bytes : ℕ

-- What `json.loads` does with bytes: it returns, raises JSONDecodeError, or raises UnicodeDecodeError.
pub data Loads : Type 0 where
  loaded : Json → Loads
  json_error unicode_error : Loads

pub record Library : Type 0 where
  pub lower : String → String
  pub upper : String → String
  -- `urllib.parse.unquote`
  pub unquote : String → String
  pub json_loads : Bytes → Loads
  pub json_dumps : Json → Bytes
  -- `sorted` on strings
  pub sorted : List String → List String
  -- the trace headers that `opentelemetry.propagate.inject` adds
  pub inject : Headers → Headers
  pub uuid_text : ℕ → String
  pub parse_uuid : String → Option ℕ
  -- `int(text)`, a negative number as 0
  pub parse_int : String → Option ℕ

-- What the services answer: to the n-th request of the run.
pub record Env : Type 0 where
  pub answer : ℕ → Sent → Answer

-- Who a request is from, by its access token. The roles are a set, as a list.
pub record Identity : Type 0 where
  pub user_id : ℕ
  pub roles : List String
