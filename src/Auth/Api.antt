-- ===== src/Auth/Api.antt =====
-- api/auth.py, api/dependencies.py and api/errors.py: the endpoints, for requests whose bodies have
-- passed the validators of schemas/auth.py.
use substy.Base.{
  ℕ, Bool, Option, none, some, String, strip, truthy?, first_piece, str_eq, if◌then◌else◌, Outcome,
  ok, err, Error, unauthorized, authentication_error, authorization_error, validation_error,
  rate_limited, pure, lift, ◌>>=◌, ◌>>◌,
}
use Prim.Native.String
use substy.Auth.Model.{Store, Call, Settings, Library, Env}
use substy.Auth.Limiter.{enforce}
use substy.Auth.Service
use substy.Auth.Service.{TokenPair, AuthService, get_auth_service, get_user_by_access_token}

pub record Request : Type 0 where
  pub forwarded_for : Option String
  pub client_host : Option String
  pub user_agent : Option String
  -- the scheme and the credentials of the Authorization header
  pub credentials : Option (String × String)

-- The JSON bodies that the endpoints answer with.
pub data Body : Type 0 where
  registered : String → String → Body
  tokens : TokenPair → Body
  user : String → String → Bool → Body
  detail : String → Body
  empty : Body

pub record Reply : Type 0 where
  pub status : ℕ
  pub body : Body

abbrev pub client_or_unknown : Option String → String
client_or_unknown none = "unknown"
client_or_unknown (some host) = host

unfoldable pub client_ip : Request → String
unfolding strip first_piece
client_ip request = elim request.forwarded_for [
  | none ↦ client_or_unknown request.client_host
  | some forwarded ↦
      if truthy? (some forwarded)
      then strip (first_piece b',' forwarded)
      else client_or_unknown request.client_host
]

-- The exception handlers.
abbrev pub failure : Error → Reply
failure (rate_limited message) = record { status = 429; body = Body.detail message }
failure (authentication_error message) = record { status = 401; body = Body.detail message }
failure (authorization_error message) = record { status = 401; body = Body.detail message }
failure (unauthorized message) = record { status = 401; body = Body.detail message }
failure (validation_error message) = record { status = 400; body = Body.detail message }
failure _ = record { status = 500; body = Body.detail "Internal server error" }

abbrev pub answered : Outcome Reply × Store → Reply × Store
answered (ok reply, s) = (reply, s)
answered (err e, s) = (failure e, s)

-- `f"rate:{name}:{ip}:{email}"`
abbrev pub rate_key : String → String → String → String
rate_key name ip email =
    String.◌++◌ "rate:"
      (String.◌++◌ name (String.◌++◌ ":" (String.◌++◌ ip (String.◌++◌ ":" email))))

module _ (lib : Library) (settings : Settings) (env : Env) where
  unfoldable pub register : Request → String → String → Call Reply
  unfolding get_auth_service client_ip
  register request email password = do
    svc ← lift (get_auth_service settings)
    enforce lib env settings.rate_limit_window_seconds
        (rate_key "register" (client_ip request) email) settings.rate_limit_register
    created ← Service.register lib svc env email password
    if created
        then pure
            (record { status = 201; body = Body.registered "created" "Registration accepted" })
        else pure (record { status = 200; body = Body.registered "ok" "Registration accepted" })

  unfoldable pub login : Request → String → String → Call Reply
  unfolding get_auth_service client_ip
  login request email password = do
    svc ← lift (get_auth_service settings)
    enforce lib env settings.rate_limit_window_seconds (rate_key "login" (client_ip request) email)
        settings.rate_limit_login
    pair ← Service.login lib svc env email password request.user_agent (some (client_ip request))
    pure (record { status = 200; body = Body.tokens pair })

  unfoldable pub refresh : Request → String → Call Reply
  unfolding get_auth_service client_ip
  refresh request refresh_token = do
    svc ← lift (get_auth_service settings)
    pair ← Service.refresh lib svc env refresh_token request.user_agent (some (client_ip request))
    pure (record { status = 200; body = Body.tokens pair })

  unfoldable pub logout : String → Call Reply
  unfolding get_auth_service
  logout refresh_token = do
    svc ← lift (get_auth_service settings)
    Service.logout lib svc env refresh_token
    pure (record { status = 204; body = Body.empty })

  abbrev pub get_current_access_token : Request → Outcome String
  get_current_access_token request = elim request.credentials [
    | none ↦ err (unauthorized "Unauthorized")
    | some (scheme, token) ↦
        if str_eq (lib.lower scheme) "bearer" then ok token else err (unauthorized "Unauthorized")
  ]

  unfoldable pub me : Request → Call Reply
  unfolding get_auth_service
  me request = do
    access_token ← lift (get_current_access_token request)
    svc ← lift (get_auth_service settings)
    (user_id, email, is_active) ← get_user_by_access_token lib svc env access_token
    pure (record { status = 200; body = Body.user (lib.uuid_text user_id) email is_active })
