-- ===== src/Auth/Service.antt =====
-- services/auth.py: AuthService.
pub mod Rotation
pub mod Access
use substy.Base.{
  ℕ, ◌+◌, Bool, true, false, not, Option, none, some, List, [], ◌∷◌, String, str_eq, if◌then◌else◌,
  Outcome, ok, err, Error, postgres, value_error, key_error, authentication_error,
  authorization_error, State, statement, transaction, gets, pure, raise, lift, ◌>>=◌, ◌>>◌,
}
use substy.Auth.Model.{User, Session, Db, World, Store, Call, Settings, Payload, Library, Env}
use substy.Auth.Tokens.{
  JwtManager, jwt_manager, verify_password, hash_token, expires_at, create_access_token,
  decode_access_token, effective_refresh_token_ttl_seconds,
}
use substy.Auth.Users
use substy.Auth.Sessions

pub record TokenPair : Type 0 where
  pub access_token : String
  pub refresh_token : String
  pub expires_in : ℕ

-- What the service holds of its managers.
pub record AuthService : Type 0 where
  pub jwt : JwtManager
  pub pepper : String
  pub refresh_ttl_seconds : ℕ

-- `get_auth_service`
unfoldable pub get_auth_service : Settings → Outcome AuthService
unfolding jwt_manager effective_refresh_token_ttl_seconds
get_auth_service settings = elim (jwt_manager settings) [
  | err e ↦ err e
  | ok jwt ↦ ok (record {
    jwt = jwt;
    pepper = settings.refresh_token_pepper;
    refresh_ttl_seconds = effective_refresh_token_ttl_seconds settings;
  })
]

-- The number of one more random value.
abbrev pub draw : Call ℕ
draw s = (ok s.world.draws, record s { world = record s.world { draws = s.world.draws + 1 } })

-- What other sessions commit between two statements outside a transaction.
abbrev pub meanwhile : Env → Call (Unit {0})
meanwhile env s = (ok tt, record s { db = env.others s.db })

-- `if x is None: raise`
abbrev pub present : {A : Type 0} → Error → Option A → Call A
present e none = raise e
present e (some a) = pure a

-- `if user is None or not user.is_active: raise`
abbrev pub active_user : Error → Option User → Call User
active_user e none = raise e
active_user e (some user) = if user.is_active then pure user else raise e

-- `except` of `register`: a violated unique constraint is no error.
abbrev pub created_or_not : Outcome User × Store → Outcome Bool × Store
created_or_not (ok user, s) = (ok true, s)
created_or_not (err (postgres sqlstate), s) =
    if str_eq sqlstate "23505" then (ok false, s) else (err (postgres sqlstate), s)
created_or_not (err e, s) = (err e, s)

abbrev pub invalid_refresh : Error
invalid_refresh = authorization_error "Invalid refresh token"

abbrev pub invalid_token : Error
invalid_token = authorization_error "Invalid token"

abbrev pub invalid_credentials : Error
invalid_credentials = authentication_error "Invalid credentials"

module _ (lib : Library) (svc : AuthService) (env : Env) where
  -- `create_access_token` and the `TokenPair` that is returned
  abbrev pub token_pair : ℕ → String → TokenPair
  token_pair user_id refresh_token =
      let (access_token, expires_in) =
        create_access_token lib svc.jwt env (lib.uuid_text user_id) in
      record { access_token = access_token; refresh_token = refresh_token; expires_in = expires_in }

  unfoldable pub create_session_tokens : ℕ → Option String → Option String → Call TokenPair
  create_session_tokens user_id user_agent ip_address = do
    n ← draw
    let refresh_token = env.token_urlsafe n
    i ← draw
    Sessions.create lib env (env.uuid4 i) user_id (hash_token lib svc.pepper refresh_token)
        user_agent ip_address (expires_at env svc.refresh_ttl_seconds)
    pure (token_pair user_id refresh_token)

  unfoldable pub register : String → String → Call Bool
  register email password = do
    n ← draw
    let password_hash = env.argon2_hash n password
    λ s.
        created_or_not
          (transaction (do i ← draw; Users.create lib env (env.uuid4 i) email password_hash) s)

  -- `login` from the user that was found
  unfoldable pub login_as : User → String → Option String → Option String → Call TokenPair
  unfolding create_session_tokens
  login_as user password user_agent ip_address = do
    is_verified ← lift (verify_password lib password user.password_hash)
    if not is_verified
        then raise invalid_credentials
        else (do meanwhile env; create_session_tokens user.id user_agent ip_address)

  unfoldable pub login : String → String → Option String → Option String → Call TokenPair
  unfolding login_as
  login email password user_agent ip_address = do
    found ← Users.get_by_email lib email
    user ← active_user invalid_credentials found
    login_as user password user_agent ip_address

  unfoldable pub rotate : Session → User → Option String → Option String → Call TokenPair
  unfolding create_session_tokens
  rotate session user user_agent ip_address =
      transaction (do
        Sessions.revoke_by_id env session.id
        create_session_tokens user.id user_agent ip_address)

  -- `refresh` from the session that was found
  unfoldable pub refresh_session : Session → Option String → Option String → Call TokenPair
  unfolding rotate
  refresh_session session user_agent ip_address = do
    meanwhile env
    owner ← Users.get_by_id session.user_id
    user ← active_user invalid_refresh owner
    meanwhile env
    rotate session user user_agent ip_address

  unfoldable pub refresh : String → Option String → Option String → Call TokenPair
  unfolding refresh_session
  refresh refresh_token user_agent ip_address = do
    found ← Sessions.get_active_by_hash env (hash_token lib svc.pepper refresh_token)
    session ← present invalid_refresh found
    refresh_session session user_agent ip_address

  unfoldable pub logout : String → Call (Unit {0})
  logout refresh_token = Sessions.revoke_by_hash env (hash_token lib svc.pepper refresh_token)

  -- `UUID(payload["sub"])`
  abbrev pub subject_id : Option String → Outcome ℕ
  subject_id none = err (key_error "sub")
  subject_id (some sub) = elim (lib.parse_uuid sub) [
    | none ↦ err invalid_token
    | some user_id ↦ ok user_id
  ]

  unfoldable pub get_user_by_access_token : String → Call (ℕ × String × Bool)
  unfolding decode_access_token
  get_user_by_access_token access_token = do
    payload ← lift (decode_access_token lib svc.jwt env access_token)
    user_id ← lift (subject_id payload.sub)
    found ← Users.get_by_id user_id
    user ← active_user invalid_token found
    pure (user.id, user.email, user.is_active)
