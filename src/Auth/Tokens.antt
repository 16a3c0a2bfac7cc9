-- ===== src/Auth/Tokens.antt =====
-- core/security.py, core/jwt.py, and the computed setting of core/settings.py.
use substy.Base.{
  ℕ, ◌+◌, ◌*◌, ◌/◌, max, Bool, ◌||◌, not, true, false, Option, none, some, String, truthy, str_eq,
  starts_with, unescape_newlines, if◌then◌else◌, Outcome, ok, err, Error, value_error,
  authorization_error,
}
use substy.Auth.Model.{Settings, Payload, Library, Env, second, verified, mismatch, broken_hash}
use Prim.Native.String

-- `verify_password`: only the mismatch is caught.
abbrev pub verify_password : Library → String → String → Outcome Bool
verify_password lib plain_password hashed_password =
    elim (lib.argon2_verify hashed_password plain_password) [
      | verified ↦ ok true
      | mismatch ↦ ok false
      | broken_hash ↦ err (Error.external "InvalidHashError")
    ]

-- The hash of a refresh token with the pepper.
abbrev pub hash_token : Library → String → String → String
hash_token lib pepper token = lib.sha256_hex (String.◌++◌ token (String.◌++◌ ":" pepper))

abbrev pub expires_at : Env → ℕ → ℕ
expires_at env ttl_seconds = env.now + ttl_seconds * second

abbrev pub days : ℕ → ℕ
days n = n * 24 * 60 * 60

unfoldable pub effective_refresh_token_ttl_seconds : Settings → ℕ
effective_refresh_token_ttl_seconds settings = elim settings.jwt_refresh_token_ttl_seconds [
  | some seconds ↦ max 1 seconds
  | none ↦ max 1 (days settings.jwt_refresh_token_ttl_days)
]

pub record JwtManager : Type 0 where
  pub algorithm : String
  pub issuer : String
  pub audience : String
  -- in seconds
  pub access_ttl : ℕ
  pub encode_key : String
  pub decode_key : String

-- The constructor of `JWTManager`.
unfoldable pub jwt_manager : Settings → Outcome JwtManager
jwt_manager settings =
    if not (starts_with "RS" settings.jwt_algorithm)
    then ok (with_keys settings.jwt_secret settings.jwt_secret)
    else if not (truthy settings.jwt_private_key) || not (truthy settings.jwt_public_key)
    then err (value_error "JWT private/public keys are required for RS algorithms")
    else ok (
        with_keys (unescape_newlines settings.jwt_private_key)
          (unescape_newlines settings.jwt_public_key))
  where
    with_keys : String → String → JwtManager
    with_keys encode_key decode_key = record {
      algorithm = settings.jwt_algorithm;
      issuer = settings.jwt_issuer;
      audience = settings.jwt_audience;
      access_ttl = settings.jwt_access_token_ttl_minutes * 60;
      encode_key = encode_key;
      decode_key = decode_key;
    }

abbrev pub access_claims : JwtManager → Env → String → Payload
access_claims jwt env subject = record {
  sub = some subject;
  iss = jwt.issuer;
  aud = jwt.audience;
  iat = env.now / second;
  exp = (env.now + jwt.access_ttl * second) / second;
  type = some "access";
}

-- No caller gives extra claims.
abbrev pub create_access_token : Library → JwtManager → Env → String → String × ℕ
create_access_token lib jwt env subject =
    (lib.jwt_encode jwt.encode_key jwt.algorithm (access_claims jwt env subject), jwt.access_ttl)

-- What `jwt.decode` makes of the token.
abbrev pub decoded : Library → JwtManager → Env → String → Option Payload
decoded lib jwt env token =
    lib.jwt_decode env.now jwt.decode_key jwt.algorithm jwt.audience jwt.issuer token

abbrev pub is_access : Option String → Bool
is_access none = false
is_access (some type) = str_eq type "access"

unfoldable pub decode_access_token : Library → JwtManager → Env → String → Outcome Payload
decode_access_token lib jwt env token = elim (decoded lib jwt env token) [
  | none ↦ err (authorization_error "Invalid token")
  | some payload ↦
      if is_access payload.type then ok payload else err (authorization_error "Invalid token")
]
