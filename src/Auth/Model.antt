-- ===== src/Auth/Model.antt =====
-- The data of the auth service: the rows of auth.users and auth.sessions (migrations/001_init.sql,
-- domain/models.py), its settings, its state, and the libraries that it calls. A UUID is a number,
-- a time is the number of microseconds since the epoch.
use substy.Base.{ℕ, Bool, List, Option, String, State, Action}

pub record User : Type 0 where
  pub id : ℕ
  pub email : String
  pub password_hash : String
  pub is_active : Bool
  pub created_at : ℕ

pub record Session : Type 0 where
  pub id : ℕ
  pub user_id : ℕ
  pub token_hash : String
  pub user_agent : Option String
  pub ip_address : Option String
  pub expires_at : ℕ
  pub revoked_at : Option ℕ
  pub created_at : ℕ

pub record Db : Type 0 where
  pub users : List User
  pub sessions : List Session

-- A key of Redis that counts, with the time at which it expires, if one was set.
pub record Counter : Type 0 where
  pub key : String
  pub count : ℕ
  pub expires_at : Option ℕ

-- How many random values were drawn, and the keys of Redis.
pub record World : Type 0 where
  pub draws : ℕ
  pub redis : List Counter

abbrev pub Store : Type 0
Store = State Db World

abbrev pub Call : Type 0 → Type 0
Call A = Action Store A

-- The settings that are computed with, none of them negative.
pub record Settings : Type 0 where
  pub jwt_algorithm : String
  pub jwt_issuer : String
  pub jwt_audience : String
  pub jwt_access_token_ttl_minutes : ℕ
  pub jwt_refresh_token_ttl_seconds : Option ℕ
  pub jwt_refresh_token_ttl_days : ℕ
  pub jwt_secret : String
  pub jwt_private_key : String
  pub jwt_public_key : String
  pub refresh_token_pepper : String
  pub rate_limit_login : ℕ
  pub rate_limit_register : ℕ
  pub rate_limit_window_seconds : ℕ

-- The claims of a token; one that the service did not make may lack `sub` and `type`.
pub record Payload : Type 0 where
  pub sub : Option String
  pub iss : String
  pub aud : String
  pub iat : ℕ
  pub exp : ℕ
  pub type : Option String

-- What `PasswordHasher.verify` does: it returns, or raises VerifyMismatchError or something else.
pub data Verified : Type 0 where
  verified mismatch broken_hash : Verified

-- The libraries. `none` is the error that the caller names: `UUID(text)` a ValueError,
-- `jwt.decode` at a time an InvalidTokenError, the encoding of an `inet` argument a DataError.
pub record Library : Type 0 where
  pub sha256_hex : String → String
  pub argon2_verify : String → String → Verified
  pub uuid_text : ℕ → String
  pub parse_uuid : String → Option ℕ
  -- key, algorithm and claims
  pub jwt_encode : String → String → Payload → String
  -- the time, key, algorithm, audience, issuer and token
  pub jwt_decode : ℕ → String → String → String → String → String → Option Payload
  pub inet_text : String → Option String
  -- INCR and EXPIRE of Redis at a time: the new count, and the keys that they leave
  pub redis_incr : ℕ → String → List Counter → ℕ × List Counter
  pub redis_expire : ℕ → String → ℕ → List Counter → List Counter
  -- the folding by which CITEXT compares
  pub lower : String → String

-- What the environment answers to one call: the n-th random UUID, `secrets.token_urlsafe(64)` and
-- Argon2 hash with a random salt, `datetime.now`, the database's now(), and what other sessions
-- commit between two statements outside a transaction.
pub record Env : Type 0 where
  pub uuid4 : ℕ → ℕ
  pub token_urlsafe : ℕ → String
  pub argon2_hash : ℕ → String → String
  pub now : ℕ
  pub db_now : ℕ
  pub others : Db → Db

abbrev pub second : ℕ
second = 1000000
