-- ===== src/Auth/Service/Access.antt =====
-- Access tokens: what `login` of services/auth.py issues, and what `get_user_by_access_token` makes
-- of it.
use substy.Base.{
  ℕ, Bool, true, false, ◌≡◌, ◌≤◌, ◌<◌, ◌*◌, ◌+◌, refl, ◌∙◌, sym, arith, Option, some, String,
  if◌then◌else◌, find_row, key-find_row, ok, Error, no_tx, lift, not, raise, ◌>>=◌, ◌>>◌, pure,
  >>=-ok, answer_of,
}
use substy.Auth.Model.{User, Store, Library, Env, verified, second}
use substy.Auth.Users
use substy.Auth.Users.{same_email, user_id_is}
use substy.Auth.Sessions
use substy.Auth.Tokens.{
  access_claims, decoded, decode_access_token, verify_password, hash_token, expires_at,
}
use substy.Auth.Service.{
  TokenPair, AuthService, token_pair, draw, active_user, meanwhile, create_session_tokens, login,
  login_as, get_user_by_access_token, invalid_credentials,
}

module _ (lib : Library) (svc : AuthService) where
  -- The pair that is returned has the access token of the user.
  tokens_access :
      (env : Env) (user_id : ℕ) (ua ip : Option String) (pair : TokenPair) (s t : Store)
      → create_session_tokens lib svc env user_id ua ip s ≡ (ok pair, t)
      → pair.access_token ≡ (token_pair lib svc env user_id "").access_token
  unfolding create_session_tokens
  tokens_access env user_id ua ip pair s t created =
      let (row, s', e, l) =
        >>=-ok
          (Sessions.create lib env (env.uuid4 (s.world.draws + 1)) user_id
            (hash_token lib svc.pepper (env.token_urlsafe s.world.draws)) ua ip
            (expires_at env svc.refresh_ttl_seconds))
          (λ _. pure (token_pair lib svc env user_id (env.token_urlsafe s.world.draws)))
          (draw (draw s).1).1 created in
      let issued : token_pair lib svc env user_id (env.token_urlsafe s.world.draws) ≡ pair =
        (answer_of l).0 in
      rw (← issued) refl

  email_found :
      (email : String) (o : Option User) (s t : Store)
      → Users.get_by_email lib email s ≡ (ok o, t)
      → o ≡ find_row (same_email lib email) s.db.users
  unfolding Users.get_by_email
  email_found email o s t h = ground arith

  active_found :
      (e : Error) (o : Option User) (user : User) (s t : Store)
      → active_user e o s ≡ (ok user, t)
      → (o ≡ some user) × (user.is_active ≡ true)
  active_found e o user s t h = ground arith

  verified_by :
      (password hash : String) (v : Bool) (s t : Store)
      → lift (verify_password lib password hash) s ≡ (ok v, t)
      → v ≡ true
      → lib.argon2_verify hash password ≡ verified
  verified_by password hash v s t h k = ground arith

  password_checked :
      (e : Error) (v : Bool) (user_id : ℕ) (env : Env) (ua ip : Option String) (pair : TokenPair)
      (s t : Store)
      → (if not v
            then raise e
            else (meanwhile env >> create_session_tokens lib svc env user_id ua ip))
          s
        ≡ (ok pair, t)
      → (v ≡ true)
        × (create_session_tokens lib svc env user_id ua ip (record s { db = env.others s.db })
            ≡ (ok pair, t))
  password_checked e true user_id env ua ip pair s t h = (refl, h)
  password_checked e false user_id env ua ip pair s t h = cc

  login_as-user :
      (env : Env) (user : User) (password : String) (ua ip : Option String) (pair : TokenPair)
      (s t : Store)
      → login_as lib svc env user password ua ip s ≡ (ok pair, t)
      → (lib.argon2_verify user.password_hash password ≡ verified)
        × (pair.access_token ≡ (token_pair lib svc env user.id "").access_token)
  unfolding login_as
  login_as-user env user password ua ip pair s t r =
      let (v, s', e, k) =
        >>=-ok (lift (verify_password lib password user.password_hash))
          (λ v.
            if not v
            then raise invalid_credentials
            else (meanwhile env >> create_session_tokens lib svc env user.id ua ip))
          s r in
      let (is_verified, issued) = password_checked _ v user.id env ua ip pair s' t k in
      (
        verified_by password user.password_hash v s s' e is_verified,
        tokens_access env user.id ua ip pair _ t issued,
      )

  -- Who logged in: the user of the email, active, whose hash the password verifies.
  login-user :
      (env : Env) (email password : String) (ua ip : Option String) (pair : TokenPair) (s t : Store)
      → login lib svc env email password ua ip s ≡ (ok pair, t)
      → (user : User) × (find_row (same_email lib email) s.db.users ≡ some user)
        × (user.is_active ≡ true)
        × (lib.argon2_verify user.password_hash password ≡ verified)
        × (pair.access_token ≡ (token_pair lib svc env user.id "").access_token)
  unfolding login Users.get_by_email
  login-user env email password ua ip pair s t r =
      let (found, s1, e1, k1) =
        >>=-ok (Users.get_by_email lib email)
          (λ found. active_user invalid_credentials found >>= λ user.
            login_as lib svc env user password ua ip)
          s r in
      let (user, s2, e2, k2) =
        >>=-ok (active_user invalid_credentials found)
          (λ user. login_as lib svc env user password ua ip) s1 k1 in
      let (is_found, is_active) = active_found _ found user s1 s2 e2 in
      let (is_verified, access) = login_as-user env user password ua ip pair s2 t k2 in
      (user, sym (email_found email found s s1 e1) ∙ is_found, is_active, is_verified, access)

  -- The token of a login that returned is decoded to the user that logged in: the one with the
  -- email, active, whose password verified. Before the last second of its time to live,
  -- `get_user_by_access_token` answers with the id and the email of that user's row of that moment,
  -- as active. This holds where the user is still there and active, a UUID is parsed from its text,
  -- and `jwt.decode` gives back the claims that `jwt.encode` was given until they expire.
  pub login-get_user :
      (env env' : Env) (email password : String) (ua ip : Option String) (pair : TokenPair)
      (user current : User) (s t later : Store)
      → ((n : ℕ) → lib.parse_uuid (lib.uuid_text n) ≡ some n)
      → ((subject : String)
          → let claims = access_claims svc.jwt env subject in
            claims.iat * second ≤ env'.now
            → env'.now < claims.exp * second
            → decoded lib svc.jwt env' (lib.jwt_encode svc.jwt.encode_key svc.jwt.algorithm claims)
              ≡ some claims)
      → env.now ≤ env'.now
      → env'.now + second ≤ env.now + svc.jwt.access_ttl * second
      → find_row (same_email lib email) s.db.users ≡ some user
      → login lib svc env email password ua ip s ≡ (ok pair, t)
      → later.tx ≡ no_tx
      → find_row (user_id_is user.id) later.db.users ≡ some current
      → current.is_active ≡ true
      → (user.is_active ≡ true)
        × (lib.argon2_verify user.password_hash password ≡ verified)
        × (get_user_by_access_token lib svc env' pair.access_token later
            ≡ (ok (user.id, current.email, true), later))
  unfolding get_user_by_access_token decode_access_token Users.get_by_id
  login-get_user env env' email password ua ip pair user current s t later parses decodes h0 h1
        found r outside stays active =
      let (user', found', is_active, is_verified, access) =
        login-user env email password ua ip pair s t r in
      let same : user' ≡ user = cc in
      let claims_back = decodes (lib.uuid_text user.id) (omega arith) (omega arith) in
      (
        rw (← same) is_active,
        rw (← same) is_verified,
        ground (
          arith,
          access,
          same,
          claims_back,
          parses user.id,
          outside,
          stays,
          active,
          key-find_row (λ (u : User). u.id) user.id later.db.users current stays,
        ),
      )
