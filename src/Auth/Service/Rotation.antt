-- ===== src/Auth/Service/Rotation.antt =====
-- The rotation of refresh tokens: what `refresh` and `logout` of services/auth.py do to the session
-- of the token that they are given.
pub mod Rows
use substy.Base.{
  ℕ, true, false, ◌≡◌, refl, ◌∙◌, arith, ◌+◌, Error, Option, Option-cases, none, some, List, [],
  ◌∷◌, ◌++◌, String, str_eq, if◌then◌else◌, Bool-cases, inl, inr, All, All-append, find_row,
  update_where, Outcome, ok, err, no_tx, in_tx, leave, pure, ◌>>=◌, ◌>>◌, >>=-ok, answer_of,
}
use substy.Auth.Model.{User, Session, Db, Store, Library, Env}
use substy.Auth.Users
use substy.Auth.Sessions
use substy.Auth.Sessions.{is_live, open_hash, open_id, revoked, is_open}
use substy.Auth.Tokens.{hash_token, expires_at}
use substy.Auth.Service.{
  TokenPair, AuthService, active_user, meanwhile, refresh_session, token_pair, draw,
  create_session_tokens, rotate, refresh, logout, invalid_refresh,
}
use substy.Auth.Service.Rotation.Rows.{
  OnlyIn, IsSpent, spent_found, revoke_id-IsSpent, revoke_hash-IsSpent, create-appends,
}

module _ (lib : Library) (svc : AuthService) where
  -- A token without an open session is refused, and nothing is written.
  pub refresh_spent :
      (env : Env) (token : String) (ua ip : Option String) (s : Store)
      → s.tx ≡ no_tx
      → IsSpent (hash_token lib svc.pepper token) s.db
      → refresh lib svc env token ua ip s ≡ (err invalid_refresh, s)
  unfolding refresh Sessions.get_active_by_hash
  refresh_spent env token ua ip s hs k =
      ground (arith, hs, spent_found env (hash_token lib svc.pepper token) s.db.sessions k)

  -- So a spent hash other than the new token's stays spent.
  tokens-IsSpent :
      (env : Env) (h : String) (user_id : ℕ) (ua ip : Option String) (pair : TokenPair)
      (s t : Store)
      → create_session_tokens lib svc env user_id ua ip s ≡ (ok pair, t)
      → str_eq (hash_token lib svc.pepper pair.refresh_token) h ≡ false
      → IsSpent h s.db
      → (t.tx ≡ s.tx) × IsSpent h t.db
  unfolding create_session_tokens
  tokens-IsSpent env h user_id ua ip pair s t created fresh k =
      let (row, s', e, l) =
        >>=-ok
          (Sessions.create lib env (env.uuid4 (s.world.draws + 1)) user_id
            (hash_token lib svc.pepper (env.token_urlsafe s.world.draws)) ua ip
            (expires_at env svc.refresh_ttl_seconds))
          (λ _. pure (token_pair lib svc env user_id (env.token_urlsafe s.world.draws)))
          (draw (draw s).1).1 created in
      let (r, appended, hashed, _, in_block) =
        create-appends lib env _ user_id _ ua ip _ row (draw (draw s).1).1 s' e in
      let same : s' ≡ t = (answer_of l).1 in
      let other : open_hash h r ≡ false = ground (arith, answer_of l, hashed, fresh) in
      (
        rw (← same) in_block,
        rw (← same, appended)
            (All-append (λ x. open_hash h x ≡ false) s.db.sessions (r ∷ []) k (other, tt)),
      )

  block_returned :
      {A : Type 0} (before : Db) (r : Outcome A × Store) (a : A) (t : Store)
      → leave before r ≡ (ok a, t)
      → r ≡ (ok a, r.1)
  block_returned before (ok b, s) a t h = ground arith
  block_returned before (err x, s) a t h = ground arith

  -- A block that returned with the session not aborted is committed.
  committed :
      {A : Type 0} (before : Db) (a b : A) (s t : Store)
      → leave before (ok a, s) ≡ (ok b, t)
      → s.tx ≡ in_tx
      → (t.tx ≡ no_tx) × (t.db ≡ s.db)
  committed before a b s t h k = ground arith

  active_same :
      (e : Error) (o : Option User) (user : User) (s t : Store)
      → active_user e o s ≡ (ok user, t)
      → s ≡ t
  active_same e o user s t h = ground arith

  owner_same : (i : ℕ) (o : Option User) (s t : Store) → Users.get_by_id i s ≡ (ok o, t) → s ≡ t
  unfolding Users.get_by_id
  owner_same i o s t h = ground arith

  rotate-IsSpent :
      (env : Env) (h : String) (session : Session) (user : User) (ua ip : Option String)
      (pair : TokenPair) (s t : Store)
      → OnlyIn h session.id s.db
      → rotate lib svc env session user ua ip s ≡ (ok pair, t)
      → str_eq (hash_token lib svc.pepper pair.refresh_token) h ≡ false
      → (t.tx ≡ no_tx) × IsSpent h t.db
  unfolding rotate Sessions.revoke_by_id
  rotate-IsSpent env h session user ua ip pair s t only r fresh =
      let revoked_first : Store = record s {
        tx = in_tx;
        db = record s.db {
          sessions = update_where (open_id session.id) (revoked env) s.db.sessions;
        };
      } in
      let run = create_session_tokens lib svc env user.id ua ip revoked_first in
      let returned : run ≡ (ok pair, run.1) = block_returned s.db run pair t r in
      let (in_block, spent) =
        tokens-IsSpent env h user.id ua ip pair revoked_first run.1 returned fresh
          (revoke_id-IsSpent env h session.id s.db.sessions only) in
      let (outside, kept) = committed s.db pair pair run.1 t (rw returned at r) in_block in
      (outside, rw kept spent)

  refresh-found :
      (env : Env) (token : String) (ua ip : Option String) (session : Session) (pair : TokenPair)
      (s t : Store)
      → find_row (is_live env (hash_token lib svc.pepper token)) s.db.sessions ≡ some session
      → refresh lib svc env token ua ip s ≡ (ok pair, t)
      → refresh_session lib svc env session ua ip s ≡ (ok pair, t)
  unfolding refresh Sessions.get_active_by_hash
  refresh-found env token ua ip session pair s t e r = ground (arith, e)

  -- What `refresh` leaves when it returned: the session found was the only one of its hash, and
  -- is revoked.
  pub refresh-IsSpent :
      (env : Env) (token : String) (ua ip : Option String) (session : Session) (pair : TokenPair)
      (s t : Store)
      → let h = hash_token lib svc.pepper token in
        find_row (is_live env h) s.db.sessions ≡ some session
        → OnlyIn h session.id s.db
        → ((d : Db) → OnlyIn h session.id d → OnlyIn h session.id (env.others d))
        → refresh lib svc env token ua ip s ≡ (ok pair, t)
        → str_eq (hash_token lib svc.pepper pair.refresh_token) h ≡ false
        → (t.tx ≡ no_tx) × IsSpent h t.db
  unfolding refresh_session
  refresh-IsSpent env token ua ip session pair s t e only keeps r fresh =
      let h = hash_token lib svc.pepper token in
      let start : Store = record s { db = env.others s.db } in
      let (owner, s3, e3, k3) =
        >>=-ok (Users.get_by_id session.user_id)
          (λ o. active_user invalid_refresh o >>= λ user.
            meanwhile env >> rotate lib svc env session user ua ip)
          start (refresh-found env token ua ip session pair s t e r) in
      let (user, s4, e4, k4) =
        >>=-ok (active_user invalid_refresh owner)
          (λ user. meanwhile env >> rotate lib svc env session user ua ip) s3 k3 in
      let kept : start ≡ s4 = owner_same _ owner start s3 e3 ∙ active_same _ owner user s3 s4 e4 in
      rotate-IsSpent env h session user ua ip pair (record s4 { db = env.others s4.db }) t
        (rw (← kept) (keeps _ (keeps _ only))) k4 fresh

  -- A refresh token works once: from the store that a `refresh` with it left when it returned, every
  -- `refresh` with the same token is refused and writes nothing, at any time and whatever else it is
  -- given. This holds
  -- where the session that was found is the only one with the token's hash, other sessions of the
  -- database leave that so, and the new token's hash is another one.
  pub refresh_once :
      (env env' : Env) (token : String) (ua ip ua' ip' : Option String) (session : Session)
      (pair : TokenPair) (s t : Store)
      → let h = hash_token lib svc.pepper token in
        find_row (is_live env h) s.db.sessions ≡ some session
        → OnlyIn h session.id s.db
        → ((d : Db) → OnlyIn h session.id d → OnlyIn h session.id (env.others d))
        → refresh lib svc env token ua ip s ≡ (ok pair, t)
        → str_eq (hash_token lib svc.pepper pair.refresh_token) h ≡ false
        → refresh lib svc env' token ua' ip' t ≡ (err invalid_refresh, t)
  refresh_once env env' token ua ip ua' ip' session pair s t e only keeps r fresh =
      let (outside, spent) =
        refresh-IsSpent env token ua ip session pair s t e only keeps r fresh in
      refresh_spent env' token ua' ip' t outside spent

  -- After a `logout` outside a transaction, every `refresh` with the token is refused.
  pub refresh-logout :
      (env env' : Env) (token : String) (ua ip : Option String) (s : Store)
      → s.tx ≡ no_tx
      → refresh lib svc env' token ua ip (logout lib svc env token s).1
        ≡ (err invalid_refresh, (logout lib svc env token s).1)
  unfolding logout Sessions.revoke_by_hash
  refresh-logout env env' token ua ip s k =
      refresh_spent env' token ua ip _ (rw k refl)
        (rw k (revoke_hash-IsSpent env (hash_token lib svc.pepper token) s.db.sessions))
