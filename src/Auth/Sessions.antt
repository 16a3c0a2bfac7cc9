-- ===== src/Auth/Sessions.antt =====
-- repositories/sessions.py.
use substy.Base.{
  ℕ, Bool, ◌&&◌, not, Option, none, some, [], ◌∷◌, ◌++◌, String, true, false, str_eq, ◌==◌, ltb,
  if◌then◌else◌, find_row, has_row, update_where, ok, data_error, statement, refuse, gets,
  modify_db, pure, raise, ◌>>=◌,
}
use substy.Auth.Model.{Session, Call, Library, Env}
use substy.Auth.Users.{user_id_is}

abbrev pub session_id_is : ℕ → Session → Bool
session_id_is i r = r.id == i

abbrev pub is_open : Option ℕ → Bool
is_open none = true
is_open (some at) = false

-- What asyncpg makes of the `inet` argument: NULL, an address, or a DataError.
abbrev pub inet : Library → Option String → Call (Option String)
inet lib none = pure none
inet lib (some ip) = elim (lib.inet_text ip) [
  | none ↦ raise (data_error "invalid input for query argument $5")
  | some address ↦ pure (some address)
]

-- INSERT, with the primary key (23505) and the reference to the user (23503).
unfoldable pub insert : Session → Call Session
insert row = statement λ s.
    if has_row (session_id_is row.id) s.db.sessions
    then refuse "23505" s
    else if not (has_row (user_id_is row.user_id) s.db.users)
    then refuse "23503" s
    else (ok row, record s { db = record s.db { sessions = s.db.sessions ++ row ∷ [] } })

abbrev pub new_row : Env → ℕ → ℕ → String → Option String → Option String → ℕ → Session
new_row env session_id user_id token_hash user_agent address expires_at = record {
  id = session_id;
  user_id = user_id;
  token_hash = token_hash;
  user_agent = user_agent;
  ip_address = address;
  expires_at = expires_at;
  revoked_at = none;
  created_at = env.db_now;
}

unfoldable pub create :
    Library → Env → ℕ → ℕ → String → Option String → Option String → ℕ → Call Session
unfolding insert
create lib env session_id user_id token_hash user_agent ip_address expires_at = do
  address ← inet lib ip_address
  insert (new_row env session_id user_id token_hash user_agent address expires_at)

abbrev pub is_live : Env → String → Session → Bool
is_live env token_hash r =
    str_eq r.token_hash token_hash && is_open r.revoked_at && ltb env.db_now r.expires_at

unfoldable pub get_active_by_hash : Env → String → Call (Option Session)
get_active_by_hash env token_hash =
    statement (gets λ s. find_row (is_live env token_hash) s.db.sessions)

abbrev pub revoked : Env → Session → Session
revoked env r = record r { revoked_at = some env.db_now }

abbrev pub open_hash : String → Session → Bool
open_hash token_hash r = str_eq r.token_hash token_hash && is_open r.revoked_at

abbrev pub open_id : ℕ → Session → Bool
open_id session_id r = r.id == session_id && is_open r.revoked_at

unfoldable pub revoke_by_hash : Env → String → Call (Unit {0})
revoke_by_hash env token_hash = statement (
    modify_db
      λ d. record d { sessions = update_where (open_hash token_hash) (revoked env) d.sessions })

unfoldable pub revoke_by_id : Env → ℕ → Call (Unit {0})
revoke_by_id env session_id = statement (
    modify_db
      λ d. record d { sessions = update_where (open_id session_id) (revoked env) d.sessions })
