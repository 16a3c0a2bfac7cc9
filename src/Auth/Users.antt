-- ===== src/Auth/Users.antt =====
-- repositories/users.py.
use substy.Base.{
  ℕ, Bool, ◌||◌, Option, [], ◌∷◌, ◌++◌, String, true, str_eq, ◌==◌, if◌then◌else◌, find_row,
  has_row, ok, statement, refuse, gets,
}
use substy.Auth.Model.{User, Call, Library, Env}

abbrev pub user_id_is : ℕ → User → Bool
user_id_is i u = u.id == i

abbrev pub same_email : Library → String → User → Bool
same_email lib email u = str_eq (lib.lower u.email) (lib.lower email)

-- INSERT, with the primary key and UNIQUE (email) (23505).
unfoldable pub create : Library → Env → ℕ → String → String → Call User
create lib env user_id email password_hash = statement λ s.
    if has_row (user_id_is user_id) s.db.users || has_row (same_email lib email) s.db.users
    then refuse "23505" s
    else (ok row, record s { db = record s.db { users = s.db.users ++ row ∷ [] } })
  where
    row : User
    row = record {
      id = user_id;
      email = email;
      password_hash = password_hash;
      is_active = true;
      created_at = env.db_now;
    }

unfoldable pub get_by_email : Library → String → Call (Option User)
get_by_email lib email = statement (gets λ s. find_row (same_email lib email) s.db.users)

unfoldable pub get_by_id : ℕ → Call (Option User)
get_by_id user_id = statement (gets λ s. find_row (user_id_is user_id) s.db.users)
