-- ===== src/Bff/Services.antt =====
-- core/dependencies.py of the notifications and of the subscriptions service: whom a request of the
-- gateway is for.
pub mod Forwarded
use substy.Base.{
  ℕ, Bool, not, Option, none, some, List, [], ◌∷◌, String, map, rows_where, strip, split, truthy,
  member, or_default, if◌then◌else◌, Outcome, ok, err, Error, unauthorized, forbidden,
}
use substy.Bff.Model.{Headers, Library}
use substy.Bff.Headers.{get_header}

-- `UUID(x_user_id)` of a header that is there and not empty.
abbrev pub user_named : Library → Option String → Outcome ℕ
user_named lib none = err (unauthorized "Unauthorized")
user_named lib (some x_user_id) =
    if not (truthy x_user_id)
    then err (unauthorized "Unauthorized")
    else elim (lib.parse_uuid x_user_id) [
      | none ↦ err (unauthorized "Unauthorized")
      | some user_id ↦ ok user_id
    ]

unfoldable pub get_current_user_id : Library → Headers → Outcome ℕ
unfolding get_header
get_current_user_id lib headers = user_named lib (get_header lib "x-user-id" headers)

-- The set of the roles, as a list.
abbrev pub roles_named : Library → String → List String
roles_named lib x_user_roles =
    map (λ role. lib.lower (strip role))
      (rows_where (λ role. truthy (strip role)) (split b',' x_user_roles))

unfoldable pub get_roles : Library → Headers → List String
unfolding get_header split strip
get_roles lib headers = elim (get_header lib "x-user-roles" headers) [
  | none ↦ roles_named lib ""
  | some x_user_roles ↦ roles_named lib x_user_roles
]

unfoldable pub require_admin : Library → Headers → Outcome (Unit {0})
unfolding get_roles member
require_admin lib headers =
    if member "admin" (get_roles lib headers) then ok tt else err (forbidden "Forbidden")
