-- ===== src/Auth/Tests.antt =====
-- Runs of the auth service.
use substy.Base.{
  ◌+◌, ◌≡◌, refl, ap, true, false, some, none, [], ◌∷◌, String, str_eq, char_count, tally,
  char_count-tally, if◌then◌else◌, Option, ok, err, no_tx, arith, rate_limited,
}
use substy.Auth.Model.{User, Session, Store, Library, Env, verified, mismatch}
use substy.Auth.Users
use substy.Auth.Sessions
use substy.Auth.Tokens.{JwtManager, access_claims}
use substy.Auth.Limiter.{enforce}
use substy.Auth.Service.{
  AuthService, TokenPair, login, refresh, register, get_user_by_access_token, invalid_refresh,
}
use substy.Auth.Service.Rotation.{refresh_once}
use substy.Auth.Service.Access.{login-get_user}
use substy.Auth.Api.{client_ip}

abbrev manager : JwtManager
manager = record {
  algorithm = "HS256";
  issuer = "auth-service";
  audience = "substy";
  access_ttl = 900;
  encode_key = "secret";
  decode_key = "secret";
}

abbrev service : AuthService
service = record { jwt = manager; pepper = "pepper"; refresh_ttl_seconds = 3600 }

abbrev first_env : Env
first_env = record {
  uuid4 = λ n. 500 + n;
  token_urlsafe = λ n. "new-token";
  argon2_hash = λ n password. password;
  now = 5000000;
  db_now = 5000000;
  others = λ d. d;
}

abbrev later_env : Env
later_env = record first_env { now = 60000000; db_now = 60000000 }

abbrev subject_of : Option String → String
subject_of none = ""
subject_of (some subject) = subject

abbrev library : Library
library = record {
  sha256_hex = λ s. s;
  argon2_verify = λ hash password. if str_eq hash password then verified else mismatch;
  uuid_text = tally;
  parse_uuid = λ s. some (char_count s);
  jwt_encode = λ key algorithm claims. subject_of claims.sub;
  jwt_decode =
      λ now key algorithm audience issuer token. some (access_claims manager first_env token);
  inet_text = λ ip. some ip;
  redis_incr = λ now key keys. (1, record { key = key; count = 1; expires_at = none } ∷ keys);
  redis_expire = λ now key window_seconds keys. keys;
  lower = λ s. s;
}

abbrev alice : User
alice = record {
  id = 3;
  email = "alice@example.com";
  password_hash = "correct horse";
  is_active = true;
  created_at = 1000000;
}

abbrev old_session : Session
old_session = record {
  id = 7;
  user_id = 3;
  token_hash = "old-token:pepper";
  user_agent = none;
  ip_address = none;
  expires_at = 99000000;
  revoked_at = none;
  created_at = 2000000;
}

abbrev before : Store
before = record {
  db = record { users = alice ∷ []; sessions = old_session ∷ [] };
  tx = no_tx;
  world = record { draws = 0; redis = [] };
}

abbrev issued : Session
issued = record {
  id = 501;
  user_id = 3;
  token_hash = "new-token:pepper";
  user_agent = none;
  ip_address = none;
  expires_at = 3605000000;
  revoked_at = none;
  created_at = 5000000;
}

abbrev new_pair : TokenPair
new_pair = record { access_token = tally 3; refresh_token = "new-token"; expires_in = 900 }

abbrev rotated : Store
rotated = record {
  db = record {
    users = alice ∷ [];
    sessions = record old_session { revoked_at = some 5000000 } ∷ issued ∷ [];
  };
  tx = no_tx;
  world = record { draws = 2; redis = [] };
}

abbrev logged_in : Store
logged_in = record rotated {
  db = record { users = alice ∷ []; sessions = old_session ∷ issued ∷ [] };
}

rotates : refresh library service first_env "old-token" none none before ≡ (ok new_pair, rotated)
unfolding refresh Sessions.get_active_by_hash Sessions.revoke_by_id Sessions.create Users.get_by_id
    tally
rotates = refl

logs_in :
    login library service first_env "alice@example.com" "correct horse" none none before
    ≡ (ok new_pair, logged_in)
unfolding login Sessions.create Users.get_by_email tally
logs_in = refl

refresh_once_example :
    refresh library service later_env "old-token" none none rotated ≡ (err invalid_refresh, rotated)
refresh_once_example =
    refresh_once library service first_env later_env "old-token" none none none none old_session
      new_pair before rotated refl ((λ h. refl), tt) (λ d k. k) rotates refl

login-get_user_example :
    (alice.is_active ≡ true)
    × (library.argon2_verify alice.password_hash "correct horse" ≡ verified)
    × (get_user_by_access_token library service later_env (tally 3) logged_in
        ≡ (ok (3, "alice@example.com", true), logged_in))
unfolding tally char_count
login-get_user_example =
    login-get_user library service first_env later_env "alice@example.com" "correct horse" none none
      new_pair alice alice before logged_in logged_in (λ n. ap some (char_count-tally n))
      (λ subject h k. refl) (omega arith) (omega arith) refl logs_in refl refl refl

first_of_two :
    client_ip (record {
      forwarded_for = some "10.0.0.1, 10.0.0.2";
      client_host = none;
      user_agent = none;
      credentials = none;
    })
    ≡ "10.0.0.1"
unfolding client_ip
first_of_two = refl

registers_twice :
    (register library service first_env "alice@example.com" "correct horse" before).0 ≡ ok false
unfolding register Users.create
registers_twice = refl

limits :
    (enforce library first_env 60 "rate:login" 0 before).0 ≡ err (rate_limited "Too many requests")
unfolding enforce
limits = refl

-- Another refresh with the token commits after this one has read the session: both return a pair.
abbrev overlapping : Env
overlapping = record first_env { others = λ d. rotated.db; uuid4 = λ n. 600 + n }

both_refresh : (refresh library service overlapping "old-token" none none before).0 ≡ ok new_pair
unfolding refresh Sessions.get_active_by_hash Sessions.revoke_by_id Sessions.create Users.get_by_id
    tally
both_refresh = refl
