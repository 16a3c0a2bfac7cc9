-- ===== src/Bff/Downstream.antt =====
-- clients/downstream.py: requests to the services. The waits between attempts change nothing that is
-- modelled.
pub mod Retries
use substy.Base.{
  ℕ, zero, suc, ◌+◌, Option, List, [], ◌∷◌, ◌++◌, String, str_eq, length, if◌then◌else◌, ok, Error,
  upstream_error, pure, raise, ◌>>=◌,
}
use Prim.Native.String
use substy.Bff.Model.{
  Sent, Upstream, Answer, reply, transient, failed, World, Call, Library, Env, Headers, Bytes,
  Settings,
}

-- `client.request`
abbrev pub ask : Env → Sent → Call Answer
ask env r w = (ok (env.answer (length w.sent) r), record w { sent = w.sent ++ r ∷ [] })

abbrev pub unavailable : String → Error
unavailable service_name = upstream_error (String.◌++◌ service_name " is unavailable")

-- The loop over the attempts that are left.
unfoldable pub attempt_loop : Env → Sent → ℕ → Call Upstream
attempt_loop env r zero = raise (unavailable r.service)
attempt_loop env r (suc n) = do
  answer ← ask env r
  elim answer [
    | reply upstream ↦ pure upstream
    | transient ↦ attempt_loop env r n
    | failed e ↦ raise e
  ]

abbrev pub attempts : Library → ℕ → String → ℕ
attempts lib retries_get method = if str_eq (lib.upper method) "GET" then retries_get + 1 else 1

unfoldable pub send_with_retries : Library → Env → ℕ → Sent → Call Upstream
unfolding attempt_loop
send_with_retries lib env retries_get r =
    attempt_loop env (record r { headers = lib.inject r.headers })
      (attempts lib retries_get r.method)
