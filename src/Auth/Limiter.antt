-- ===== src/Auth/Limiter.antt =====
-- core/rate_limiter.py: RateLimiter over INCR and EXPIRE of Redis, which answers every command.
use substy.Base.{ℕ, String, ◌==◌, ltb, if◌then◌else◌, ok, rate_limited, pure, raise, ◌>>=◌, ◌>>◌}
use substy.Auth.Model.{Call, Library, Env}

unfoldable pub incr : Library → Env → String → Call ℕ
incr lib env key s =
    let (current, keys) = lib.redis_incr env.now key s.world.redis in
    (ok current, record s { world = record s.world { redis = keys } })

unfoldable pub expire : Library → Env → String → ℕ → Call (Unit {0})
expire lib env key window_seconds s = (
  ok tt,
  record s {
    world = record s.world { redis = lib.redis_expire env.now key window_seconds s.world.redis };
  },
)

unfoldable pub enforce : Library → Env → ℕ → String → ℕ → Call (Unit {0})
unfolding incr expire
enforce lib env window_seconds key limit = do
  current ← incr lib env key
  (if current == 1 then expire lib env key window_seconds else pure tt)
  if ltb limit current then raise (rate_limited "Too many requests") else pure tt
