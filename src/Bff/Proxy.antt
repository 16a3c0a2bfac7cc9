-- ===== src/Bff/Proxy.antt =====
-- proxy/service.py: proxy_request.
use substy.Base.{
  ℕ, Option, none, some, List, [], ◌∷◌, ◌++◌, String, leb, if◌then◌else◌, ok, pure, ◌>>=◌, ◌>>◌,
}
use substy.Bff.Model.{
  Identity, Request, Upstream, Response, raw, unchanged, Call, Library, Env, Settings, Bytes,
}
use substy.Bff.Headers.{without, proxy_headers}
use substy.Bff.Downstream.{send_with_retries}

-- The body that the middleware has read.
abbrev pub cached_body : Request → Bytes
cached_body request = elim request.cached_body [ none ↦ request.body | some body ↦ body ]

-- `metrics.inc_downstream_error` on a status of 500 and above.
abbrev pub record_error : String → ℕ → Call (Unit {0})
record_error service status w = (
  ok tt,
  (if leb 500 status
      then record w { downstream_errors = w.downstream_errors ++ service ∷ [] }
      else w),
)

abbrev pub passed_on : Library → List String → Upstream → Response
passed_on lib blocked upstream = record {
  status_code = upstream.status_code;
  headers = without lib blocked upstream.headers;
  content = raw upstream.content;
  cookie = unchanged;
}

module _ (lib : Library) (settings : Settings) (env : Env) where
  unfoldable pub proxy_request :
      String → String → Option String → Option (List String) → Request → Call Response
  unfolding send_with_retries proxy_headers
  proxy_request service_name base_path user_id user_roles request = do
    upstream ← send_with_retries lib env settings.http_retries_get (record {
      service = service_name;
      method = request.method;
      path = base_path;
      params = request.query;
      headers = proxy_headers lib request user_id user_roles;
      content = cached_body request;
    })
    record_error service_name upstream.status_code
    pure (passed_on lib ("transfer-encoding" ∷ "connection" ∷ "content-length" ∷ []) upstream)

  -- `proxy_request` for a user that has been authenticated.
  abbrev pub proxied : String → String → Identity → Request → Call Response
  proxied service_name base_path identity request =
      proxy_request service_name base_path (some (lib.uuid_text identity.user_id))
        (some identity.roles) request
