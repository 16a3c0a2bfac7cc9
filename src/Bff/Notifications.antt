-- ===== src/Bff/Notifications.antt =====
-- api/notifications.py: the endpoints of notifications.
use substy.Base.{String}
use Prim.Native.String
use substy.Bff.Model.{Identity, Request, Response, Call, Library, Env, Settings}
use substy.Bff.Proxy.{proxy_request, proxied}

module _ (lib : Library) (settings : Settings) (env : Env) where
  unfoldable pub create_notification : Identity → Request → Call Response
  unfolding proxy_request
  create_notification identity request =
      proxied lib settings env "notifications" "/notifications" identity request

  unfoldable pub get_notification : String → Identity → Request → Call Response
  unfolding proxy_request
  get_notification notification_id identity request =
      proxied lib settings env "notifications" (String.◌++◌ "/notifications/" notification_id)
        identity request

  unfoldable pub list_my_notifications : Identity → Request → Call Response
  unfolding proxy_request
  list_my_notifications identity request =
      proxied lib settings env "notifications" "/notifications/me" identity request
