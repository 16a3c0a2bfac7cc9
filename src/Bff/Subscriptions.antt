-- ===== src/Bff/Subscriptions.antt =====
-- api/subscriptions.py: the endpoints of topics and subscriptions. The warnings that are logged are left
-- out.
use substy.Base.{
  ℕ, zero, suc, not, ◌&&◌, ◌||◌, Option, none, some, List, [], ◌∷◌, String, truthy, or_default,
  member, ◌==◌, if◌then◌else◌, Json, Fields, ok, forbidden, pure, raise, lift, ◌>>=◌, ◌>>◌,
}
use Prim.Native.String
use substy.Bff.Model.{
  Identity, Request, Upstream, Response, Call, Library, Env, Settings, Bytes, Headers,
}
use substy.Bff.Values.{as_json_dict, get_field, nonempty_text, text_of}
use substy.Bff.Headers.{base_headers, with_roles, set_header}
use substy.Bff.Downstream.{send_with_retries}
use substy.Bff.Proxy.{cached_body, record_error, passed_on, proxy_request, proxied}
use substy.Bff.Search.{absent, found, search_items, page_params, page_of, next_cursor_of}

abbrev pub blocked : List String
blocked = "transfer-encoding" ∷ "connection" ∷ "content-length" ∷ "content-encoding" ∷ []

-- `_build_headers`
unfoldable pub build_headers : Library → Request → String → List String → Headers
unfolding base_headers with_roles set_header
build_headers lib request user_id user_roles =
    with_roles lib (some user_roles) (set_header "X-User-Id" user_id (base_headers lib request))

abbrev pub concat : List String → String
concat [] = ""
concat (x ∷ xs) = String.◌++◌ x (concat xs)

abbrev pub text_or_null : Option String → Json
text_or_null none = Json.null
text_or_null (some s) = Json.text s

-- The body of the request that announces a change of a subscription.
abbrev pub event_payload : Request → String → String → String → Option String → Json
event_payload request topic_id event_type message subscription_id = Json.object (
    Fields.field "topic_id" (Json.text topic_id) (
      Fields.field "payload"
        (Json.object (
          Fields.field "event_type" (Json.text event_type) (
            Fields.field "message" (Json.text message) (
              Fields.field "topic_id" (Json.text topic_id)
                (Fields.field "subscription_id" (text_or_null subscription_id) Fields.stop)))))
        (Fields.field "idempotency_key"
          (Json.text (
            concat (
              "bff:"
              ∷ event_type
              ∷ ":"
              ∷ or_default subscription_id topic_id
              ∷ ":"
              ∷ request.request_id
              ∷ [])))
          Fields.stop)))

-- What is read of a response of `POST /subscriptions`: the topic and the subscription.
abbrev created_of : Option Fields → Option String × Option String
created_of none = (none, none)
created_of (some payload) =
    (nonempty_text (get_field "topic_id" payload), text_of (get_field "id" payload))

-- `try: … except Exception:`, which only logs.
abbrev ignoring_errors : Call (Unit {0}) → Call (Unit {0})
ignoring_errors m w = let (r, w') = m w in (ok tt, w')

module _ (lib : Library) (settings : Settings) (env : Env) where
  unfoldable pub send_subscriptions_request :
      Request → String → List String → String → String → Bytes → Headers → Call Upstream
  unfolding send_with_retries build_headers
  send_subscriptions_request request user_id user_roles path method body params =
      send_with_retries lib env settings.http_retries_get (record {
        service = "subscriptions";
        method = method;
        path = path;
        params = params;
        headers = build_headers lib request user_id user_roles;
        content = body;
      })

  unfoldable pub notify_subscription_event :
      Request → String → List String → String → String → String → Option String → Call (Unit {0})
  unfolding send_with_retries build_headers set_header
  notify_subscription_event request user_id user_roles topic_id event_type message subscription_id =
      ignoring_errors (do
        upstream ← send_with_retries lib env settings.http_retries_get (record {
          service = "notifications";
          method = "POST";
          path = "/notifications";
          params = [];
          headers =
              set_header "Content-Type" "application/json"
                (build_headers lib request user_id user_roles);
          content =
              lib.json_dumps (event_payload request topic_id event_type message subscription_id);
        })
        record_error "notifications" upstream.status_code)

  -- The loop of `_find_topic_id_by_subscription_id` over the rounds that are left.
  unfoldable pub find_topic_from :
      Request → String → List String → String → ℕ → Option String → Call (Option String)
  unfolding send_subscriptions_request as_json_dict search_items next_cursor_of
  find_topic_from request user_id user_roles subscription_id zero cursor = pure none
  find_topic_from request user_id user_roles subscription_id (suc n) cursor = do
    upstream ←
        send_subscriptions_request request user_id user_roles "/subscriptions/me" "GET" []
          (page_params cursor)
    record_error "subscriptions" upstream.status_code
    if not (upstream.status_code == 200) then pure none else (do
      payload ← lift (as_json_dict lib upstream.content)
      elim (page_of payload) [
        | none ↦ pure none
        | some (items, next) ↦ elim (search_items subscription_id items) [
          | found topic_id ↦ pure topic_id
          | absent ↦ elim next [
            | none ↦ pure none
            | some cursor ↦
                find_topic_from request user_id user_roles subscription_id n (some cursor)
          ]
        ]
      ])

  unfoldable pub find_topic_id_by_subscription_id :
      Request → String → List String → String → Call (Option String)
  unfolding find_topic_from
  find_topic_id_by_subscription_id request user_id user_roles subscription_id =
      find_topic_from request user_id user_roles subscription_id 20 none

  unfoldable pub topics : Identity → Request → Call Response
  unfolding proxy_request
  topics identity request = proxied lib settings env "subscriptions" "/topics" identity request

  unfoldable pub topic_by_id : String → Identity → Request → Call Response
  unfolding proxy_request
  topic_by_id topic_id identity request =
      proxied lib settings env "subscriptions" (String.◌++◌ "/topics/" topic_id) identity request

  unfoldable pub create_topic : Identity → Request → Call Response
  unfolding proxy_request member
  create_topic identity request =
      if not (member "admin" identity.roles)
      then raise (forbidden "Forbidden")
      else proxied lib settings env "subscriptions" "/topics" identity request

  unfoldable pub my_subscriptions : Identity → Request → Call Response
  unfolding proxy_request
  my_subscriptions identity request =
      proxied lib settings env "subscriptions" "/subscriptions/me" identity request

  -- The announcement of a new subscription, if the response names its topic.
  abbrev announce_subscribed : Identity → Request → Option String × Option String → Call (Unit {0})
  announce_subscribed identity request (none, subscription_id) = pure tt
  announce_subscribed identity request (some topic_id, subscription_id) =
      notify_subscription_event request (lib.uuid_text identity.user_id) identity.roles topic_id
        "subscription.subscribed" "You subscribed to topic updates." subscription_id

  unfoldable pub subscribe : Identity → Request → Call Response
  unfolding send_subscriptions_request notify_subscription_event as_json_dict get_field
  subscribe identity request = do
    upstream ←
        send_subscriptions_request request (lib.uuid_text identity.user_id) identity.roles
          "/subscriptions" request.method (cached_body request) request.query
    record_error "subscriptions" upstream.status_code
    (if upstream.status_code == 200 || upstream.status_code == 201
        then (do
          payload ← lift (as_json_dict lib upstream.content)
          announce_subscribed identity request (created_of payload))
        else pure tt)
    pure (passed_on lib blocked upstream)

  -- The announcement of a subscription's end, if its topic was found before.
  abbrev announce_unsubscribed : Identity → Request → String → ℕ → Option String → Call (Unit {0})
  announce_unsubscribed identity request subscription_id status none = pure tt
  announce_unsubscribed identity request subscription_id status (some topic_id) =
      if status == 204 && truthy topic_id
      then notify_subscription_event request (lib.uuid_text identity.user_id) identity.roles
          topic_id "subscription.unsubscribed" "You unsubscribed from topic updates."
          (some subscription_id)
      else pure tt

  unfoldable pub unsubscribe : String → Identity → Request → Call Response
  unfolding find_topic_id_by_subscription_id send_subscriptions_request notify_subscription_event
  unsubscribe subscription_id identity request = do
    topic_id ←
        find_topic_id_by_subscription_id request (lib.uuid_text identity.user_id) identity.roles
          subscription_id
    upstream ←
        send_subscriptions_request request (lib.uuid_text identity.user_id) identity.roles
          (String.◌++◌ "/subscriptions/" subscription_id) request.method (cached_body request)
          request.query
    record_error "subscriptions" upstream.status_code
    announce_unsubscribed identity request subscription_id upstream.status_code topic_id
    pure (passed_on lib blocked upstream)

  unfoldable pub update_subscription : String → Identity → Request → Call Response
  unfolding proxy_request
  update_subscription subscription_id identity request =
      proxied lib settings env "subscriptions" (String.◌++◌ "/subscriptions/" subscription_id)
        identity request
