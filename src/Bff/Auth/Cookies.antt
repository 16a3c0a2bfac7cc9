-- ===== src/Bff/Auth/Cookies.antt =====
-- Where the refresh token goes: the responses of the session endpoints of api/auth.py.
use substy.Base.{
  Bool, true, false, ◌≡◌, refl, arith, Option, Option-cases, none, some, String, if◌then◌else◌,
  Fields, Outcome, ok, err, pure, lift, ◌>>◌, HoldsFor, Answers, >>=-Answers, inl, inr,
}
use substy.Bff.Model.{
  Request, Upstream, Response, Content, raw, json, no_content, cleared, World, Library, Env,
  Settings,
}
use substy.Bff.Values.{as_json_dict, get_field, pop_field, nonempty_text}
use substy.Bff.Proxy.{cached_body, record_error, passed_on}
use substy.Bff.Auth.{
  token_from, token_response, login, refresh, refresh_with, logout, logout_with, logged_out,
  send_auth_request, refresh_token_of, token_body, unauthorized_response,
  is_invalid_refresh_token_status, blocked,
}

abbrev token_of_payload : Outcome (Option Fields) → Option String
token_of_payload (ok (some payload)) = nonempty_text (get_field "refresh_token" payload)
token_of_payload (ok none) = none
token_of_payload (err e) = none

-- The refresh token that a script of the browser reads in a body.
abbrev pub visible_token : Library → Content → Option String
visible_token lib (raw bytes) = token_of_payload (as_json_dict lib bytes)
visible_token lib (json payload) = nonempty_text (get_field "refresh_token" payload)
visible_token lib no_content = none

get_field-pop_field : (key : String) (fs : Fields) → get_field key (pop_field key fs) ≡ none
unfolding get_field pop_field
get_field-pop_field key Fields.stop = refl
get_field-pop_field key (Fields.field k v fs) = ground (arith, get_field-pop_field key fs)

module _ (lib : Library) where
  abbrev pub IsHidden : Response → Type 0
  IsHidden response = visible_token lib response.content ≡ none

  abbrev pub IsCleared : Response → Type 0
  IsCleared response = response.cookie ≡ cleared

  token_from-IsHidden :
      (u : Upstream) (r : Outcome (Option Fields))
      → as_json_dict lib u.content ≡ r
      → HoldsFor IsHidden (token_from lib u r)
  unfolding token_from
  token_from-IsHidden u (err e) h = tt
  token_from-IsHidden u (ok none) h = ground (arith, h)
  token_from-IsHidden u (ok (some payload)) h =
      elim (Option-cases (nonempty_text (get_field "refresh_token" payload))) [
        | inl no_token ↦ rw (no_token, HoldsFor) (rw h no_token)
        | inr (token, e) ↦ rw (e, HoldsFor, get_field-pop_field "refresh_token" payload) refl
      ]

  token_response-IsHidden : (u : Upstream) → HoldsFor IsHidden (token_response lib u)
  unfolding token_response
  token_response-IsHidden u = token_from-IsHidden u (as_json_dict lib u.content) refl

  unauthorized_response-IsHidden :
      (request : Request) (message : String) → IsHidden (unauthorized_response request message)
  unfolding get_field
  unauthorized_response-IsHidden request message = refl

  module _ (settings : Settings) (env : Env) where
    login-IsHidden :
        (request : Request) → Answers {S = World} IsHidden (login lib settings env request)
    unfolding login
    login-IsHidden request =
        >>=-Answers IsHidden
          (send_auth_request lib settings env request "/auth/login" (cached_body request))
          (λ u. record_error "auth" u.status_code >> lift (token_response lib u))
          (λ u s. token_response-IsHidden u)

    refresh_with-IsHidden :
        (request : Request) (token : Option String)
        → Answers {S = World} IsHidden (refresh_with lib settings env request token)
    unfolding refresh_with
    refresh_with-IsHidden request none s =
        unauthorized_response-IsHidden request "Missing refresh token"
    refresh_with-IsHidden request (some token) w =
        >>=-Answers IsHidden
          (send_auth_request lib settings env request "/auth/refresh" (token_body lib token))
          (λ u.
            record_error "auth" u.status_code
            >> (if is_invalid_refresh_token_status u.status_code
                then pure (unauthorized_response request "Invalid refresh token")
                else lift (token_response lib u)))
          (λ u s. by_status u (is_invalid_refresh_token_status u.status_code) _) w
      where
        by_status :
            (u : Upstream) (b : Bool) (s : World)
            → HoldsFor IsHidden
                ((if b
                    then pure (unauthorized_response request "Invalid refresh token")
                    else lift (token_response lib u))
                  s).0
        by_status u true s = unauthorized_response-IsHidden request "Invalid refresh token"
        by_status u false s = token_response-IsHidden u

    refresh-IsHidden :
        (request : Request) → Answers {S = World} IsHidden (refresh lib settings env request)
    unfolding refresh
    refresh-IsHidden request =
        >>=-Answers IsHidden (lift (refresh_token_of lib settings request))
          (λ token. refresh_with lib settings env request token)
          (λ token. refresh_with-IsHidden request token)

    logout_with-IsCleared :
        (request : Request) (token : Option String)
        → Answers {S = World} IsCleared (logout_with lib settings env request token)
    unfolding logout_with
    logout_with-IsCleared request none s = refl
    logout_with-IsCleared request (some token) w =
        >>=-Answers IsCleared
          (send_auth_request lib settings env request "/auth/logout" (token_body lib token))
          (λ u.
            record_error "auth" u.status_code
            >> (if is_invalid_refresh_token_status u.status_code
                then pure logged_out
                else pure (record (passed_on lib blocked u) { cookie = cleared })))
          (λ u s. by_status u (is_invalid_refresh_token_status u.status_code) _) w
      where
        by_status :
            (u : Upstream) (b : Bool) (s : World)
            → HoldsFor IsCleared
                ((if b
                    then pure logged_out
                    else pure (record (passed_on lib blocked u) { cookie = cleared }))
                  s).0
        by_status u true s = refl
        by_status u false s = refl

    -- The refresh token stays out of the reach of scripts: whatever the auth service answers, no
    -- response that `login` or `refresh` returns has a body that is a JSON object with a
    -- `refresh_token` that is a text and not empty, and every response that `logout` returns clears
    -- the cookie. A call that raises is left out.
    pub session_cookie :
        (request : Request) (w : World)
        → HoldsFor IsHidden (login lib settings env request w).0
          × HoldsFor IsHidden (refresh lib settings env request w).0
          × HoldsFor IsCleared (logout lib settings env request w).0
    unfolding logout
    session_cookie request w = (
      login-IsHidden request w,
      refresh-IsHidden request w,
      >>=-Answers IsCleared (lift (refresh_token_of lib settings request))
          (λ token. logout_with lib settings env request token)
          (λ token. logout_with-IsCleared request token) w,
    )
