-- ===== src/Bff/Headers.antt =====
-- proxy/headers.py, the header helpers of api/auth.py, api/subscriptions.py and proxy/service.py, and
-- how a service behind the gateway reads a header.
use substy.Base.{
  not, Option, none, some, List, [], ◌∷◌, String, strip, truthy, member, first_piece, joined_by,
  str_eq, if◌then◌else◌, rows_where,
}
use substy.Bff.Model.{Headers, Request, Library}

abbrev pub hop_by_hop : List String
hop_by_hop =
    "host" ∷ "connection" ∷ "keep-alive" ∷ "proxy-authenticate" ∷ "proxy-authorization" ∷ "te"
    ∷ "trailer" ∷ "transfer-encoding" ∷ "upgrade" ∷ "content-length" ∷ "content-encoding" ∷ []

-- The headers whose names are not among those.
abbrev pub without : Library → List String → Headers → Headers
without lib blocked headers = rows_where (λ h. not (member (lib.lower h.0) blocked)) headers

abbrev pub filter_request_headers : Library → Headers → Headers
filter_request_headers lib headers = without lib hop_by_hop headers

-- `dict(request.headers)`: of the headers with one name the first is kept.
abbrev pub dict_of : Headers → Headers
dict_of [] = []
dict_of ((k, v) ∷ headers) = (k, v) ∷ rows_where (λ h. not (str_eq h.0 k)) (dict_of headers)

-- `headers[name] = value` on a dict: names are equal as they are spelled.
unfoldable pub set_header : String → String → Headers → Headers
set_header name value [] = (name, value) ∷ []
set_header name value ((k, v) ∷ headers) =
    let rest = set_header name value headers in
    if str_eq k name then (k, value) ∷ headers else (k, v) ∷ rest

-- `request.headers.get(name)` of Starlette: the first header of that name in any case.
unfoldable pub get_header : Library → String → Headers → Option String
get_header lib name [] = none
get_header lib name ((k, v) ∷ headers) =
    let rest = get_header lib name headers in if str_eq (lib.lower k) name then some v else rest

abbrev pub host_or_unknown : Option String → String
host_or_unknown none = "unknown"
host_or_unknown (some host) = host

unfoldable pub client_ip : Library → Request → String
unfolding get_header strip first_piece
client_ip lib request = from_header (get_header lib "x-forwarded-for" request.headers)
  where
    from_header : Option String → String
    from_header none = host_or_unknown request.client_host
    from_header (some forwarded) =
        if truthy forwarded
        then strip (first_piece b',' forwarded)
        else host_or_unknown request.client_host

-- The headers that every forwarded request carries.
unfoldable pub base_headers : Library → Request → Headers
unfolding set_header client_ip
base_headers lib request = set_header "X-Client-Ip" (client_ip lib request) (
    set_header "X-Request-Id" request.request_id
      (filter_request_headers lib (dict_of request.headers)))

abbrev pub with_user : Option String → Headers → Headers
with_user none headers = headers
with_user (some user_id) headers =
    if truthy user_id then set_header "X-User-Id" user_id headers else headers

unfoldable pub with_roles : Library → Option (List String) → Headers → Headers
unfolding set_header joined_by
with_roles lib none headers = headers
with_roles lib (some roles) headers =
    set_header "X-User-Roles" (joined_by "," (lib.sorted roles)) headers

-- The headers of `proxy_request`.
unfoldable pub proxy_headers : Library → Request → Option String → Option (List String) → Headers
unfolding base_headers with_roles set_header
proxy_headers lib request user_id user_roles =
    with_roles lib user_roles (with_user user_id (base_headers lib request))
