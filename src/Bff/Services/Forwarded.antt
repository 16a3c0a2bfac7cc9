-- ===== src/Bff/Services/Forwarded.antt =====
-- The user that a service behind the gateway takes a proxied request to be from.
use substy.Base.{
  ℕ, true, false, ◌≡◌, refl, ◌∙◌, arith, Option, none, some, List, [], ◌∷◌, String, str_eq, eq_iff,
  eq_refl, truthy, member, Bool-cases, inl, inr, All, All-mono, All-rows_where, rows_where, not, ok,
}
use substy.Bff.Model.{Headers, Request, Library}
use substy.Bff.Headers.{
  hop_by_hop, without, dict_of, set_header, get_header, base_headers, with_roles, proxy_headers,
  client_ip,
}
use substy.Bff.Services.{user_named, get_current_user_id}

All-dict_of :
    (P : String × String → Type 0) (headers : Headers) → All P headers → All P (dict_of headers)
All-dict_of P [] h = tt
All-dict_of P (x ∷ headers) h =
    (h.0, All-rows_where P _ (dict_of headers) (All-dict_of P headers h.1))

-- No header is spelled so.
abbrev NotSpelled : String → Headers → Type 0
NotSpelled name headers = All (λ h. str_eq h.0 name ≡ false) headers

abbrev first_of : Option String → String → Option String
first_of none v = some v
first_of (some u) v = some u

module _ (lib : Library) where
  get_header-without :
      (name : String) (blocked : List String) (headers : Headers)
      → member name blocked ≡ false
      → get_header lib name (without lib blocked headers) ≡ get_header lib name headers
  unfolding get_header
  get_header-without name blocked [] h = refl
  get_header-without name blocked ((k, v) ∷ headers) h =
      ground (arith, get_header-without name blocked headers h, eq_iff (lib.lower k) name)

  -- The dict answers as the headers do.
  get_header-dropped :
      (name k : String) (headers : Headers)
      → str_eq (lib.lower k) name ≡ false
      → get_header lib name (rows_where (λ h. not (str_eq h.0 k)) headers)
        ≡ get_header lib name headers
  unfolding get_header
  get_header-dropped name k [] differs = refl
  get_header-dropped name k ((n, v) ∷ headers) differs = elim (Bool-cases (str_eq n k)) [
    | inl hit ↦
        let same : n ≡ k = (eq_iff n k).0 hit in
        let other : str_eq (lib.lower n) name ≡ false = rw same differs in
        rw (hit, other) (get_header-dropped name k headers differs)
    | inr miss ↦ rw (miss, get_header-dropped name k headers differs) refl
  ]

  get_header-dict_of :
      (name : String) (headers : Headers)
      → get_header lib name (dict_of headers) ≡ get_header lib name headers
  unfolding get_header
  get_header-dict_of name [] = refl
  get_header-dict_of name ((k, v) ∷ headers) = elim (Bool-cases (str_eq (lib.lower k) name)) [
    | inl hit ↦ rw hit refl
    | inr miss ↦
        rw miss (get_header-dropped name k (dict_of headers) miss ∙ get_header-dict_of name headers)
  ]

  get_other-set_header :
      (target name value : String) (headers : Headers)
      → str_eq (lib.lower name) target ≡ false
      → get_header lib target (set_header name value headers) ≡ get_header lib target headers
  unfolding get_header set_header
  get_other-set_header target name value [] h = ground arith
  get_other-set_header target name value ((k, v) ∷ headers) h =
      ground (arith, get_other-set_header target name value headers h, eq_iff k name)

  -- A name that is not spelled so yet comes behind what is there.
  get_header-set_header :
      (target name value : String) (headers : Headers)
      → str_eq (lib.lower name) target ≡ true
      → NotSpelled name headers
      → get_header lib target (set_header name value headers)
        ≡ first_of (get_header lib target headers) value
  unfolding get_header set_header
  get_header-set_header target name value [] h k = ground arith
  get_header-set_header target name value ((n, v) ∷ headers) h k =
      ground (arith, get_header-set_header target name value headers h k.1, k.0)

  set_header-NotSpelled :
      (other name value : String) (headers : Headers)
      → str_eq name other ≡ false
      → NotSpelled other headers
      → NotSpelled other (set_header name value headers)
  unfolding set_header
  set_header-NotSpelled other name value [] h k = (h, tt)
  set_header-NotSpelled other name value ((n, v) ∷ headers) h k =
      ground (arith, set_header-NotSpelled other name value headers h k.1)

  lower-NotSpelled :
      (name : String) (headers : Headers)
      → str_eq (lib.lower name) name ≡ false
      → All (λ h. lib.lower h.0 ≡ h.0) headers
      → NotSpelled name headers
  lower-NotSpelled name headers differs k =
      All-mono _ _ headers
        (λ h same. elim (Bool-cases (str_eq h.0 name)) [
          | inl hit ↦
              let spelled : h.0 ≡ name = (eq_iff h.0 name).0 hit in
              let same_name : lib.lower name ≡ name = rw spelled at same in
              let refused : str_eq name name ≡ false = rw same_name at differs in
              ground (arith, eq_refl name)
          | inr miss ↦ miss
        ])
        k

  -- Whose request a service behind the gateway takes a proxied request to be: where the browser sends
  -- no `x-user-id`, the one that the gateway authenticated, and otherwise what the browser's first
  -- `x-user-id` says, since the gateway adds its own header behind it. This holds where the header
  -- names of the request are in lower case, `lower` does so with the names that the gateway adds, and
  -- the authenticated id is printed as a text that is not empty and is parsed to the id.
  pub proxied_user :
      (request : Request) (user_id : ℕ) (roles : List String)
      → lib.lower "X-User-Id" ≡ "x-user-id"
      → lib.lower "X-Request-Id" ≡ "x-request-id"
      → lib.lower "X-Client-Ip" ≡ "x-client-ip"
      → lib.lower "X-User-Roles" ≡ "x-user-roles"
      → All (λ h. lib.lower h.0 ≡ h.0) request.headers
      → truthy (lib.uuid_text user_id) ≡ true
      → lib.parse_uuid (lib.uuid_text user_id) ≡ some user_id
      → get_current_user_id lib
          (proxy_headers lib request (some (lib.uuid_text user_id)) (some roles))
        ≡ elim (get_header lib "x-user-id" request.headers) [
          | none ↦ ok user_id
          | some sent ↦ user_named lib (some sent)
        ]
  unfolding get_current_user_id proxy_headers with_roles base_headers member
  proxied_user request user_id roles l1 l2 l3 l4 names filled parsed =
      let kept = without lib hop_by_hop (dict_of request.headers) in
      let with_id = set_header "X-Request-Id" request.request_id kept in
      let with_ip = set_header "X-Client-Ip" (client_ip lib request) with_id in
      let with_user = set_header "X-User-Id" (lib.uuid_text user_id) with_ip in
      let unspelled : NotSpelled "X-User-Id" with_ip =
        set_header-NotSpelled "X-User-Id" "X-Client-Ip" (client_ip lib request) with_id refl (
          set_header-NotSpelled "X-User-Id" "X-Request-Id" request.request_id kept refl (
            All-rows_where _ _ (dict_of request.headers) (
              All-dict_of _ request.headers
                (lower-NotSpelled "X-User-Id" request.headers (rw l1 refl) names)))) in
      let seen : get_header lib "x-user-id" with_user
          ≡ first_of (get_header lib "x-user-id" request.headers) (lib.uuid_text user_id) =
        get_header-set_header "x-user-id" "X-User-Id" (lib.uuid_text user_id) with_ip (rw l1 refl)
          unspelled
        ∙ rw
            (
              get_other-set_header "x-user-id" "X-Client-Ip" (client_ip lib request) with_id
                  (rw l3 refl),
              get_other-set_header "x-user-id" "X-Request-Id" request.request_id kept (rw l2 refl),
              get_header-without "x-user-id" hop_by_hop (dict_of request.headers) refl,
              get_header-dict_of "x-user-id" request.headers,
            )
            refl in
      let read : get_header lib "x-user-id"
            (proxy_headers lib request (some (lib.uuid_text user_id)) (some roles))
          ≡ first_of (get_header lib "x-user-id" request.headers) (lib.uuid_text user_id) =
        rw filled
          (get_other-set_header "x-user-id" "X-User-Roles" _ with_user (rw l4 refl) ∙ seen) in
      rw read (by_header (get_header lib "x-user-id" request.headers))
    where
      by_header :
          (o : Option String)
          → user_named lib (first_of o (lib.uuid_text user_id))
            ≡ elim o [ none ↦ ok user_id | some sent ↦ user_named lib (some sent) ]
      by_header none = ground (arith, filled, parsed)
      by_header (some sent) = refl
