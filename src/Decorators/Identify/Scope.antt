-- ===== src/Decorators/Identify/Scope.antt =====
-- decorators.py, `_resolve_identity`: each of its three sources gives an identity of one tenant.
use secure_multi_tenant_saas.Prelude.{
  ℕ, ◌≡◌, refl, Bool, true, false, Option, none, some, truthy?, or_empty, if◌then◌else◌,
}
use secure_multi_tenant_saas.Prelude.Exec.{
  Result, ok, err, and_then, and_then-eq-ok, invalid_token, trusted_header_auth,
}
use secure_multi_tenant_saas.Config.{Config}
use secure_multi_tenant_saas.Web.{Identity, Request, Session}
use secure_multi_tenant_saas.Auth.{Jwt, validate_jwt, resolve_tenant_and_role}
use secure_multi_tenant_saas.Auth.Resolve.{IsScoped, resolve-IsScoped}
use secure_multi_tenant_saas.Decorators.Identify.{
  none_if_invalid, none_if_untrusted, bearer_token, from_headers, from_session, or_from_headers,
  resolve_trusted_header_identity, resolve_bearer_jwt_identity, resolve_identity,
}
use secure_multi_tenant_saas.Decorators.Identify.Headers.{trusted_header-IsVouched}

-- An identity that is there is of one tenant.
abbrev pub IsScoped? : Option Identity → Type 0
IsScoped? none = Unit
IsScoped? (some i) = IsScoped i

-- So is one that a step returned.
abbrev Brings : Result (Option Identity) → Type 0
Brings (ok o) = IsScoped? o
Brings (err e) = Unit

none_if_invalid-Brings :
    (r : Result Identity) → ((i : Identity) → r ≡ ok i → IsScoped i) → Brings (none_if_invalid r)
none_if_invalid-Brings (ok i) h = h i refl
none_if_invalid-Brings (err invalid_token) h = tt
none_if_invalid-Brings (err e) h = tt

none_if_untrusted-Brings :
    (r : Result Identity) → ((i : Identity) → r ≡ ok i → IsScoped i) → Brings (none_if_untrusted r)
none_if_untrusted-Brings (ok i) h = h i refl
none_if_untrusted-Brings (err trusted_header_auth) h = tt
none_if_untrusted-Brings (err e) h = tt

if-Brings : (b : Bool) (r : Result (Option Identity)) → Brings r → Brings (if b then r else ok none)
if-Brings true r h = h
if-Brings false r h = tt

or_from_headers-Brings :
    (config : Config) (request : Request) (o : Option Identity)
    → IsScoped? o
    → Brings (or_from_headers config request o)
unfolding from_headers
or_from_headers-Brings config request none h =
    if-Brings config.api_gateway_trusted_headers_enabled _ (
      none_if_untrusted-Brings (resolve_trusted_header_identity config request)
        λ i e. (trusted_header-IsVouched config request i e).first.mapped)
or_from_headers-Brings config request (some i) h = h

and_then-Brings :
    (r : Result (Option Identity)) (f : Option Identity → Result (Option Identity))
    → Brings r
    → ((o : Option Identity) → IsScoped? o → Brings (f o))
    → Brings (and_then r f)
and_then-Brings (ok o) f h k = k o h
and_then-Brings (err e) f h k = tt

module _ (config : Config) (lib : Jwt) (now : ℕ) (request : Request) where
  bearer-Brings : Brings (resolve_bearer_jwt_identity config lib now request)
  unfolding resolve_bearer_jwt_identity
  bearer-Brings = if-Brings (truthy? (bearer_token request)) _ (
      none_if_invalid-Brings _ λ i e.
        let (claims, _, resolved) =
          and_then-eq-ok (validate_jwt config lib now (or_empty (bearer_token request)))
            resolve_tenant_and_role e in
        resolve-IsScoped claims i resolved)

  from_session-Brings :
      (o : Option Identity) → IsScoped? o → Brings (from_session config lib now request o)
  unfolding from_session
  from_session-Brings (some i) h = h
  from_session-Brings none h =
      and_then-Brings (resolve_bearer_jwt_identity config lib now request)
        (or_from_headers config request) bearer-Brings (or_from_headers-Brings config request)

  -- Whichever source names the maker of a request, the session, a token or the headers, the tenant
  -- and role are those that the map of groups gives to the identity's group, if that is so of the
  -- session's identity.
  pub resolve_identity-IsScoped :
      (session : Session) (i : Identity)
      → IsScoped? session.identity
      → resolve_identity config lib now request session ≡ ok (some i)
      → IsScoped i
  unfolding resolve_identity
  resolve_identity-IsScoped session i h e = rw e at (from_session-Brings session.identity h)
