-- ===== src/Login/RoundTrip.antt =====
-- auth_pages.py: a login that is begun, and comes back, starts a session.
use secure_multi_tenant_saas.Prelude.{
  ℕ, String, ◌≡◌, refl, ap, ◌∙◌, true, false, some, eq_refl, arith, truthy, truthy?, or_empty,
}
use secure_multi_tenant_saas.Prelude.Dict.{Dict, get}
use secure_multi_tenant_saas.Prelude.Exec.{ok}
use secure_multi_tenant_saas.Config.{Config}
use secure_multi_tenant_saas.Web.{Identity, Request, World}
use secure_multi_tenant_saas.Auth.{Claims, validate_jwt}
use secure_multi_tenant_saas.Cognito.{Tokens, exchange_code_for_tokens}
use secure_multi_tenant_saas.Decorators.Gate.{Deps}
use secure_multi_tenant_saas.Login.{FindUser, Handshake, build_identity, started, is_genuine}
use secure_multi_tenant_saas.Login.Pages.{
  callback, started_outcome, callback_outcome, sign_in, login_redirect,
}
use secure_multi_tenant_saas.Login.Callback.{after_sign_in}

module _ {X : Type 0} (V : Type 0) (config : Config) (encode : Dict String → String)
    (h : Handshake) where
  abbrev pub begin : World X → World X
  begin w = (login_redirect {V = V} config encode h w).1

  begin-keeps_handshake :
      (w : World X)
      → config.demo_mode ≡ false
      → truthy config.cognito_domain ≡ true
      → truthy config.cognito_app_client_id ≡ true
      → truthy config.cognito_redirect_uri ≡ true
      → ((begin w).session.oauth_state ≡ some h.state)
        × ((begin w).session.oauth_code_verifier ≡ some h.code_verifier)
        × ((begin w).services ≡ w.services)
  unfolding login_redirect
  begin-keeps_handshake w live a b c = (ground arith, ground arith, ground arith)

  callback-eq-started :
      (deps : Deps) (find_user : FindUser X) (request : Request) (w : World X) (tokens : Tokens)
      (i : Identity) {seconds : ℕ}
      → truthy? (get request.args "error") ≡ false
      → is_genuine request w.session ≡ true
      → (sign_in config deps find_user request w.session w.services).0 ≡ ok (tokens, i)
      → tokens.expires_in ≡ ok seconds
      → (callback {V = V} config deps find_user request w).1.session
        ≡ started deps.now i (some tokens)
  unfolding callback
  callback-eq-started deps find_user request w tokens i no_error genuine signed read =
      let x = (sign_in config deps find_user request w.session w.services).1 in
      let after : World X = record w { session = started deps.now i (some tokens); services = x } in
      let e : callback {V = V} config deps find_user request w
          ≡ callback_outcome deps.now (ok (tokens, i)) (after_sign_in w x) =
        rw (no_error, genuine, signed) refl in
      ap (λ o. o.1.session) e ∙ ap (λ r. (started_outcome {V = V} i tokens r after).1.session) read

  -- When sign-in is set up, and the user comes back with the state that the redirect carried and a
  -- code that is exchanged, with the verifier of that redirect, for tokens whose lifetime is a number
  -- and whose identity token is valid and names an identity, the session after the callback is that
  -- identity's, with the tokens.
  pub login_round_trip :
      (deps : Deps) (find_user : FindUser X) (request : Request) (w : World X) (tokens : Tokens)
      (claims : Claims) (i : Identity) {seconds : ℕ}
      → config.demo_mode ≡ false
      → truthy config.cognito_domain ≡ true
      → truthy config.cognito_app_client_id ≡ true
      → truthy config.cognito_redirect_uri ≡ true
      → truthy h.state ≡ true
      → truthy? (get request.args "error") ≡ false
      → get request.args "state" ≡ some h.state
      → truthy? (get request.args "code") ≡ true
      → exchange_code_for_tokens config deps.post
          (or_empty (get request.args "code"))
          (some h.code_verifier)
        ≡ ok tokens
      → truthy? tokens.id_token ≡ true
      → validate_jwt config deps.jwt deps.now (or_empty tokens.id_token) ≡ ok claims
      → (build_identity find_user claims w.services).0 ≡ ok i
      → tokens.expires_in ≡ ok seconds
      → (callback {V = V} config deps find_user request (begin w)).1.session
        ≡ started deps.now i (some tokens)
  unfolding sign_in
  login_round_trip deps find_user request w tokens claims i live a b c s no_error back code
        exchanged id valid identified read =
      let (kept, verifier, same) = begin-keeps_handshake w live a b c in
      let genuine : is_genuine request (begin w).session ≡ true =
        rw (code, back, kept, s, eq_refl) refl in
      let signed : (sign_in config deps find_user request (begin w).session (begin w).services).0
          ≡ ok (tokens, i) =
        rw (verifier, exchanged, id, valid, same, identified) refl in
      callback-eq-started deps find_user request (begin w) tokens i no_error genuine signed read
