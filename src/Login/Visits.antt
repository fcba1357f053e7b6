-- ===== src/Login/Visits.antt =====
-- auth_pages.py: sequences of visits to the pages that begin and end sessions.
use secure_multi_tenant_saas.Prelude.{
  ℕ, String, ◌≡◌, refl, ap, ◌∙◌, false, none, List, [], ◌∷◌, arith, Bool-cases, inl, inr, truthy?,
  get_or,
}
use secure_multi_tenant_saas.Prelude.Text.{strip}
use secure_multi_tenant_saas.Prelude.Dict.{Dict, get}
use secure_multi_tenant_saas.Prelude.Exec.{Result, ok, err, Error, oauth_exchange, invalid_token}
use secure_multi_tenant_saas.Config.{Config}
use secure_multi_tenant_saas.Web.{Identity, Request, Response, World}
use secure_multi_tenant_saas.Auth.{Claims}
use secure_multi_tenant_saas.Cognito.{Tokens}
use secure_multi_tenant_saas.Decorators.Gate.{Deps}
use secure_multi_tenant_saas.Decorators.Identify.Scope.{IsScoped?}
use secure_multi_tenant_saas.Login.{
  Cookie, FindUser, Handshake, build_identity, started, is_genuine,
}
use secure_multi_tenant_saas.Login.Pages.{
  callback, sign_in, unverified, login_failed, started_outcome, callback_outcome, login_redirect,
  login_demo_submit, logout, demo_outcome, demo_claims,
}
use secure_multi_tenant_saas.Login.Callback.{
  build_identity-IsScoped, CallbackEnds, signed_in, interrupted, refused, after_sign_in,
  callback-CallbackEnds,
}

-- The pages that change whose session it is.
pub data Visit : Type 0 where
  starts_login : (Dict String → String) → Handshake → Visit
  submits_demo : Request → Visit
  calls_back : Request → Visit
  logs_out : (Dict String → String) → Visit

module _ {X : Type 0} (V : Type 0) (config : Config) (deps : Deps) (find_user : FindUser X) where
  abbrev pub after_callback : Request → World X → World X
  after_callback request w = (callback {V = V} config deps find_user request w).1

  failed_spends :
      (e : Error) (w : World X)
      → w.session.oauth_state ≡ none
      → (login_failed {V = V} e w).1.session.oauth_state ≡ none
  failed_spends oauth_exchange w h = h
  failed_spends invalid_token w h = h
  failed_spends e w h = ground arith

  started_spends :
      (i : Identity) (tokens : Tokens) (r : Result ℕ) (w : World X)
      → w.session.oauth_state ≡ none
      → (started_outcome {V = V} i tokens r w).1.session.oauth_state ≡ none
  started_spends i tokens (ok seconds) w h = h
  started_spends i tokens (err e) w h = failed_spends e w h

  outcome_spends :
      (r : Result (Tokens × Identity)) (w : World X)
      → w.session.oauth_state ≡ none
      → (callback_outcome {V = V} deps.now r w).1.session.oauth_state ≡ none
  unfolding started
  outcome_spends (ok (tokens, i)) w h = started_spends i tokens tokens.expires_in _ refl
  outcome_spends (err e) w h = failed_spends e w h

  callback_spends_state :
      (request : Request) (w : World X)
      → truthy? (get request.args "error") ≡ false
      → (after_callback request w).session.oauth_state ≡ none
  unfolding callback
  callback_spends_state request w h = elim (Bool-cases (is_genuine request w.session)) [
    | inl genuine ↦
        let (r, x) = sign_in config deps find_user request w.session w.services in
        let e : callback {V = V} config deps find_user request w
            ≡ callback_outcome deps.now r (after_sign_in w x) =
          rw (h, genuine) refl in
        ap (λ o. o.1.session.oauth_state) e ∙ outcome_spends r (after_sign_in w x) refl
    | inr other ↦
        let e : callback {V = V} config deps find_user request w
            ≡ unverified (after_sign_in w w.services) =
          rw (h, other) refl in
        ap (λ o. o.1.session.oauth_state) e
  ]

  -- A session with no state: a callback leaves it without one, and its identity as it is.
  callback_unbegun :
      (request : Request) (w : World X)
      → w.session.oauth_state ≡ none
      → let w' = after_callback request w in
        (w'.session.oauth_state ≡ none) × (w'.session.identity ≡ w.session.identity)
  unfolding callback
  callback_unbegun request w h =
      (stateless, go _ (callback-CallbackEnds config deps find_user request w))
    where
      stateless : (after_callback request w).session.oauth_state ≡ none
      stateless = elim (Bool-cases (truthy? (get request.args "error"))) [
        | inl failed ↦ rw (failed, after_callback) h
        | inr fine ↦ callback_spends_state request w fine
      ]

      go :
          (o : Result (Response V × Cookie) × World X)
          → CallbackEnds {V = V} config deps find_user request w o
          → o.1.session.identity ≡ w.session.identity
      go o (signed_in tokens i cookie n x e read p l) = cc (h, p.begun)
      go o (interrupted tokens i x flashes s e read p l) = cc (h, p.begun)
      go o (refused w2 e same _ _) = (ap (λ q. q.1.session.identity) e) ∙ same

  -- Callbacks, one after the other.
  pub after_callbacks : List Request → World X → World X
  after_callbacks [] w = w
  after_callbacks (request ∷ requests) w = after_callbacks requests (after_callback request w)

  callbacks_unbegun :
      (requests : List Request) (w : World X)
      → w.session.oauth_state ≡ none
      → (after_callbacks requests w).session.identity ≡ w.session.identity
  unfolding after_callbacks
  callbacks_unbegun [] w h = refl
  callbacks_unbegun (request ∷ requests) w h =
      let (stateless, same) = callback_unbegun request w h in
      callbacks_unbegun requests (after_callback request w) stateless ∙ same

  -- A state is good for one callback: after one that reported no error, no sequence of callbacks, with
  -- whatever requests, changes the session's identity.
  pub callback_once :
      (request : Request) (requests : List Request) (w : World X)
      → truthy? (get request.args "error") ≡ false
      → let w' = after_callback request w in
        (after_callbacks requests w').session.identity ≡ w'.session.identity
  callback_once request requests w h =
      callbacks_unbegun requests (after_callback request w) (callback_spends_state request w h)

  abbrev visit : Visit → World X → World X
  visit (starts_login encode h) w = (login_redirect {V = V} config encode h w).1
  visit (submits_demo request) w = (login_demo_submit {V = V} config deps.now find_user request w).1
  visit (calls_back request) w = after_callback request w
  visit (logs_out encode) w = (logout {V = V} config encode w).1

  pub visit_all : List Visit → World X → World X
  visit_all [] w = w
  visit_all (v ∷ visits) w = visit_all visits (visit v w)

  abbrev Scoped : World X → Type 0
  Scoped w = IsScoped? w.session.identity

  callback-Scoped : (request : Request) (w : World X) → Scoped w → Scoped (after_callback request w)
  unfolding started
  callback-Scoped request w h = go _ (callback-CallbackEnds config deps find_user request w)
    where
      go :
          (o : Result (Response V × Cookie) × World X)
          → CallbackEnds {V = V} config deps find_user request w o
          → Scoped o.1
      go o (signed_in tokens i cookie n x e read p l) = rw e p.scoped
      go o (interrupted tokens i x flashes s e read p l) = rw e p.scoped
      go o (refused w2 e same _ _) = rw (e, same) h

  login_redirect-Scoped :
      (encode : Dict String → String) (h : Handshake) (w : World X)
      → Scoped w
      → Scoped (login_redirect {V = V} config encode h w).1
  unfolding login_redirect
  login_redirect-Scoped encode h w s = ground arith

  logout-Scoped :
      (encode : Dict String → String) (w : World X) → Scoped (logout {V = V} config encode w).1
  unfolding logout
  logout-Scoped encode w = ground arith

  demo_outcome-Scoped :
      (claims : Claims) (x : X) (r : Result Identity) (w : World X)
      → (build_identity find_user claims x).0 ≡ r
      → Scoped w
      → Scoped (demo_outcome {V = V} deps.now r w).1
  unfolding started
  demo_outcome-Scoped claims x (ok i) w e h = build_identity-IsScoped find_user claims x i e
  demo_outcome-Scoped claims x (err invalid_token) w e h = h
  demo_outcome-Scoped claims x (err y) w e h = ground arith

  login_demo_submit-Scoped :
      (request : Request) (w : World X)
      → Scoped w
      → Scoped (login_demo_submit {V = V} config deps.now find_user request w).1
  unfolding login_demo_submit
  login_demo_submit-Scoped request w h =
      let claims = demo_claims request (strip (get_or (get request.form "demo_group") "")) in
      let (r, x) = build_identity find_user claims w.services in
      ground (arith, demo_outcome-Scoped claims w.services r (record w { services = x }) refl h)

  -- Through any sequence of logins, callbacks, demo logins and logouts, the session's identity is none
  -- or has the tenant and role that the map gives to its group.
  pub visit_all-Scoped :
      (visits : List Visit) (w : World X)
      → IsScoped? w.session.identity
      → IsScoped? (visit_all visits w).session.identity
  unfolding visit_all
  visit_all-Scoped [] w h = h
  visit_all-Scoped (starts_login encode hs ∷ visits) w h =
      visit_all-Scoped visits _ (login_redirect-Scoped encode hs w h)
  visit_all-Scoped (submits_demo request ∷ visits) w h =
      visit_all-Scoped visits _ (login_demo_submit-Scoped request w h)
  visit_all-Scoped (calls_back request ∷ visits) w h =
      visit_all-Scoped visits _ (callback-Scoped request w h)
  visit_all-Scoped (logs_out encode ∷ visits) w h =
      visit_all-Scoped visits _ (logout-Scoped encode w)
