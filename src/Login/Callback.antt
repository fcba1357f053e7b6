-- ===== src/Login/Callback.antt =====
-- auth_pages.py: what the callback of the OAuth flow may do to a session.
use secure_multi_tenant_saas.Prelude.{
  ℕ, String, ◌≡◌, refl, ap, ◌∙◌, ◌⊎◌, Bool, true, Option, none, some, List, ◌&&◌, eq_iff, arith,
  Bool-cases, inl, inr, truthy?, or_empty,
}
use secure_multi_tenant_saas.Prelude.Dict.{get}
use secure_multi_tenant_saas.Prelude.Exec.{
  Exec, Result, ok, err, Error, oauth_exchange, pure, continue, continue-eq-ok, ok-injective,
  if-eq-ok,
}
use secure_multi_tenant_saas.Config.{Config}
use secure_multi_tenant_saas.Web.{Identity, Request, Session, Response, redirect, World}
use secure_multi_tenant_saas.Auth.{Claims, validate_jwt, resolve_tenant_and_role}
use secure_multi_tenant_saas.Auth.Resolve.{IsScoped, resolve-IsScoped}
use secure_multi_tenant_saas.Cognito.{Tokens, exchange_code_for_tokens}
use secure_multi_tenant_saas.Decorators.Gate.{Deps}
use secure_multi_tenant_saas.Login.{
  Cookie, unchanged, FindUser, build_identity, with_profile, started, post_login_redirect,
  same_state, is_genuine,
}
use secure_multi_tenant_saas.Login.Pages.{
  callback, sign_in, login_failed, started_outcome, callback_outcome, require_id_token,
}

pub build_identity-IsScoped :
    {X : Type 0} (find_user : FindUser X) (claims : Claims) (x : X) (i : Identity)
    → (build_identity find_user claims x).0 ≡ ok i
    → IsScoped i
unfolding build_identity with_profile
build_identity-IsScoped find_user claims x i h =
    let (j, resolved, rest) = continue-eq-ok (resolve_tenant_and_role claims) _ x h in
    let (r, x') = find_user j.tenant j.username x in
    let (row, _, e) = continue-eq-ok r _ x' rest in
    rw (← ok-injective e) (resolve-IsScoped claims j resolved)

same_state-eq-true :
    (a b : Option String) → same_state a b ≡ true → (s : String) × (a ≡ some s) × (b ≡ some s)
same_state-eq-true none b h = cc
same_state-eq-true (some s) none h = cc
same_state-eq-true (some s) (some t) h = (s, refl, ground (arith, eq_iff s t))

-- What a session that the callback starts rests on: the state that the session had begun the login
-- with came back, the code was exchanged with the session's verifier, and the identity token is
-- valid and names the identity.
pub record IsProven {X : Type 0} (config : Config) (deps : Deps) (find_user : FindUser X)
    (request : Request) (s : Session) (x : X) (tokens : Tokens) (i : Identity) : Type 0 where
  pub state : String
  pub begun : s.oauth_state ≡ some state
  pub returned : get request.args "state" ≡ some state
  pub code : truthy? (get request.args "code") ≡ true
  pub exchanged :
      exchange_code_for_tokens config deps.post
        (or_empty (get request.args "code"))
        s.oauth_code_verifier
      ≡ ok tokens
  pub claims : Claims
  pub valid : validate_jwt config deps.jwt deps.now (or_empty tokens.id_token) ≡ ok claims
  pub identified : (build_identity find_user claims x).0 ≡ ok i
  pub scoped : IsScoped i

both : (a b : Bool) → (a && b) ≡ true → (a ≡ true) × (b ≡ true)
both a b h = (ground arith, ground arith)

sign_in-IsProven :
    {X : Type 0} (config : Config) (deps : Deps) (find_user : FindUser X) (request : Request)
    (s : Session) (x : X) (tokens : Tokens) (i : Identity)
    → is_genuine request s ≡ true
    → (sign_in config deps find_user request s x).0 ≡ ok (tokens, i)
    → IsProven config deps find_user request s x tokens i
unfolding sign_in
sign_in-IsProven config deps find_user request s x tokens i g h =
    let (a, b) = both (truthy? (get request.args "code")) _ g in
    let (state, back, begun) = same_state-eq-true (get request.args "state") s.oauth_state b in
    let (ts, exchanged, h1) =
      continue-eq-ok
        (exchange_code_for_tokens config deps.post (or_empty (get request.args "code"))
          s.oauth_code_verifier)
        _ x h in
    let (id_token, required, h2) = continue-eq-ok (require_id_token ts) _ x h1 in
    let (claims, valid, h3) =
      continue-eq-ok (validate_jwt config deps.jwt deps.now id_token) _ x h2 in
    let (r, x') = build_identity find_user claims x in
    let (j, identified, e) = continue-eq-ok r _ x' h3 in
    let same_pair : (ts, j) ≡ (tokens, i) = ok-injective e in
    let same_tokens = ap (λ p. p.0) same_pair in
    let same_identity = ap (λ p. p.1) same_pair in
    let (_, token) =
      if-eq-ok (truthy? ts.id_token) (ok (or_empty ts.id_token)) oauth_exchange required in
    rw (← same_tokens, ← same_identity)
      (record {
        state = state;
        begun = begun;
        returned = back;
        code = a;
        exchanged = exchanged;
        claims = claims;
        valid = (rw (ok-injective token)) ∙ valid;
        identified = identified;
        scoped = build_identity-IsScoped find_user claims x j identified;
      })

-- All that a callback does with the services: it may look a user up, for the claims of a token.
abbrev pub Looked : {X : Type 0} → FindUser X → X → X → Type 0
Looked find_user x x' =
    (x' ≡ x) ⊎ ((claims : Claims) × (x' ≡ (build_identity find_user claims x).1))

module _ {X : Type 0} (find_user : FindUser X) (x : X) where
  continue-Looked :
      {A B : Type 0} (r : Result A) (f : A → Exec X B)
      → ((a : A) → Looked find_user x (f a x).1)
      → Looked find_user x (continue r f x).1
  continue-Looked (ok a) f h = h a
  continue-Looked (err e) f h = inl refl

  continue-pure : {A B : Type 0} (r : Result A) (f : A → B) → (continue r (λ a. pure (f a)) x).1 ≡ x
  continue-pure (ok a) f = refl
  continue-pure (err e) f = refl

sign_in-Looked :
    {X : Type 0} (config : Config) (deps : Deps) (find_user : FindUser X) (request : Request)
    (s : Session) (x : X)
    → Looked find_user x (sign_in config deps find_user request s x).1
unfolding sign_in
sign_in-Looked config deps find_user request s x =
    continue-Looked find_user x
      (exchange_code_for_tokens config deps.post (or_empty (get request.args "code"))
        s.oauth_code_verifier)
      _
      λ tokens. continue-Looked find_user x (require_id_token tokens) _ λ id_token.
        continue-Looked find_user x (validate_jwt config deps.jwt deps.now id_token) _ λ claims.
          let (r, x') = build_identity find_user claims x in
          inr (claims, continue-pure find_user x' r (λ i. (tokens, i)))

-- The session without the state and the verifier, and the services after the sign-in.
abbrev pub after_sign_in : {X : Type 0} → World X → X → World X
after_sign_in w x = record w {
  session = record w.session { oauth_state = none; oauth_code_verifier = none };
  services = x;
}

module _ {X V : Type 0} (config : Config) (deps : Deps) (find_user : FindUser X) (request : Request)
    (w : World X) where
  -- The ends of a callback: a new session in place of the old; the new session, but without the time
  -- at which its tokens expire, and the login page; or the login page only.
  pub data CallbackEnds (out : Result (Response V × Cookie) × World X) : Type 0 where
    signed_in :
        (tokens : Tokens) (i : Identity) (cookie : Cookie) (seconds : ℕ) (x : X)
        → out ≡ (
          ok (post_login_redirect i, cookie),
          record w { session = started deps.now i (some tokens); services = x },
        )
        → tokens.expires_in ≡ ok seconds
        → IsProven config deps find_user request w.session w.services tokens i
        → Looked find_user w.services x
        → CallbackEnds out
    interrupted :
        (tokens : Tokens) (i : Identity) (e : Error) (flashes : List (String × String)) (x : X)
        → out ≡ (
          ok (redirect "auth_pages.login", unchanged),
          record w {
            session = record (started deps.now i (some tokens)) { flashes = flashes };
            services = x;
          },
        )
        → tokens.expires_in ≡ err e
        → IsProven config deps find_user request w.session w.services tokens i
        → Looked find_user w.services x
        → CallbackEnds out
    refused :
        (w' : World X)
        → out ≡ (ok (redirect "auth_pages.login", unchanged), w')
        → w'.session.identity ≡ w.session.identity
        → w'.session.access_token ≡ w.session.access_token
        → Looked find_user w.services w'.services
        → CallbackEnds out

  failed-CallbackEnds :
      (e : Error) (x : X)
      → Looked find_user w.services x
      → CallbackEnds (login_failed e (after_sign_in w x))
  failed-CallbackEnds oauth_exchange x l = refused _ refl refl refl l
  failed-CallbackEnds e x l = refused _ refl refl refl l

  started-CallbackEnds :
      (tokens : Tokens) (i : Identity) (x : X) (r : Result ℕ)
      → tokens.expires_in ≡ r
      → IsProven config deps find_user request w.session w.services tokens i
      → Looked find_user w.services x
      → CallbackEnds (
          started_outcome i tokens r
            (record w { session = started deps.now i (some tokens); services = x }))
  started-CallbackEnds tokens i x (ok seconds) read p l =
      signed_in tokens i _ seconds x refl read p l
  started-CallbackEnds tokens i x (err oauth_exchange) read p l =
      interrupted tokens i _ _ x refl read p l
  started-CallbackEnds tokens i x (err e) read p l = interrupted tokens i _ _ x refl read p l

  outcome-CallbackEnds :
      (r : Result (Tokens × Identity)) (x : X)
      → ((tokens : Tokens) (i : Identity)
          → r ≡ ok (tokens, i)
          → IsProven config deps find_user request w.session w.services tokens i)
      → Looked find_user w.services x
      → CallbackEnds (callback_outcome deps.now r (after_sign_in w x))
  outcome-CallbackEnds (ok (tokens, i)) x h l =
      started-CallbackEnds tokens i x tokens.expires_in refl (h tokens i refl) l
  outcome-CallbackEnds (err e) x h l = failed-CallbackEnds e x l

  -- A callback never ends in an exception. It starts a session, whose state, code and identity token
  -- are proven and whose identity is scoped to its group, and which then is new but for that identity
  -- and the tokens; or, if `int` raises at the lifetime of the tokens, it leaves the session of that
  -- identity behind, which is as proven, and answers with the login page nevertheless; or it answers
  -- with the login page, and the session's identity and access token stay. It does nothing with the
  -- services but look the user up.
  pub callback-CallbackEnds : CallbackEnds (callback config deps find_user request w)
  unfolding callback
  callback-CallbackEnds = elim (Bool-cases (truthy? (get request.args "error"))) [
    | inl failed ↦ rw failed (refused _ refl refl refl (inl refl))
    | inr fine ↦ elim (Bool-cases (is_genuine request w.session)) [
      | inl genuine ↦
          let (r, x) = sign_in config deps find_user request w.session w.services in
          rw (fine, genuine)
            (outcome-CallbackEnds r x
              (λ tokens i h.
                sign_in-IsProven config deps find_user request w.session w.services tokens i genuine
                  h)
              (sign_in-Looked config deps find_user request w.session w.services))
      | inr other ↦ rw (fine, other) (refused _ refl refl refl (inl refl))
    ]
  ]
