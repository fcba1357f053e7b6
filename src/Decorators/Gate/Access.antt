-- ===== src/Decorators/Gate/Access.antt =====
-- decorators.py: what `login_required` and `admin_required` let through.
use secure_multi_tenant_saas.Prelude.{
  String, ◌≡◌, refl, ◌∙◌, inl, inr, Bool, true, false, Option, none, some, ◌==◌, eq_iff, Bool-cases,
  truthy?, if◌then◌else◌,
}
use secure_multi_tenant_saas.Prelude.Exec.{
  Exec, Result, Result-cases, ok, err, Error, oauth_exchange, pure, continue,
}
use secure_multi_tenant_saas.Config.{Config}
use secure_multi_tenant_saas.Web.{
  Identity, Request, Session, Response, redirect, page, json, json_error, World, View,
}
use secure_multi_tenant_saas.Auth.Resolve.{IsScoped}
use secure_multi_tenant_saas.Cognito.{Tokens, refresh_tokens}
use secure_multi_tenant_saas.Decorators.Identify.{resolve_identity}
use secure_multi_tenant_saas.Decorators.Identify.Scope.{IsScoped?, resolve_identity-IsScoped}
use secure_multi_tenant_saas.Decorators.Gate.{
  Deps, has_tokens, enter_if, store_tokens, refresh_with, refresh_session_tokens_if_needed,
  check_tokens, is_json_route, unauthenticated_response, forbidden_response, admit_login,
  login_required, admit_admin, admin_required, or_g, ask_profile, profile_setup_required,
}

-- A redirect, or an error in JSON: no page and no data.
abbrev pub IsRefusal : {V : Type 0} → Response V → Type 0
IsRefusal (redirect _) = Unit
IsRefusal (json_error _ _) = Unit
IsRefusal (page _ _) = ⊥
IsRefusal (json _ _) = ⊥

-- The services are as before, and `g` names nobody new.
pub record IsUntouched {X : Type 0} (w w' : World X) : Type 0 where
  pub services : w'.services ≡ w.services
  pub identity : w'.identity ≡ w.identity

-- How a protected view may end: an exception or a refusal that has touched nothing but the
-- session, or the view's own end, run with `g` set to an identity that has the property `P`.
pub data Guarded {X V : Type 0} (P : Identity → Type 0) (view : View X V) (w : World X)
    (out : Result (Response V) × World X) : Type 0 where
  raised : (e : Error) (w' : World X) → out ≡ (err e, w') → IsUntouched w w' → Guarded P view w out
  refused :
      (r : Response V) (w' : World X)
      → out ≡ (ok r, w')
      → IsRefusal r
      → IsUntouched w w'
      → Guarded P view w out
  entered :
      (i : Identity) (w' : World X)
      → out ≡ view w'
      → P i
      → w'.identity ≡ some i
      → w'.services ≡ w.services
      → Guarded P view w out

module _ {X V : Type 0} {P : Identity → Type 0} {view : View X V} {w : World X} where
  Guarded-refuse :
      (r : Response V) (s : Session)
      → IsRefusal r
      → Guarded P view w (ok r, record w { session = s })
  Guarded-refuse r s h = refused r _ refl h (record { services = refl; identity = refl })

  Guarded-if :
      (b : Bool) (m n : View X V)
      → Guarded P view w (m w)
      → Guarded P view w (n w)
      → Guarded P view w ((if b then m else n) w)
  Guarded-if true m n gm gn = gm
  Guarded-if false m n gm gn = gn

  unauthenticated-Guarded :
      (config : Config) (request : Request)
      → Guarded P view w (unauthenticated_response config request w)
  unfolding unauthenticated_response
  unauthenticated-Guarded config request =
      Guarded-if (is_json_route config request) _ _ (Guarded-refuse _ w.session tt)
        (Guarded-refuse _ _ tt)

  forbidden-Guarded :
      (config : Config) (request : Request) → Guarded P view w (forbidden_response config request w)
  unfolding forbidden_response
  forbidden-Guarded config request =
      Guarded-if (is_json_route config request) _ _ (Guarded-refuse _ w.session tt)
        (Guarded-refuse _ _ tt)

  -- What has touched only the session may come before.
  Guarded-after :
      (w' : World X) (out : Result (Response V) × World X)
      → IsUntouched w w'
      → Guarded P view w' out
      → Guarded P view w out
  Guarded-after w' out u (raised e v p q) =
      raised e v p
        (record { services = q.services ∙ u.services; identity = q.identity ∙ u.identity })
  Guarded-after w' out u (refused r v p h q) =
      refused r v p h
        (record { services = q.services ∙ u.services; identity = q.identity ∙ u.identity })
  Guarded-after w' out u (entered i v p h g q) = entered i v p h g (q ∙ u.services)

module _ {X : Type 0} (config : Config) (deps : Deps) (w : World X) where
  store_tokens-IsUntouched : (r : Result Tokens) → IsUntouched w (store_tokens config deps r w).1
  store_tokens-IsUntouched (ok tokens) = elim (Result-cases tokens.expires_in) [
    | inl (seconds, read) ↦ rw read (record { services = refl; identity = refl })
    | inr (e, unread) ↦ rw unread (record { services = refl; identity = refl })
  ]
  store_tokens-IsUntouched (err oauth_exchange) = record { services = refl; identity = refl }
  store_tokens-IsUntouched (err e) = record { services = refl; identity = refl }

  if-IsUntouched :
      (b : Bool) (m n : Exec (World X) Bool)
      → IsUntouched w (m w).1
      → IsUntouched w (n w).1
      → IsUntouched w ((if b then m else n) w).1
  if-IsUntouched true m n h k = h
  if-IsUntouched false m n h k = k

  refresh_with-IsUntouched :
      (token : Option String) → IsUntouched w (refresh_with config deps token w).1
  refresh_with-IsUntouched none = record { services = refl; identity = refl }
  refresh_with-IsUntouched (some token) =
      if-IsUntouched (truthy? (some token)) _ _
        (store_tokens-IsUntouched (refresh_tokens config deps.post token))
        (record { services = refl; identity = refl })

  check_tokens-IsUntouched : IsUntouched w (check_tokens config deps w).1
  unfolding check_tokens
  check_tokens-IsUntouched =
      if-IsUntouched (has_tokens config w.session) (refresh_session_tokens_if_needed config deps)
        (pure true)
        (if-IsUntouched _ (pure true) (refresh_with config deps w.session.refresh_token) same
          (refresh_with-IsUntouched w.session.refresh_token))
        same
    where
      same : IsUntouched w w
      same = record { services = refl; identity = refl }

module _ {X V : Type 0} {P : Identity → Type 0} {view : View X V} where
  enter_if-Guarded :
      (i : Identity) (r : Result Bool) (w : World X)
      → P i
      → Guarded P view w (continue r (enter_if i view) w)
  enter_if-Guarded i (ok true) w p = entered i _ refl p refl refl
  enter_if-Guarded i (ok false) w p = Guarded-refuse _ _ tt
  enter_if-Guarded i (err e) w p = raised e w refl (record { services = refl; identity = refl })

module _ {X V : Type 0} (config : Config) (deps : Deps) (request : Request) (view : View X V)
    (w : World X) where
  abbrev pub resolved : Result (Option Identity)
  resolved = resolve_identity config deps.jwt deps.now request w.session

  -- A view behind `login_required` runs only for an identity that was resolved for the request and
  -- whose tenant and role are those of its group, if that is so of the session's identity. Else
  -- the answer is a redirect, a JSON error or an exception, and neither the services nor `g` have
  -- been touched.
  pub login_required-Guarded :
      IsScoped? w.session.identity
      → Guarded
          (λ i. (resolved ≡ ok (some i)) × IsScoped i)
          view
          w
          (login_required config deps request view w)
  unfolding login_required
  login_required-Guarded h = go resolved refl
    where
      go :
          (r : Result (Option Identity))
          → resolved ≡ r
          → Guarded
              (λ i. (resolved ≡ ok (some i)) × IsScoped i)
              view
              w
              (continue r (admit_login config deps request view) w)
      go (ok none) e = unauthenticated-Guarded config request
      go (ok (some i)) e =
          let (r, w') = check_tokens config deps w in
          Guarded-after w' _ (check_tokens-IsUntouched config deps w) (
            enter_if-Guarded i r w'
              (e, resolve_identity-IsScoped config deps.jwt deps.now request w.session i h e))
      go (err x) e = raised x w refl (record { services = refl; identity = refl })

  -- A view behind `admin_required` runs only for such an identity with the role `admin`; else, as
  -- behind `login_required`, nothing but the session has been touched.
  pub admin_required-Guarded :
      IsScoped? w.session.identity
      → Guarded
          (λ i. (resolved ≡ ok (some i)) × IsScoped i × (i.role ≡ "admin"))
          view
          w
          (admin_required config deps request view w)
  unfolding admin_required
  admin_required-Guarded h = go resolved refl
    where
      go :
          (r : Result (Option Identity))
          → resolved ≡ r
          → Guarded
              (λ i. (resolved ≡ ok (some i)) × IsScoped i × (i.role ≡ "admin"))
              view
              w
              (continue r (admit_admin config request view) w)
      go (ok none) e = unauthenticated-Guarded config request
      go (ok (some i)) e = elim (Bool-cases (i.role == "admin")) [
        | inl yes_admin ↦ rw yes_admin (
            entered i _ refl
              (
                e,
                resolve_identity-IsScoped config deps.jwt deps.now request w.session i h e,
                (eq_iff i.role "admin").0 yes_admin,
              )
              refl refl)
        | inr not_admin ↦ rw not_admin (forbidden-Guarded config request)
      ]
      go (err x) e = raised x w refl (record { services = refl; identity = refl })

-- A view behind `profile_setup_required` runs, or it is answered with nothing but the session
-- touched.
module _ {X V : Type 0} (view : View X V) (w : World X) where
  pub data Asked (out : Result (Response V) × World X) : Type 0 where
    let_through : out ≡ view w → Asked out
    sent_away : (r : Response V) (s : Session) → out ≡ (ok r, record w { session = s }) → Asked out

  ask_profile-Asked : (o : Option Identity) → Asked (ask_profile o view w)
  unfolding ask_profile
  ask_profile-Asked none = let_through refl
  ask_profile-Asked (some i) = elim (Bool-cases i.profile_complete) [
    | inl complete ↦ rw complete (let_through refl)
    | inr incomplete ↦ rw incomplete (sent_away _ _ refl)
  ]

  pub profile_setup_required-Asked : Asked (profile_setup_required view w)
  unfolding profile_setup_required
  profile_setup_required-Asked = ask_profile-Asked (or_g w.session.identity w.identity)
