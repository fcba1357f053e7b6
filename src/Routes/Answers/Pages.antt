-- ===== src/Routes/Answers/Pages.antt =====
-- The views of routes/ that forms are posted to: what they answer with, if they answer.
use secure_multi_tenant_saas.Prelude.{
  String, Char, ◌≡◌, refl, Bool, true, false, Option, none, some, if◌then◌else◌,
}
use secure_multi_tenant_saas.Prelude.Exec.{
  Exec, Result, ok, err, Error, value_error, pure, raise, try_except, handle_result, continue-eq-ok,
  ok-injective, ◌>>=◌,
}
use secure_multi_tenant_saas.Config.{Config}
use secure_multi_tenant_saas.Web.{Identity, Request, Response, redirect, page, World}
use secure_multi_tenant_saas.Routes.{Site, Backend, Shown, Answer, with_g, any_error}
use secure_multi_tenant_saas.Routes.Users
use secure_multi_tenant_saas.Routes.Password
use secure_multi_tenant_saas.Routes.Admin

-- A redirect or a page, and not a JSON body.
pub data IsShown {V : Type 0} : Response V → Type 0 where
  redirects : (endpoint : String) → IsShown (redirect endpoint)
  shows : (template : String) (v : V) → IsShown (page template v)

-- What `m` returns, if it does, has `P`.
pub record Yields {S A : Type 0} (P : A → Type 0) (m : Exec S A) : Type 0 where
  pub at : (s : S) (a : A) → (m s).0 ≡ ok a → P a

module _ {S A : Type 0} {P : A → Type 0} where
  Yields-pure : (a : A) → P a → Yields {S = S} P (pure a)
  Yields-pure a p = record { at = λ s b h. rw (← ok-injective h) p }

  Yields-raise : (e : Error) → Yields {S = S} P (raise e)
  Yields-raise e = record { at = λ s b h. cc }

  Yields-if : (b : Bool) (m n : Exec S A) → Yields P m → Yields P n → Yields P (if b then m else n)
  Yields-if true m n h k = h
  Yields-if false m n h k = k

  handle-yields :
      (handler : Error → Exec S A) (r : Result A) (s : S) (a : A)
      → (r ≡ ok a → P a)
      → ((e : Error) → Yields P (handler e))
      → (handle_result any_error handler r s).0 ≡ ok a
      → P a
  handle-yields handler (ok b) s a h k e = h e
  handle-yields handler (err x) s a h k e = (k x).at s a e

  Yields-try :
      (m : Exec S A) (handler : Error → Exec S A)
      → Yields P m
      → ((e : Error) → Yields P (handler e))
      → Yields P (try_except m any_error handler)
  Yields-try m handler h k = record {
    at = λ s a e. let (r, s') = m s in handle-yields handler r s' a (h.at s a) k e;
  }

module _ {S A B : Type 0} {P : B → Type 0} where
  Yields-bind : (m : Exec S A) (f : A → Exec S B) → ((a : A) → Yields P (f a)) → Yields P (m >>= f)
  Yields-bind m f k = record {
    at = λ s b h. let (r, s') = m s in let (a, _, h') = continue-eq-ok r f s' h in (k a).at s' b h';
  }

Shown-if :
    {V : Type 0} (b : Bool) (r q : Response V)
    → IsShown r
    → IsShown q
    → IsShown (if b then r else q)
Shown-if true r q h k = h
Shown-if false r q h k = k

ruleset yields_rules =
    (redirects, shows, Yields-pure, Yields-raise, Yields-if, Yields-try, Yields-bind, Shown-if)

module _ {X S Bytes : Type 0} (Bill : Type 0) (config : Config) (backend : Backend X S Bytes) where
  -- The view shows something, if it returns.
  abbrev pub Shows : Answer X S Bill → Type 0
  Shows view = Yields IsShown view

  with_g-Shows :
      (f : Identity → Answer X S Bill) → ((g : Identity) → Shows (f g)) → Shows (with_g f)
  with_g-Shows f k = record { at = λ w a h. go w a w.identity refl h }
    where
      go :
          (w : World (Site X S)) (a : Response (Shown Bill)) (o : Option Identity)
          → w.identity ≡ o
          → (with_g f w).0 ≡ ok a
          → IsShown a
      go w a none e h = cc
      go w a (some i) e h = (k i).at w a (simp e at h)

  add_user-Shows :
      (sub temp_password tenant id username email role : String)
      → Shows (Admin.add_user Bill config backend sub temp_password tenant id username email role)
  unfolding Admin.add_user
  add_user-Shows sub temp_password tenant id username email role = search yields_rules

  pub create_user-Shows :
      (sub temp_password fresh_id : String) (request : Request)
      → Shows (Admin.create_user Bill config backend sub temp_password fresh_id request)
  unfolding Admin.create_user
  create_user-Shows sub temp_password fresh_id request =
      with_g-Shows _ λ g. search (yields_rules, add_user-Shows)

  pub delete_user-Shows :
      (id : String) (request : Request) → Shows (Admin.delete_user Bill config backend id request)
  unfolding Admin.delete_user
  delete_user-Shows id request = with_g-Shows _ λ g. search yields_rules depth 9

  pub toggle_user-Shows :
      (id : String) (request : Request) → Shows (Admin.toggle_user Bill config backend id request)
  unfolding Admin.toggle_user
  toggle_user-Shows id request = with_g-Shows _ λ g. search yields_rules depth 9

  with_user_id-Shows :
      (r : Result String) (view : String → Answer X S Bill)
      → ((id : String) → Shows (view id))
      → Shows (Users.with_user_id Bill config backend r view)
  unfolding Users.with_user_id
  with_user_id-Shows (ok id) view k = k id
  with_user_id-Shows (err value_error) view k = search yields_rules
  with_user_id-Shows (err e) view k = search yields_rules

  save_profile-Shows :
      (tenant id role name email phone department : String)
      → Shows (Users.save_profile Bill config backend tenant id role name email phone department)
  unfolding Users.save_profile
  save_profile-Shows tenant id role name email phone department = search yields_rules depth 9

  pub details-Shows :
      (request : Request) → Shows (Users.user_details_update Bill config backend request)
  unfolding Users.user_details_update
  details-Shows request =
      with_g-Shows _ λ g. search (yields_rules, with_user_id-Shows, save_profile-Shows) depth 12

  reset_failed-Shows : (e : Error) → Shows (Users.reset_failed Bill config backend e)
  unfolding Users.reset_failed
  reset_failed-Shows value_error = search yields_rules
  reset_failed-Shows e = search yields_rules

  pub own_password-Shows :
      (request : Request) → Shows (Users.password_reset_update Bill config backend request)
  unfolding Users.password_reset_update
  own_password-Shows request =
      with_g-Shows _ λ g. search (yields_rules, with_user_id-Shows, reset_failed-Shows) depth 12

  reset_with-Shows :
      (request : Request) (token : String) (i : Identity)
      → Shows (Password.reset_with Bill config backend request token i)
  unfolding Password.reset_with Password.reset_failed
  reset_with-Shows request token i = search yields_rules depth 9

  reset_form-Shows :
      (other_digit : Char → Bool) (request : Request) (token : Option String) (i : Identity)
      → Shows (Password.reset_form Bill config backend other_digit request token i)
  unfolding Password.reset_form
  reset_form-Shows other_digit request token i = search (yields_rules, reset_with-Shows)

  pub reset_submit-Shows :
      (other_digit : Char → Bool) (request : Request)
      → Shows (Password.reset_submit Bill config backend other_digit request)
  unfolding Password.reset_submit Password.with_session_identity
  reset_submit-Shows other_digit request = record { at = λ w a h. go w a w.session.identity h }
    where
      go :
          (w : World (Site X S)) (a : Response (Shown Bill)) (o : Option Identity)
          → (Password.with_session_identity Bill config backend o
              (Password.reset_form Bill config backend other_digit request w.session.access_token)
              w).0
            ≡ ok a
          → IsShown a
      go w a none h = cc
      go w a (some i) h = (reset_form-Shows other_digit request w.session.access_token i).at w a h
