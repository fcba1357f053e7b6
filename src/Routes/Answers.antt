-- ===== src/Routes/Answers.antt =====
-- The views of routes/ that forms are posted to: they answer, whatever their services raise.
mod Pages
use secure_multi_tenant_saas.Prelude.{
  String, Char, ◌≡◌, refl, Bool, true, false, Option, some, List, [], ◌∷◌, if◌then◌else◌,
}
use secure_multi_tenant_saas.Prelude.Exec.{
  Exec, Result, ok, err, Error, value_error, pure, gets, try_except, handle_result, ◌>>=◌,
}
use secure_multi_tenant_saas.Config.{Config}
use secure_multi_tenant_saas.Web.{Identity, Request, Response, World, flash}
use secure_multi_tenant_saas.Routes.{Site, Backend, Shown, Answer, with_g, flash_all, any_error}
use secure_multi_tenant_saas.Routes.Users
use secure_multi_tenant_saas.Routes.Password
use secure_multi_tenant_saas.Routes.Admin
use secure_multi_tenant_saas.Routes.Answers.Pages.{
  IsShown, Shows, create_user-Shows, delete_user-Shows, toggle_user-Shows, details-Shows,
  own_password-Shows, reset_submit-Shows,
}

-- `m` returns, and does not raise.
pub record Returns {S A : Type 0} (m : Exec S A) : Type 0 where
  pub at : (s : S) → (a : A) × ((m s).0 ≡ ok a)

module _ {S A : Type 0} where
  Returns-pure : (a : A) → Returns {S = S} (pure a)
  Returns-pure a = record { at = λ s. (a, refl) }

  Returns-if : (b : Bool) (m n : Exec S A) → Returns m → Returns n → Returns (if b then m else n)
  Returns-if true m n h k = h
  Returns-if false m n h k = k

  handle-Returns :
      (handler : Error → Exec S A) (r : Result A)
      → ((e : Error) → Returns (handler e))
      → Returns (handle_result any_error handler r)
  handle-Returns handler (ok a) h = Returns-pure a
  handle-Returns handler (err e) h = h e

  -- Whatever is tried, if every exception is caught and the handler returns.
  Returns-try :
      (m : Exec S A) (handler : Error → Exec S A)
      → ((e : Error) → Returns (handler e))
      → Returns (try_except m any_error handler)
  Returns-try m handler h = record {
    at = λ s. let (r, s') = m s in (handle-Returns handler r h).at s';
  }

module _ {S A B : Type 0} where
  Returns-bind :
      (m : Exec S A) (f : A → Exec S B) → Returns m → ((a : A) → Returns (f a)) → Returns (m >>= f)
  Returns-bind m f h k = record { at = λ s. let (a, fine) = h.at s in rw fine ((k a).at (m s).1) }

Returns-gets : {S A : Type 0} (f : S → A) → Returns (gets f)
Returns-gets f = record { at = λ s. (f s, refl) }

module _ {X : Type 0} where
  Returns-flash : (message category : String) → Returns (flash {X = X} message category)
  Returns-flash message category = record { at = λ s. (tt, refl) }

  Returns-flash_all : (errors : List String) → Returns (flash_all {X = X} errors)
  unfolding flash_all
  Returns-flash_all [] = Returns-pure tt
  Returns-flash_all (e ∷ errors) =
      Returns-bind (flash e "danger") (λ _. flash_all errors) (Returns-flash e "danger")
        λ _. Returns-flash_all errors

ruleset returns_rules = (
  Returns-pure, Returns-if, Returns-try, Returns-bind, Returns-gets, Returns-flash,
  Returns-flash_all,
)

module _ {X S Bytes : Type 0} (Bill : Type 0) (config : Config) (backend : Backend X S Bytes) where
  -- The view answers, once `g` has an identity.
  record Answers (view : Answer X S Bill) : Type 0 where
    pub at :
        (w : World (Site X S)) (i : Identity)
        → w.identity ≡ some i
        → (r : Response (Shown Bill)) × ((view w).0 ≡ ok r)

  with_g-Answers :
      (f : Identity → Answer X S Bill) → ((g : Identity) → Returns (f g)) → Answers (with_g f)
  with_g-Answers f k = record { at = λ w i e. simp e ((k i).at w) }

  with_g-returns :
      (f : Identity → Answer X S Bill) (w : World (Site X S)) (i : Identity)
      → w.identity ≡ some i
      → ((r : Response (Shown Bill)) × ((f i w).0 ≡ ok r))
      → (r : Response (Shown Bill)) × ((with_g f w).0 ≡ ok r)
  with_g-returns f w i e h = simp e h

  create_user-Answers :
      (sub temp_password fresh_id : String) (request : Request)
      → Answers (Admin.create_user Bill config backend sub temp_password fresh_id request)
  unfolding Admin.create_user
  create_user-Answers sub temp_password fresh_id request =
      with_g-Answers _ λ g. search returns_rules

  delete_user-Answers :
      (id : String) (request : Request) → Answers (Admin.delete_user Bill config backend id request)
  unfolding Admin.delete_user
  delete_user-Answers id request = with_g-Answers _ λ g. search returns_rules

  toggle_user-Answers :
      (id : String) (request : Request) → Answers (Admin.toggle_user Bill config backend id request)
  unfolding Admin.toggle_user
  toggle_user-Answers id request = with_g-Answers _ λ g. search returns_rules

  -- The user's identifier can be told.
  abbrev Resolves : World (Site X S) → Type 0
  Resolves w = (id : String) × (Users.resolve_user_id (Users.current_identity w) ≡ ok id)

  with_user_id-Answers :
      (w : World (Site X S)) (view : String → Answer X S Bill)
      → Resolves w
      → ((id : String) → Returns (view id))
      → (r : Response (Shown Bill)) × ((Users.with_user_id Bill config backend
            (Users.resolve_user_id (Users.current_identity w))
            view
            w).0
          ≡ ok r)
  unfolding Users.with_user_id
  with_user_id-Answers w view (id, resolved) k = simp resolved ((k id).at w)

  details-Answers :
      (request : Request) (w : World (Site X S)) (i : Identity)
      → w.identity ≡ some i
      → Resolves w
      → (r : Response (Shown Bill)) × ((Users.user_details_update Bill config backend request w).0
          ≡ ok r)
  unfolding Users.user_details_update
  details-Answers request w i e resolved =
      with_g-returns _ w i e (with_user_id-Answers w _ resolved λ id. search returns_rules)

  reset_failed-Returns : (e : Error) → Returns (Users.reset_failed Bill config backend e)
  unfolding Users.reset_failed
  reset_failed-Returns value_error = search returns_rules
  reset_failed-Returns e = search returns_rules

  own_password-Answers :
      (request : Request) (w : World (Site X S)) (i : Identity)
      → w.identity ≡ some i
      → Resolves w
      → (r : Response (Shown Bill)) × ((Users.password_reset_update Bill config backend request w).0
          ≡ ok r)
  unfolding Users.password_reset_update
  own_password-Answers request w i e resolved =
      with_g-returns _ w i e
        (with_user_id-Answers w _ resolved λ id. search (returns_rules, reset_failed-Returns))

  reset_form-Returns :
      (other_digit : Char → Bool) (request : Request) (token : Option String) (i : Identity)
      → Returns (Password.reset_form Bill config backend other_digit request token i)
  unfolding Password.reset_form Password.reset_with Password.reset_failed
  reset_form-Returns other_digit request token i = search returns_rules depth 9

  reset_submit-Answers :
      (other_digit : Char → Bool) (request : Request) (w : World (Site X S)) (i : Identity)
      → w.session.identity ≡ some i
      → (r : Response (Shown Bill)) × ((Password.reset_submit Bill config backend other_digit
            request w).0
          ≡ ok r)
  unfolding Password.reset_submit Password.with_session_identity
  reset_submit-Answers other_digit request w i e =
      simp e ((reset_form-Returns other_digit request w.session.access_token i).at w)

  -- The view answers in the state `w`, and with a redirect or a page.
  abbrev pub AnswersAt : World (Site X S) → Answer X S Bill → Type 0
  AnswersAt w view = (r : Response (Shown Bill)) × ((view w).0 ≡ ok r) × IsShown r

  shown-AnswersAt :
      {w : World (Site X S)} (view : Answer X S Bill)
      → Shows Bill config backend view
      → ((r : Response (Shown Bill)) × ((view w).0 ≡ ok r))
      → AnswersAt w view
  shown-AnswersAt view h (r, answered) = (r, answered, h.at _ r answered)

  -- The forms of routes/users.py, admin.py and password.py get a redirect or a page, whatever
  -- exceptions the store of the users, Cognito and KMS raise, when the session and `g` have an
  -- identity and the user's identifier can be told: creating, deleting and toggling a user, saving
  -- the own profile, and both ways to change the own password.
  pub forms-Answer :
      (request : Request) (other_digit : Char → Bool) (id sub temp_password fresh_id : String)
      (w : World (Site X S)) (g i : Identity) {own_id : String}
      → w.identity ≡ some g
      → w.session.identity ≡ some i
      → Users.resolve_user_id (Users.current_identity w) ≡ ok own_id
      → AnswersAt w (Admin.create_user Bill config backend sub temp_password fresh_id request)
        × AnswersAt w (Admin.delete_user Bill config backend id request)
        × AnswersAt w (Admin.toggle_user Bill config backend id request)
        × AnswersAt w (Users.user_details_update Bill config backend request)
        × AnswersAt w (Users.password_reset_update Bill config backend request)
        × AnswersAt w (Password.reset_submit Bill config backend other_digit request)
  forms-Answer request other_digit id sub temp_password fresh_id w g i {own_id} e e' resolved = (
    shown-AnswersAt _ (create_user-Shows Bill config backend sub temp_password fresh_id request)
        ((create_user-Answers sub temp_password fresh_id request).at w g e),
    shown-AnswersAt _ (delete_user-Shows Bill config backend id request)
        ((delete_user-Answers id request).at w g e),
    shown-AnswersAt _ (toggle_user-Shows Bill config backend id request)
        ((toggle_user-Answers id request).at w g e),
    shown-AnswersAt _ (details-Shows Bill config backend request)
        (details-Answers request w g e (own_id, resolved)),
    shown-AnswersAt _ (own_password-Shows Bill config backend request)
        (own_password-Answers request w g e (own_id, resolved)),
    shown-AnswersAt _ (reset_submit-Shows Bill config backend other_digit request)
        (reset_submit-Answers other_digit request w i e'),
  )
