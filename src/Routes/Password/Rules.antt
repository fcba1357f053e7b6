-- ===== src/Routes/Password/Rules.antt =====
-- routes/password.py: a password is handed on only if it keeps the rules.
use secure_multi_tenant_saas.Prelude.{
  String, Char, ◌≡◌, refl, ◌⊎◌, inl, inr, Bool, true, false, Option, none, some, List, [], ◌∷◌,
  Bool-cases, nonempty, truthy, arith,
}
use secure_multi_tenant_saas.Prelude.Exec.{Result, ok, err, pure, continue, ◌>>◌}
use secure_multi_tenant_saas.Config.{Config}
use secure_multi_tenant_saas.Web.{Identity, Request, Response, World, flash}
use secure_multi_tenant_saas.Password.{password_errors}
use secure_multi_tenant_saas.Password.Rules.{IsStrong, password_errors-eq-nil_iff}
use secure_multi_tenant_saas.Routes.{Site, Backend, flash_all}
use secure_multi_tenant_saas.Routes.Users.{form_text}
use secure_multi_tenant_saas.Routes.Password.{
  reset_errors, reset_form, reset_submit, with_session_identity,
}

-- A form that has what is asked for: a strong new password, repeated, and the current one.
pub record IsAcceptable (other_digit : Char → Bool) (request : Request) : Type 0 where
  pub strong : IsStrong other_digit (form_text request "new_password")
  pub repeated : form_text request "new_password" ≡ form_text request "confirm_password"
  pub known : truthy (form_text request "current_password") ≡ true

nonempty-eq-false : (xs : List String) → nonempty xs ≡ false → xs ≡ []
nonempty-eq-false [] h = refl
nonempty-eq-false (x ∷ xs) h = cc

reset_errors-IsAcceptable :
    (other_digit : Char → Bool) (request : Request)
    → nonempty (reset_errors other_digit request) ≡ false
    → IsAcceptable other_digit request
unfolding reset_errors
reset_errors-IsAcceptable other_digit request h =
    elim (Bool-cases (truthy (form_text request "current_password"))) [
      | inl known ↦
          let none_left : nonempty (
                password_errors other_digit (form_text request "new_password")
                  (form_text request "confirm_password"))
              ≡ false =
            ground arith in
          let (strong, repeated) =
            (password_errors-eq-nil_iff other_digit (form_text request "new_password")
                (form_text request "confirm_password")).0
              (nonempty-eq-false _ none_left) in
          record { strong = strong; repeated = repeated; known = known }
      | inr unknown ↦ ground arith
    ]

-- Nothing has changed but the messages.
pub record OnlyFlashes {X : Type 0} (w w' : World X) : Type 0 where
  pub services : w'.services ≡ w.services
  pub identity : w'.identity ≡ w.identity
  pub session_identity : w'.session.identity ≡ w.session.identity

flash_all-OnlyFlashes :
    {X : Type 0} (errors : List String) (w : World X) → OnlyFlashes w (flash_all errors w).1
unfolding flash_all
flash_all-OnlyFlashes [] w = record { services = refl; identity = refl; session_identity = refl }
flash_all-OnlyFlashes (e ∷ errors) w =
    let rest = flash_all-OnlyFlashes errors (flash e "danger" w).1 in
    record {
      services = rest.services;
      identity = rest.identity;
      session_identity = rest.session_identity;
    }

module _ {X V : Type 0} (answer : Response V) where
  answered : (r : Result (Unit {0})) (w : World X) → (continue r (λ _. pure answer) w).1 ≡ w
  answered (ok x) w = refl
  answered (err e) w = refl

  flashed-OnlyFlashes :
      (errors : List String) (w : World X) → OnlyFlashes w ((flash_all errors >> pure answer) w).1
  flashed-OnlyFlashes errors w =
      let (r, w') = flash_all errors w in rw (answered r w') (flash_all-OnlyFlashes errors w)

module _ {X S Bytes : Type 0} (Bill : Type 0) (config : Config) (backend : Backend X S Bytes)
    (other_digit : Char → Bool) (request : Request) where
  -- A reset of a password that does anything but show messages, to Cognito, to the stored users or to
  -- the identity, has been sent a new password that keeps all the rules and is repeated, and a current
  -- password that is not empty.
  pub reset_submit-IsAcceptable :
      (w : World (Site X S))
      → OnlyFlashes w (reset_submit Bill config backend other_digit request w).1
        ⊎ IsAcceptable other_digit request
  unfolding reset_submit with_session_identity reset_form
  reset_submit-IsAcceptable w = by_identity w.session.identity w.session.access_token
    where
      by_identity :
          (o : Option Identity) (token : Option String)
          → OnlyFlashes w
              (with_session_identity Bill config backend o
                (reset_form Bill config backend other_digit request token)
                w).1
            ⊎ IsAcceptable other_digit request
      by_identity none token =
          inl (record { services = refl; identity = refl; session_identity = refl })
      by_identity (some i) token = elim (Bool-cases (nonempty (reset_errors other_digit request))) [
        | inl wrong ↦ inl (rw wrong (flashed-OnlyFlashes _ (reset_errors other_digit request) w))
        | inr fine ↦ inr (reset_errors-IsAcceptable other_digit request fine)
      ]
