-- ===== src/Web.antt =====
-- What Flask hands to a view and takes back: the request, the session, `flask.g`, responses.
-- The state of the services behind the views, `X`, is a parameter.
use secure_multi_tenant_saas.Prelude.{ℕ, String, Bool, false, Option, none, List, [], ◌∷◌, ◌++◌}
use secure_multi_tenant_saas.Prelude.Dict.{Dict}
use secure_multi_tenant_saas.Prelude.Exec.{Exec, modify}

-- The dictionary that stands for a signed-in user. A key that is absent is `none`, and
-- `profile_complete` false.
pub record Identity : Type 0 where
  pub tenant : String
  pub role : String
  pub group : String
  pub username : Option String
  pub email : Option String
  pub sub : Option String
  pub user_id : Option String
  pub profile_complete : Bool
  pub first_login : Option Bool
  pub password_reset_done : Bool

-- The names of headers are compared by Werkzeug, without regard to case.
pub record Request : Type 0 where
  pub method : String
  pub path : String
  pub header : String → Option String
  pub cookies : Dict String
  pub args : Dict String
  pub form : Dict String

-- `flask.session`; a key that is absent is `none`. The messages of `flash` are kept in it too,
-- each behind its category. Times are in microseconds.
pub record Session : Type 0 where
  pub identity : Option Identity
  pub permanent : Bool
  pub access_token : Option String
  pub refresh_token : Option String
  pub token_expires_at : Option ℕ
  pub oauth_state : Option String
  pub oauth_code_verifier : Option String
  pub flashes : List (String × String)

-- `session.clear()`
abbrev pub cleared : Session
cleared = record {
  identity = none;
  permanent = false;
  access_token = none;
  refresh_token = none;
  token_expires_at = none;
  oauth_state = none;
  oauth_code_verifier = none;
  flashes = [];
}

-- `redirect(url_for(endpoint))`, a rendered page, and JSON bodies.
pub data Response (V : Type 0) : Type 0 where
  redirect : String → Response V
  page : String → V → Response V
  json : ℕ → V → Response V
  json_error : ℕ → String → Response V

abbrev pub status_code : {V : Type 0} → Response V → ℕ
status_code (redirect _) = 302
status_code (page _ _) = 200
status_code (json n _) = n
status_code (json_error n _) = n

-- `identity` is `g.identity`; `g.tenant` and `g.role` are its fields wherever they are set.
pub record World (X : Type 0) : Type 0 where
  pub session : Session
  pub identity : Option Identity
  pub services : X

module _ {X : Type 0} where
  abbrev pub on_session : (Session → Session) → Exec (World X) (Unit {0})
  on_session f = modify (λ w. record w { session = f w.session })

  -- `flash(message, category)`
  abbrev pub flash : String → String → Exec (World X) (Unit {0})
  flash message category =
      on_session (λ s. record s { flashes = s.flashes ++ (category, message) ∷ [] })

-- A view, on what the services behind it keep and what its pages show.
abbrev pub View : Type 0 → Type 0 → Type 0
View X V = Exec (World X) (Response V)
