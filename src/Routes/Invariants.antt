-- ===== src/Routes/Invariants.antt =====
-- The views of routes/: what they keep of the state of rds_service.py, one rule for each way to
-- build a view.
use secure_multi_tenant_saas.Prelude.{
  String, ◌≡◌, refl, Bool, true, false, Option, none, some, List, [], ◌∷◌, if◌then◌else◌,
}
use secure_multi_tenant_saas.Prelude.Exec.{
  Exec, Result, ok, err, Error, pure, raise, lift, gets, try_except, handle_result, continue, ◌>>=◌,
}
use secure_multi_tenant_saas.Web.{Identity, World, flash}
use secure_multi_tenant_saas.Cognito.UserPool.{Pool}
use secure_multi_tenant_saas.Routes.{
  Site, on_users, on_pool, change_identity, change_both, flash_all,
}

-- `m` keeps `Q`, whether it returns or raises.
pub record Keeps {X S A : Type 0} (Q : X → Type 0) (m : Exec (World (Site X S)) A) : Type 0 where
  pub at : (w : World (Site X S)) → Q w.services.users → Q (m w).1.services.users

module _ {X S A : Type 0} {Q : X → Type 0} where
  pub Keeps-pure : (a : A) → Keeps {S = S} Q (pure a)
  Keeps-pure a = record { at = λ w q. q }

  pub Keeps-raise : (e : Error) → Keeps {S = S} {A = A} Q (raise e)
  Keeps-raise e = record { at = λ w q. q }

  pub Keeps-lift : (r : Result A) → Keeps {S = S} Q (lift r)
  Keeps-lift r = record { at = λ w q. q }

  pub Keeps-gets : (f : World (Site X S) → A) → Keeps Q (gets f)
  Keeps-gets f = record { at = λ w q. q }

  pub Keeps-on_pool : (m : Exec (Pool S) A) → Keeps Q (on_pool m)
  Keeps-on_pool m = record { at = λ w q. q }

  pub Keeps-on_users : (m : Exec X A) → ((x : X) → Q x → Q (m x).1) → Keeps {S = S} Q (on_users m)
  Keeps-on_users m k = record { at = λ w q. k w.services.users q }

  pub Keeps-if :
      (b : Bool) (m n : Exec (World (Site X S)) A)
      → Keeps Q m
      → Keeps Q n
      → Keeps Q (if b then m else n)
  Keeps-if true m n km kn = km
  Keeps-if false m n km kn = kn

  Keeps-handle :
      (catches : Error → Bool) (handler : Error → Exec (World (Site X S)) A) (r : Result A)
      → ((e : Error) → Keeps Q (handler e))
      → Keeps Q (handle_result catches handler r)
  Keeps-handle catches handler (ok a) k = record { at = λ w q. q }
  Keeps-handle catches handler (err e) k = record { at = caught (catches e) }
    where
      caught :
          (b : Bool) (w : World (Site X S))
          → Q w.services.users
          → Q (if b then handler e w else (err e, w)).1.services.users
      caught true w q = (k e).at w q
      caught false w q = q

  pub Keeps-try :
      (m : Exec (World (Site X S)) A) (catches : Error → Bool)
      (handler : Error → Exec (World (Site X S)) A)
      → Keeps Q m
      → ((e : Error) → Keeps Q (handler e))
      → Keeps Q (try_except m catches handler)
  Keeps-try m catches handler km k = record {
    at = λ w q. let (r, w') = m w in (Keeps-handle catches handler r k).at w' (km.at w q);
  }

module _ {X S A B : Type 0} {Q : X → Type 0} where
  Keeps-continue :
      (r : Result A) (f : A → Exec (World (Site X S)) B)
      → ((a : A) → Keeps Q (f a))
      → Keeps Q (continue r f)
  Keeps-continue (ok a) f k = k a
  Keeps-continue (err e) f k = record { at = λ w q. q }

  pub Keeps-bind :
      (m : Exec (World (Site X S)) A) (f : A → Exec (World (Site X S)) B)
      → Keeps Q m
      → ((a : A) → Keeps Q (f a))
      → Keeps Q (m >>= f)
  Keeps-bind m f km k = record {
    at = λ w q. let (r, w') = m w in (Keeps-continue r f k).at w' (km.at w q);
  }

change_both-services :
    {X S : Type 0} (f : Identity → Identity) (o : Option Identity) (w : World (Site X S))
    → (change_both f o w).services ≡ w.services
change_both-services f none w = refl
change_both-services f (some i) w = refl

module _ {X S : Type 0} {Q : X → Type 0} where
  pub Keeps-flash : (message category : String) → Keeps {S = S} Q (flash message category)
  Keeps-flash message category = record { at = λ w q. q }

  pub Keeps-flash_all : (errors : List String) → Keeps {S = S} Q (flash_all errors)
  unfolding flash_all
  Keeps-flash_all [] = record { at = λ w q. q }
  Keeps-flash_all (e ∷ errors) =
      Keeps-bind (flash e "danger") (λ _. flash_all errors) (Keeps-flash e "danger")
        λ _. Keeps-flash_all errors

  pub Keeps-change_identity : (f : Identity → Identity) → Keeps {S = S} Q (change_identity f)
  Keeps-change_identity f = record {
    at = λ w q. rw (change_both-services f w.session.identity w) q;
  }

pub ruleset keeps_rules = (
  Keeps-pure, Keeps-raise, Keeps-lift, Keeps-gets, Keeps-flash, Keeps-flash_all, Keeps-on_pool,
  Keeps-on_users, Keeps-change_identity, Keeps-if, Keeps-try, Keeps-bind,
)
