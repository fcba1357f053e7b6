-- ===== src/Decorators/Gate/Expiry.antt =====
-- decorators.py: sessions whose access token is about to expire.
use secure_multi_tenant_saas.Prelude.{ℕ, ◌+◌, ◌≤◌, ◌≡◌, false, none, some, arith, eq_iff, eqb}
use secure_multi_tenant_saas.Prelude.Exec.{ok}
use secure_multi_tenant_saas.Config.{Config}
use secure_multi_tenant_saas.Web.{Identity, Request, Session, redirect, World, View}
use secure_multi_tenant_saas.Decorators.Identify.{resolve_identity}
use secure_multi_tenant_saas.Decorators.Gate.{
  Deps, token_refresh_skew, login_required, admin_required,
}

-- A session outside demo mode whose token runs out within a minute, or has run out, and that has
-- no token to refresh it by.
pub record IsExpired (config : Config) (now : ℕ) (s : Session) : Type 0 where
  pub live : config.demo_mode ≡ false
  pub expires_at : ℕ
  pub expires : s.token_expires_at ≡ some expires_at
  pub nonzero : eqb expires_at 0 ≡ false
  pub past : expires_at ≤ now + token_refresh_skew
  pub no_refresh : s.refresh_token ≡ none

module _ {X V : Type 0} (config : Config) (deps : Deps) (request : Request) (view : View X V)
    (w : World X) (i : Identity) where
  -- An administrator whose access token has expired, with none to refresh it, is sent to the login
  -- page by `login_required`, which clears the session; `admin_required` runs its view for the same
  -- session.
  pub admin_required_skips_expiry :
      w.session.identity ≡ some i
      → i.role ≡ "admin"
      → IsExpired config deps.now w.session
      → ((login_required config deps request view w).0 ≡ ok (redirect "auth_pages.login"))
        × ((login_required config deps request view w).1.session.identity ≡ none)
        × (admin_required config deps request view w ≡ view (record w { identity = some i }))
  unfolding login_required admin_required resolve_identity
  admin_required_skips_expiry e r x =
      (ground arith, ground arith, ground (arith, eq_iff i.role "admin"))
