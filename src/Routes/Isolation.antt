-- ===== src/Routes/Isolation.antt =====
-- The views of routes/: they change the users of the tenant that `g` names, and of no other.
use secure_multi_tenant_saas.Prelude.{
  ℕ, String, Char, ◌≡◌, ◌∙◌, Bool, false, Option, none, some, ◌==◌,
}
use secure_multi_tenant_saas.Prelude.Dict.{Dict}
use secure_multi_tenant_saas.Prelude.Exec.{Exec, Result, ok, err, value_error, Error}
use secure_multi_tenant_saas.Config.{Config}
use secure_multi_tenant_saas.Web.{Identity, Request, Response, World}
use secure_multi_tenant_saas.Decorators.Gate.{profile_setup_required}
use secure_multi_tenant_saas.Decorators.Gate.Access.{
  Asked, let_through, sent_away, profile_setup_required-Asked,
}
use secure_multi_tenant_saas.Rds.Users.{IsIsolating, Reads, WritesAt}
use secure_multi_tenant_saas.Routes.{Site, Backend, Shown, Answer, on_users, with_g}
use secure_multi_tenant_saas.Routes.Invariants.{Keeps, Keeps-on_users, keeps_rules}
use secure_multi_tenant_saas.Routes.Users
use secure_multi_tenant_saas.Routes.Password
use secure_multi_tenant_saas.Routes.Admin

module _ {X S Bytes R : Type 0} (Bill : Type 0) (config : Config) (backend : Backend X S Bytes)
    (rows : X → String → R) (laws : IsIsolating rows backend.users) (u : String) (before : R) where
  -- The users of the tenant `u` are as before.
  abbrev Same : X → Type 0
  Same x = rows x u ≡ before

  Keeps-read : {A : Type 0} (m : Exec X A) → Reads rows m → Keeps {S = S} Same (on_users m)
  Keeps-read m h = Keeps-on_users m λ x q. h x u ∙ q

  Keeps-write :
      {A : Type 0} (t : String) (m : Exec X A)
      → WritesAt rows t m
      → (t == u) ≡ false
      → Keeps {S = S} Same (on_users m)
  Keeps-write t m h other = Keeps-on_users m λ x q. h x u other ∙ q

  -- The view leaves them so, when `g` names another tenant.
  pub record Kept {A : Type 0} (view : Exec (World (Site X S)) A) : Type 0 where
    pub at :
        (w : World (Site X S)) (i : Identity)
        → w.identity ≡ some i
        → (i.tenant == u) ≡ false
        → Same w.services.users
        → Same (view w).1.services.users

  Keeps-Kept : {A : Type 0} (view : Exec (World (Site X S)) A) → Keeps Same view → Kept view
  Keeps-Kept view k = record { at = λ w i e other q. k.at w q }

  pub with_g-Kept :
      {A : Type 0} (f : Identity → Exec (World (Site X S)) A)
      → ((g : Identity) → (g.tenant == u) ≡ false → Keeps Same (f g))
      → Kept (with_g f)
  with_g-Kept f k = record { at = λ w i e other q. simp e ((k i other).at w q) }

  read_user-Keeps :
      (t id : String) → Keeps {S = S} Same (on_users (backend.users.get_user_by_id t id))
  read_user-Keeps t id = Keeps-read (backend.users.get_user_by_id t id) (laws.get_user_by_id t id)

  pub user_details_page-Kept : Kept (Users.user_details_page Bill config backend)
  unfolding Users.user_details_page
  user_details_page-Kept = with_g-Kept _ λ g other. search (keeps_rules, read_user-Keeps)

  save-Keeps :
      (t id : String) (fields : Dict String) (role : String)
      → (t == u) ≡ false
      → Keeps {S = S} Same (on_users (backend.users.upsert_user_profile t id fields role))
  save-Keeps t id fields role =
      Keeps-write t (backend.users.upsert_user_profile t id fields role)
        (laws.upsert_user_profile t id fields role)

  with_user_id-Keeps :
      (r : Result String) (view : String → Answer X S Bill)
      → ((id : String) → Keeps Same (view id))
      → Keeps Same (Users.with_user_id Bill config backend r view)
  unfolding Users.with_user_id
  with_user_id-Keeps (ok id) view k = k id
  with_user_id-Keeps (err value_error) view k = search keeps_rules
  with_user_id-Keeps (err e) view k = search keeps_rules

  reset_failed-Keeps : (e : Error) → Keeps {S = S} Same (Users.reset_failed Bill config backend e)
  unfolding Users.reset_failed
  reset_failed-Keeps value_error = search keeps_rules
  reset_failed-Keeps e = search keeps_rules

  save_profile-Keeps :
      (t id role name email phone department : String)
      → (t == u) ≡ false
      → Keeps Same (Users.save_profile Bill config backend t id role name email phone department)
  unfolding Users.save_profile
  save_profile-Keeps t id role name email phone department other = search (keeps_rules, save-Keeps)

  pub user_details_update-Kept :
      (request : Request) → Kept (Users.user_details_update Bill config backend request)
  unfolding Users.user_details_update
  user_details_update-Kept request =
      with_g-Kept _ λ g other. search (keeps_rules, with_user_id-Keeps, save_profile-Keeps)

  pub dashboard-Kept : (request : Request) → Kept (Users.dashboard Bill config backend request)
  unfolding Users.dashboard
  dashboard-Kept request = with_g-Kept _ λ g other. search (keeps_rules, read_user-Keeps)

  mark_changed-Keeps :
      (t id : String)
      → (t == u) ≡ false
      → Keeps {S = S} Same (on_users (backend.users.mark_password_changed t id))
  mark_changed-Keeps t id =
      Keeps-write t (backend.users.mark_password_changed t id) (laws.mark_password_changed t id)

  pub password_reset_update-Kept :
      (request : Request) → Kept (Users.password_reset_update Bill config backend request)
  unfolding Users.password_reset_update
  password_reset_update-Kept request = with_g-Kept _ λ g other.
      search (keeps_rules, with_user_id-Keeps, mark_changed-Keeps, reset_failed-Keeps) depth 9

  pub password_reset_page-Kept : Kept (Users.password_reset_page Bill config backend)
  unfolding Users.password_reset_page
  password_reset_page-Kept = Keeps-Kept _ (search keeps_rules)

  pub reset_page-Kept : Kept (Password.reset_page Bill config backend)
  unfolding Password.reset_page
  reset_page-Kept = Keeps-Kept _ (search keeps_rules)

  reset_with-Keeps :
      (request : Request) (token : String) (i : Identity)
      → Keeps Same (Password.reset_with Bill config backend request token i)
  unfolding Password.reset_with Password.reset_failed
  reset_with-Keeps request token i = search keeps_rules depth 9

  pub reset_submit-Kept :
      (other_digit : Char → Bool) (request : Request)
      → Kept (Password.reset_submit Bill config backend other_digit request)
  unfolding Password.reset_submit Password.with_session_identity Password.reset_form
  reset_submit-Kept other_digit request = record {
    at = λ w i e other q. (with_session-Keeps w.session.identity w.session.access_token).at w q;
  }
    where
      with_session-Keeps :
          (o : Option Identity) (token : Option String)
          → Keeps Same (
              Password.with_session_identity Bill config backend o
                (Password.reset_form Bill config backend other_digit request token))
      with_session-Keeps none token = search keeps_rules
      with_session-Keeps (some i) token = search (keeps_rules, reset_with-Keeps)

  pub list_page-Kept :
      (template : String) (request : Request)
      → Kept (Admin.list_page Bill config backend template request)
  unfolding Admin.list_page
  list_page-Kept template request = with_g-Kept _ λ g other. search (keeps_rules, list-Keeps)
    where
      list-Keeps :
          (t search : String) (n k : ℕ)
          → Keeps {S = S} Same (on_users (backend.users.list_users t search n k))
      list-Keeps t search n k =
          Keeps-read (backend.users.list_users t search n k) (laws.list_users t search n k)

  pub create_user-Kept :
      (sub temp_password fresh_id : String) (request : Request)
      → Kept (Admin.create_user Bill config backend sub temp_password fresh_id request)
  unfolding Admin.create_user Admin.add_user
  create_user-Kept sub temp_password fresh_id request =
      with_g-Kept _ λ g other. search (keeps_rules, create-Keeps) depth 9
    where
      create-Keeps :
          (t id name email role : String)
          → (t == u) ≡ false
          → Keeps {S = S} Same (on_users (backend.users.create_user_record t id name email role))
      create-Keeps t id name email role =
          Keeps-write t (backend.users.create_user_record t id name email role)
            (laws.create_user_record t id name email role)

  pub delete_user-Kept :
      (id : String) (request : Request) → Kept (Admin.delete_user Bill config backend id request)
  unfolding Admin.delete_user
  delete_user-Kept id request = with_g-Kept _ λ g other. search (keeps_rules, delete-Keeps)
    where
      delete-Keeps :
          (t id : String) (hard : Bool)
          → (t == u) ≡ false
          → Keeps {S = S} Same (on_users (backend.users.delete_user_record t id hard))
      delete-Keeps t id hard =
          Keeps-write t (backend.users.delete_user_record t id hard)
            (laws.delete_user_record t id hard)

  pub toggle_user-Kept :
      (id : String) (request : Request) → Kept (Admin.toggle_user Bill config backend id request)
  unfolding Admin.toggle_user
  toggle_user-Kept id request = with_g-Kept _ λ g other. search (keeps_rules, enable-Keeps)
    where
      enable-Keeps :
          (t id : String) (enabled : Bool)
          → (t == u) ≡ false
          → Keeps {S = S} Same (on_users (backend.users.set_user_enabled t id enabled))
      enable-Keeps t id enabled =
          Keeps-write t (backend.users.set_user_enabled t id enabled)
            (laws.set_user_enabled t id enabled)

  pub profile_setup-Kept : (view : Answer X S Bill) → Kept view → Kept (profile_setup_required view)
  profile_setup-Kept view k = record {
    at = λ w i e other q. asked w i e other q _ (profile_setup_required-Asked view w);
  }
    where
      asked :
          (w : World (Site X S)) (i : Identity)
          → w.identity ≡ some i
          → (i.tenant == u) ≡ false
          → Same w.services.users
          → (out : Result (Response (Shown Bill)) × World (Site X S)) → Asked view w out
          → Same out.1.services.users
      asked w i e other q out (let_through h) = rw h (k.at w i e other q)
      asked w i e other q out (sent_away r s h) = rw h q

  pub admin_dashboard-Kept :
      (request : Request) → Kept (Admin.dashboard Bill config backend request)
  unfolding Admin.dashboard
  admin_dashboard-Kept request = list_page-Kept "admin_dashboard.html" request

  pub manage_users_page-Kept :
      (request : Request) → Kept (Admin.manage_users_page Bill config backend request)
  unfolding Admin.manage_users_page
  manage_users_page-Kept request = list_page-Kept "manage_users.html" request

pub ruleset views_kept = (
  dashboard-Kept, user_details_page-Kept, user_details_update-Kept, password_reset_page-Kept,
  password_reset_update-Kept, reset_page-Kept, reset_submit-Kept, admin_dashboard-Kept,
  manage_users_page-Kept, create_user-Kept, delete_user-Kept, toggle_user-Kept, profile_setup-Kept,
)
