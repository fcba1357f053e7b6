-- ===== src/Auth/Resolve.antt =====
-- What `resolve_tenant_and_role` returns and when it refuses.
use secure_multi_tenant_saas.Prelude.{
  String, ◌≡◌, refl, ap, Option, none, some, List, [], ◌∷◌, ◌++◌, All,
}
use secure_multi_tenant_saas.Prelude.Dict.{get}
use secure_multi_tenant_saas.Prelude.Exec.{Result, ok, err, invalid_token}
use secure_multi_tenant_saas.Config.{Mapping, cognito_group_map}
use secure_multi_tenant_saas.Web.{Identity}
use secure_multi_tenant_saas.Auth.{
  Claims, first_known, pick_first, identity_of, resolve_tenant_and_role,
}

abbrev pub IsUnknown : String → Type 0
IsUnknown g = get cognito_group_map g ≡ none

-- The group is the first of the list that the map knows, and the map sends it to the mapping.
pub record IsFirstKnown (groups : List String) (group : String) (mapping : Mapping) : Type 0 where
  pub before : List String
  pub after : List String
  pub split : groups ≡ before ++ group ∷ after
  pub unknown : All IsUnknown before
  pub mapped : get cognito_group_map group ≡ some mapping

pub IsFirstKnown-cons :
    (g : String) (groups : List String) (group : String) (mapping : Mapping)
    → IsUnknown g
    → IsFirstKnown groups group mapping
    → IsFirstKnown (g ∷ groups) group mapping
IsFirstKnown-cons g groups group mapping u h = record {
  before = g ∷ h.before;
  after = h.after;
  split = ap (λ r. g ∷ r) h.split;
  unknown = (u, h.unknown);
  mapped = h.mapped;
}

abbrev Finds : List String → Option (String × Mapping) → Type 0
Finds groups none = All IsUnknown groups
Finds groups (some (group, mapping)) = IsFirstKnown groups group mapping

Finds-cons :
    (g : String) (groups : List String) (o : Option (String × Mapping))
    → IsUnknown g
    → Finds groups o
    → Finds (g ∷ groups) o
Finds-cons g groups none u h = (u, h)
Finds-cons g groups (some (group, mapping)) u h = IsFirstKnown-cons g groups group mapping u h

Finds-pick_first :
    (g : String) (groups : List String) (m : Option Mapping) (o : Option (String × Mapping))
    → get cognito_group_map g ≡ m
    → Finds groups o
    → Finds (g ∷ groups) (pick_first g m o)
Finds-pick_first g groups none o e h = Finds-cons g groups o e h
Finds-pick_first g groups (some m) o e h = record {
  before = [];
  after = groups;
  split = refl;
  unknown = tt;
  mapped = e;
}

first_known-Finds : (groups : List String) → Finds groups (first_known groups)
unfolding first_known
first_known-Finds [] = tt
first_known-Finds (g ∷ groups) =
    Finds-pick_first g groups (get cognito_group_map g) (first_known groups) refl
      (first_known-Finds groups)

-- An identity whose tenant and role are those of its group.
abbrev pub IsScoped : Identity → Type 0
IsScoped i = get cognito_group_map i.group ≡ some (record { tenant = i.tenant; role = i.role })

-- What `resolve_tenant_and_role` may answer to claims.
abbrev pub Answers : Claims → Result Identity → Type 0
Answers claims (err e) = (e ≡ invalid_token) × All IsUnknown claims.groups
Answers claims (ok i) =
    IsFirstKnown claims.groups i.group (record { tenant = i.tenant; role = i.role })

-- The tenant, role and group of the result are those of the first group in the claims that the map
-- knows, whatever stands before and behind it; the claims are refused exactly when the map knows
-- none of their groups.
pub resolve_tenant_and_role-Answers :
    (claims : Claims) → Answers claims (resolve_tenant_and_role claims)
unfolding resolve_tenant_and_role
resolve_tenant_and_role-Answers claims =
    go (first_known claims.groups) (first_known-Finds claims.groups)
  where
    go :
        (o : Option (String × Mapping))
        → Finds claims.groups o
        → Answers claims (identity_of claims o)
    go none h = (refl, h)
    go (some (group, mapping)) h = h

pub resolve-IsScoped :
    (claims : Claims) (i : Identity) → resolve_tenant_and_role claims ≡ ok i → IsScoped i
resolve-IsScoped claims i e = (rw e at (resolve_tenant_and_role-Answers claims)).mapped
