-- ===== src/Decorators/Identify/Headers.antt =====
-- decorators.py, `_resolve_trusted_header_identity`: whom the headers of the gateway can name.
use secure_multi_tenant_saas.Prelude.{
  String, ◌≡◌, refl, ap, ◌∙◌, inl, inr, Bool, true, false, Option, none, some, List, [], ◌∷◌, ◌++◌,
  All, arith, ◌==◌, eq_iff, Bool-cases, truthy, nonempty, or_empty, ◌&&◌,
}
use secure_multi_tenant_saas.Prelude.Dict.{get}
use secure_multi_tenant_saas.Prelude.Text.{strip}
use secure_multi_tenant_saas.Prelude.Exec.{
  Result, ok, err, and_then, and_then-eq-ok, if-eq-ok, ok-injective, trusted_header_auth,
}
use secure_multi_tenant_saas.Config.{Config, Mapping, cognito_group_map}
use secure_multi_tenant_saas.Web.{Identity, Request}
use secure_multi_tenant_saas.Auth.Resolve.{IsUnknown, IsFirstKnown, IsFirstKnown-cons}
use secure_multi_tenant_saas.Decorators.Identify.{
  Chosen, trusted_groups, choose, choose_group, chosen_of, or_unrecognized, check_secret,
  compare_digest, read_headers, header_identity, resolve_trusted_header_identity,
}

-- A group that is unknown, or of the tenant.
abbrev pub Agrees : String → String → Type 0
Agrees tenant g = (m : Mapping) → get cognito_group_map g ≡ some m → tenant ≡ m.tenant

-- A group of the list belongs to another tenant.
pub record Conflicts (groups : List String) (tenant : String) : Type 0 where
  pub group : String
  pub mapping : Mapping
  pub before : List String
  pub after : List String
  pub split : groups ≡ before ++ group ∷ after
  pub mapped : get cognito_group_map group ≡ some mapping
  pub differs : (tenant == mapping.tenant) ≡ false

Conflicts-cons :
    (g : String) (groups : List String) (t : String) → Conflicts groups t → Conflicts (g ∷ groups) t
Conflicts-cons g groups t c = record {
  group = c.group;
  mapping = c.mapping;
  before = g ∷ c.before;
  after = c.after;
  split = ap (λ r. g ∷ r) c.split;
  mapped = c.mapped;
  differs = c.differs;
}

-- The rest of the loop, once a group has been chosen.
abbrev Keeps : List String → Chosen → Result (Option Chosen) → Type 0
Keeps groups c (ok r) = (r ≡ some c) × All (Agrees c.tenant) groups
Keeps groups c (err e) = (e ≡ trusted_header_auth) × Conflicts groups c.tenant

Keeps-cons :
    (g : String) (groups : List String) (c : Chosen) (r : Result (Option Chosen))
    → Agrees c.tenant g
    → Keeps groups c r
    → Keeps (g ∷ groups) c r
Keeps-cons g groups c (ok r) a k = (k.0, (a, k.1))
Keeps-cons g groups c (err e) a k = (k.0, Conflicts-cons g groups c.tenant k.1)

module _ (groups : List String) (c : Chosen)
    (ih : Keeps groups c (choose_group groups (some c))) where
  choose-Keeps :
      (g : String) (o : Option Mapping)
      → get cognito_group_map g ≡ o
      → Keeps (g ∷ groups) c (and_then (choose o g (some c)) (choose_group groups))
  unfolding choose
  choose-Keeps g none e = Keeps-cons g groups c _ (λ m h. cc) ih
  choose-Keeps g (some m) e = elim (Bool-cases (c.tenant == m.tenant)) [
    | inl same ↦
        rw same (Keeps-cons g groups c _ (λ m' h. ground (arith, eq_iff c.tenant m.tenant)) ih)
    | inr other ↦ rw other (
      refl,
      record {
        group = g;
        mapping = m;
        before = [];
        after = groups;
        split = refl;
        mapped = e;
        differs = other;
      },
    )
  ]

choose_group-Keeps :
    (groups : List String) (c : Chosen) → Keeps groups c (choose_group groups (some c))
unfolding choose_group
choose_group-Keeps [] c = (refl, tt)
choose_group-Keeps (g ∷ groups) c =
    choose-Keeps groups c (choose_group-Keeps groups c) g (get cognito_group_map g) refl

-- What the loop answers: nothing where no group is known, else the first known group, if all known
-- groups are of one tenant.
abbrev pub Chooses : List String → Result (Option Chosen) → Type 0
Chooses groups (ok none) = All IsUnknown groups
Chooses groups (ok (some c)) =
    IsFirstKnown groups c.group (record { tenant = c.tenant; role = c.role })
    × All (Agrees c.tenant) groups
Chooses groups (err e) =
    (e ≡ trusted_header_auth)
    × (group : String) × (mapping : Mapping) × IsFirstKnown groups group mapping
    × Conflicts groups mapping.tenant

Chooses-cons :
    (g : String) (groups : List String) (r : Result (Option Chosen))
    → IsUnknown g
    → Chooses groups r
    → Chooses (g ∷ groups) r
Chooses-cons g groups (ok none) u h = (u, h)
Chooses-cons g groups (ok (some c)) u h = (IsFirstKnown-cons g groups _ _ u h.0, (λ m e. cc, h.1))
Chooses-cons g groups (err e) u h =
    (h.0, h.1, h.2, IsFirstKnown-cons g groups _ _ u h.3, Conflicts-cons g groups _ h.4)

choose-Chooses :
    (g : String) (groups : List String) (o : Option Mapping)
    → get cognito_group_map g ≡ o
    → Chooses groups (choose_group groups none)
    → Chooses (g ∷ groups) (and_then (choose o g none) (choose_group groups))
unfolding choose
choose-Chooses g groups none e ih = Chooses-cons g groups _ e ih
choose-Chooses g groups (some m) e ih =
    go (choose_group groups (some c)) (choose_group-Keeps groups c)
  where
    c : Chosen
    c = record { tenant = m.tenant; role = m.role; group = g }

    first : IsFirstKnown (g ∷ groups) g m
    first = record { before = []; after = groups; split = refl; unknown = tt; mapped = e }

    go : (r : Result (Option Chosen)) → Keeps groups c r → Chooses (g ∷ groups) r
    go (ok r) k = rw k.0 (first, ((λ m' h. cc), k.1))
    go (err x) k = (k.0, g, m, first, Conflicts-cons g groups m.tenant k.1)

choose_group-Chooses : (groups : List String) → Chooses groups (choose_group groups none)
unfolding choose_group
choose_group-Chooses [] = tt
choose_group-Chooses (g ∷ groups) =
    choose-Chooses g groups (get cognito_group_map g) refl (choose_group-Chooses groups)

-- The header, `""` if it is missing.
abbrev header_or_empty : Request → String → String
header_or_empty request name = or_empty (request.header name)

-- The groups that the request's headers name.
abbrev pub groups_of : Config → Request → List String
groups_of config request =
    trusted_groups (strip (header_or_empty request config.api_gw_groups_header_name))

-- What vouches for an identity that came by headers.
pub record IsVouched (config : Config) (request : Request) (i : Identity) : Type 0 where
  pub secret_set : truthy config.api_gw_shared_secret ≡ true
  pub secret :
      header_or_empty request config.api_gw_secret_header_name ≡ config.api_gw_shared_secret
  pub first :
      IsFirstKnown (groups_of config request) i.group (record { tenant = i.tenant; role = i.role })
  pub one_tenant : All (Agrees i.tenant) (groups_of config request)
  pub sub : i.sub ≡ some (strip (header_or_empty request config.api_gw_sub_header_name))
  pub sub_set : truthy (strip (header_or_empty request config.api_gw_sub_header_name)) ≡ true

check_secret-eq-true :
    (config : Config) (request : Request)
    → check_secret config request ≡ ok true
    → (truthy config.api_gw_shared_secret ≡ true)
      × (header_or_empty request config.api_gw_secret_header_name ≡ config.api_gw_shared_secret)
unfolding check_secret compare_digest
check_secret-eq-true config request h = ground (
  arith,
  eq_iff (header_or_empty request config.api_gw_secret_header_name) config.api_gw_shared_secret,
)

or_unrecognized-eq-ok : (o : Option Chosen) {c : Chosen} → or_unrecognized o ≡ ok c → o ≡ some c
or_unrecognized-eq-ok none h = cc
or_unrecognized-eq-ok (some c) h = cc

chosen_of-eq-ok :
    (groups : List String) {c : Chosen}
    → chosen_of groups ≡ ok c
    → IsFirstKnown groups c.group (record { tenant = c.tenant; role = c.role })
      × All (Agrees c.tenant) groups
unfolding chosen_of
chosen_of-eq-ok groups {c} h =
    let (o, e, chosen) = and_then-eq-ok (choose_group groups none) or_unrecognized h in
    rw (e ∙ ap ok (or_unrecognized-eq-ok o chosen)) at (choose_group-Chooses groups)

and-eq-true : (a b c : Bool) → (a && b && c) ≡ true → a ≡ true
and-eq-true a b c h = ground arith

module _ (config : Config) (request : Request) where
  abbrev sub_header : String
  sub_header = strip (header_or_empty request config.api_gw_sub_header_name)

  abbrev raw_groups : String
  raw_groups = strip (header_or_empty request config.api_gw_groups_header_name)

  abbrev identity_for : Chosen → Identity
  identity_for =
      header_identity sub_header
        (strip (header_or_empty request config.api_gw_username_header_name))
        (strip (header_or_empty request config.api_gw_email_header_name))

  read_headers-eq-ok :
      {i : Identity}
      → read_headers config request ≡ ok i
      → (truthy sub_header ≡ true)
        × (c : Chosen) × (chosen_of (groups_of config request) ≡ ok c)
        × (identity_for c ≡ i)
  unfolding read_headers
  read_headers-eq-ok h =
      let (b, read) =
        if-eq-ok (truthy sub_header && truthy raw_groups && nonempty (trusted_groups raw_groups)) _
          trusted_header_auth h in
      let (c, chosen, same) = and_then-eq-ok _ _ read in
      (
        and-eq-true (truthy sub_header) (truthy raw_groups) (nonempty (trusted_groups raw_groups))
            b,
        c,
        chosen,
        ok-injective same,
      )

-- An identity is accepted from headers only if the shared secret is set and was sent, a subject was
-- sent, and the known groups are all of the identity's tenant; its group is the first known one,
-- and its role is that group's.
pub trusted_header-IsVouched :
    (config : Config) (request : Request) (i : Identity)
    → resolve_trusted_header_identity config request ≡ ok i
    → IsVouched config request i
unfolding resolve_trusted_header_identity header_identity
trusted_header-IsVouched config request i h =
    let (same, checked, rest) = and_then-eq-ok (check_secret config request) _ h in
    let (b, read) = if-eq-ok same (read_headers config request) trusted_header_auth rest in
    let (set, sent) = check_secret-eq-true config request (checked ∙ ap ok b) in
    let (sub_set, c, chosen, e) = read_headers-eq-ok config request read in
    let (first, agrees) = chosen_of-eq-ok (groups_of config request) chosen in
    rw (← e) (record {
      secret_set = set;
      secret = sent;
      first = first;
      one_tenant = agrees;
      sub = refl;
      sub_set = sub_set;
    })
