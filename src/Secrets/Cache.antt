-- ===== src/Secrets/Cache.antt =====
-- secret_service.py: what the cache answers.
use secure_multi_tenant_saas.Prelude.{
  ℕ, ◌+◌, ◌<◌, String, ◌≡◌, refl, ◌∙◌, ◌⊎◌, true, Option, none, some, eq_refl, arith, Bool-cases,
  inl, inr, truthy,
}
use secure_multi_tenant_saas.Prelude.Text.{strip}
use secure_multi_tenant_saas.Prelude.Dict.{Dict, get, get-put}
use secure_multi_tenant_saas.Prelude.Exec.{Result, ok, err, and_then}
use secure_multi_tenant_saas.Config.{Config}
use secure_multi_tenant_saas.Secrets.{
  Cached, Vault, cache_ttl, is_fresh, GetSecretValue, remember, name_or_default, ask, get_secret,
  demo_secrets, decoded, value_or_empty,
}

module _ {S : Type 0} (loads : String → Option (Dict String)) (config : Config)
    (fetch : GetSecretValue S) where
  -- The entry is the value's, and younger than the time to live.
  abbrev pub Holds : ℕ → String → Dict String → Vault S → Type 0
  Holds now name value v =
      (c : Cached) × (get v.cache name ≡ some c)
      × (c.value ≡ value)
      × (is_fresh now (some c) ≡ true)

  abbrev pub Kept : ℕ → String → Result (Dict String) × Vault S → Type 0
  Kept now name (err e, v) = Unit
  Kept now name (ok value, v) = Holds now name value v

  remember-Kept :
      (now : ℕ) (name : String) (r : Result (Dict String)) (s : S) (v : Vault S)
      → Kept now name (remember loads config fetch now name r s v)
  remember-Kept now name (ok value) s v = (
    record { value = value; fetched_at = now },
    rw (get-put v.cache name _ name, eq_refl) refl,
    refl,
    ground arith,
  )
  remember-Kept now name (err e) s v = tt

  cached-Kept :
      (now : ℕ) (name : String) (o : Option Cached) (v : Vault S)
      → get v.cache name ≡ o
      → is_fresh now o ≡ true
      → Kept now name (ok (value_or_empty o), v)
  cached-Kept now name none v e h = cc
  cached-Kept now name (some c) v e h = (c, e, refl, h)

  ask-Kept :
      (now : ℕ) (name : String) (v : Vault S) → Kept now name (ask loads config fetch now name v)
  unfolding ask
  ask-Kept now name v = elim (Bool-cases (truthy (strip config.aws_region))) [
    | inl set ↦ rw set (
        remember-Kept now name
          (and_then (fetch (strip config.aws_region) name v.services).0 (decoded loads))
          (fetch (strip config.aws_region) name v.services).1 v)
    | inr unset ↦ rw unset tt
  ]

  -- Whatever `get_secret` answers is then in the cache under the secret's name, in an entry that is
  -- younger than 300 seconds.
  pub get_secret-Kept :
      (now : ℕ) (secret_name : Option String) (v : Vault S)
      → Kept now
          (name_or_default config secret_name)
          (get_secret loads config fetch now secret_name v)
  unfolding get_secret
  get_secret-Kept now secret_name v =
      let name = name_or_default config secret_name in
      elim (Bool-cases (truthy name)) [
        | inr blank ↦ rw blank tt
        | inl named ↦ elim (Bool-cases (is_fresh now (get v.cache name))) [
          | inl fresh ↦ rw (named, fresh) (cached-Kept now name (get v.cache name) v refl fresh)
          | inr stale ↦ elim (Bool-cases config.demo_mode) [
            | inl demo ↦
                rw (named, stale, demo) (remember-Kept now name (ok demo_secrets) v.services v)
            | inr live ↦ rw (named, stale, live) (ask-Kept now name v)
          ]
        ]
      ]

  get_secret-named :
      (now : ℕ) (secret_name : Option String) (v v' : Vault S) (value : Dict String)
      → get_secret loads config fetch now secret_name v ≡ (ok value, v')
      → truthy (name_or_default config secret_name) ≡ true
  unfolding get_secret
  get_secret-named now secret_name v v' value e =
      elim (Bool-cases (truthy (name_or_default config secret_name))) [
        | inl named ↦ named
        | inr blank ↦ cc (rw blank at e)
      ]

  get_secret-eq-cached :
      (now : ℕ) (secret_name : Option String) (v : Vault S) (c : Cached)
      → truthy (name_or_default config secret_name) ≡ true
      → get v.cache (name_or_default config secret_name) ≡ some c
      → is_fresh now (some c) ≡ true
      → get_secret loads config fetch now secret_name v ≡ (ok c.value, v)
  unfolding get_secret
  get_secret-eq-cached now secret_name v c named found fresh = rw (named, found, fresh) refl

  young-is_fresh :
      (later : ℕ) (c : Cached) → later < c.fetched_at + cache_ttl → is_fresh later (some c) ≡ true
  young-is_fresh later c young = ground arith

  -- Until the entry that an answer came from is 300 seconds old, every further call gives the same
  -- value, and neither asks Secrets Manager nor changes the cache.
  pub get_secret_cached :
      (now later : ℕ) (secret_name : Option String) (v v' : Vault S) (value : Dict String)
      (c : Cached)
      → get_secret loads config fetch now secret_name v ≡ (ok value, v')
      → get v'.cache (name_or_default config secret_name) ≡ some c
      → later < c.fetched_at + cache_ttl
      → get_secret loads config fetch later secret_name v' ≡ (ok value, v')
  get_secret_cached now later secret_name v v' value c e found young =
      let named = get_secret-named now secret_name v v' value e in
      let (d, kept, same, _) = rw e at (get_secret-Kept now secret_name v) in
      get_secret-eq-cached later secret_name v' c named found (young-is_fresh later c young)
      ∙ cc (found, kept, same)

remember-services :
    {S : Type 0} (loads : String → Option (Dict String)) (config : Config)
    (fetch : GetSecretValue S) (now : ℕ) (name : String) (r : Result (Dict String)) (s : S)
    (v : Vault S)
    → (remember loads config fetch now name r s v).1.services ≡ s
remember-services loads config fetch now name (ok value) s v = refl
remember-services loads config fetch now name (err e) s v = refl

-- The state of the service is left alone, or one secret has been asked for.
pub get_secret-services :
    {S : Type 0} (loads : String → Option (Dict String)) (config : Config)
    (fetch : GetSecretValue S) (now : ℕ) (secret_name : Option String) (v : Vault S)
    → let after = (get_secret loads config fetch now secret_name v).1.services in
      let name = name_or_default config secret_name in
      (after ≡ v.services) ⊎ (after ≡ (fetch (strip config.aws_region) name v.services).1)
unfolding get_secret ask
get_secret-services loads config fetch now secret_name v =
    let name = name_or_default config secret_name in
    let region = strip config.aws_region in
    let (raw, s) = fetch region name v.services in
    elim (Bool-cases (truthy name)) [
      | inr unnamed ↦ rw unnamed (inl refl)
      | inl named ↦ elim (Bool-cases (is_fresh now (get v.cache name))) [
        | inl fresh ↦ rw (named, fresh) (inl refl)
        | inr stale ↦ elim (Bool-cases config.demo_mode) [
          | inl demo ↦ rw (named, stale, demo) (inl refl)
          | inr live ↦ elim (Bool-cases (truthy region)) [
            | inl placed ↦
                rw (named, stale, live, placed)
                  (inr (
                    remember-services loads config fetch now name (and_then raw (decoded loads)) s
                      v))
            | inr nowhere ↦ rw (named, stale, live, nowhere) (inl refl)
          ]
        ]
      ]
    ]
