-- ===== src/App/Key.antt =====
-- app.py: the key that signs the cookies of sessions.
use secure_multi_tenant_saas.Prelude.{
  ℕ, String, ◌≡◌, refl, ◌∙◌, sym, ap, inl, inr, true, false, Option, none, some, Bool-cases, truthy,
  truthy?, arith,
}
use secure_multi_tenant_saas.Prelude.Dict.{Dict}
use secure_multi_tenant_saas.Prelude.Exec.{Result, ok, err, continue, continue-eq-ok, handle_result}
use secure_multi_tenant_saas.Config.{Config}
use secure_multi_tenant_saas.Secrets.{Vault, GetSecretValue, get_secret}
use secure_multi_tenant_saas.App.{
  RuntimeSecrets, configured_key, choose_key, load_runtime_secrets, every, or_no_bundle,
}

module _ {S : Type 0} (loads : String → Option (Dict String)) (config : Config)
    (fetch : GetSecretValue S) (now : ℕ) (environ : Dict String) (v : Vault S) where
  -- Outside demo mode an exception of Secrets Manager goes on.
  handled :
      (r : Result (Dict String)) (v' : Vault S)
      → config.demo_mode ≡ false
      → handle_result
          (every loads config fetch now environ "")
          (or_no_bundle loads config fetch now environ "")
          r
          v'
        ≡ (r, v')
  handled (ok bundle) v' live = refl
  handled (err e) v' live = rw live refl

  load-choose :
      config.demo_mode ≡ false
      → (token : String)
      → let (r, v') = get_secret loads config fetch now none v in
        load_runtime_secrets loads config fetch now environ token v
        ≡ continue r (choose_key loads config fetch now environ token) v'
  unfolding load_runtime_secrets
  load-choose live token =
      let (r, v') = get_secret loads config fetch now none v in
      ap
        (λ (out : Result (Dict String) × Vault S).
          continue out.0 (choose_key loads config fetch now environ token) out.1)
        (handled r v' live)

  choose_key-ok :
      (token : String) (bundle : Dict String) (v' : Vault S) (runtime : RuntimeSecrets)
      → config.demo_mode ≡ false
      → (choose_key loads config fetch now environ token bundle v').0 ≡ ok runtime
      → (configured_key bundle environ ≡ some runtime.secret_key)
        × (truthy runtime.secret_key ≡ true)
        × ((token' : String)
            → choose_key loads config fetch now environ token' bundle v'
              ≡ choose_key loads config fetch now environ token bundle v')
  choose_key-ok token bundle v' runtime live h =
      elim (Bool-cases (truthy? (configured_key bundle environ))) [
        | inl given ↦ (ground arith, ground arith, λ token'. rw given refl)
        | inr missing ↦ (ground arith, ground arith, λ token'. rw (missing, live) refl)
      ]

  -- Outside demo mode the start either fails, or the key is the one that Secrets Manager's bundle or
  -- the environment holds and is not empty: whatever random text a task draws, it signs with the same
  -- key as the others, and the bundle has been fetched without an exception.
  pub secret_key-shared :
      (token : String) (runtime : RuntimeSecrets)
      → config.demo_mode ≡ false
      → (load_runtime_secrets loads config fetch now environ token v).0 ≡ ok runtime
      → (bundle : Dict String) × ((get_secret loads config fetch now none v).0 ≡ ok bundle)
        × (configured_key bundle environ ≡ some runtime.secret_key)
        × (truthy runtime.secret_key ≡ true)
        × ((token' : String)
            → load_runtime_secrets loads config fetch now environ token' v
              ≡ load_runtime_secrets loads config fetch now environ token v)
  unfolding load_runtime_secrets
  secret_key-shared token runtime live h =
      let (r, v') = get_secret loads config fetch now none v in
      let (bundle, fetched, chosen) =
        continue-eq-ok r (choose_key loads config fetch now environ token) v'
          (rw⁻¹ (load-choose live token) h) in
      let (found, full, others) = choose_key-ok token bundle v' runtime live chosen in
      let step : (token' : String)
          → continue r (choose_key loads config fetch now environ token') v'
            ≡ continue r (choose_key loads config fetch now environ token) v' =
        λ token'. rw fetched (others token') in
      (
        bundle,
        fetched,
        found,
        full,
        λ token'. load-choose live token' ∙ step token' ∙ sym (load-choose live token),
      )
