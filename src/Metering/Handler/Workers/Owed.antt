-- ===== src/Metering/Handler/Workers/Owed.antt =====
-- handler.py: the usage that workers have stored and not yet added to the aggregate.
use secure_multi_tenant_saas.Prelude.{
  String, ◌≡◌, refl, ap, ◌∙◌, Option, none, some, List, [], ◌∷◌, Bool-cases, inl, inr,
  if◌then◌else◌,
}
use secure_multi_tenant_saas.Prelude.Int.{ℤ, +ℤ_comm, +ℤ_right_comm}
use secure_multi_tenant_saas.Metering.Store.{Total, add_usage}
use secure_multi_tenant_saas.Metering.Handler.Rollup.{belongs}
use secure_multi_tenant_saas.Metering.Handler.Workers.{Worker, ready, adding}

-- The order in which usage is added does not matter.
add_usage_comm :
    (u v : ℤ) (t : Option Total)
    → add_usage u (some (add_usage v t)) ≡ add_usage v (some (add_usage u t))
add_usage_comm u v none = rw (+ℤ_comm u v) refl
add_usage_comm u v (some t) = rw (+ℤ_right_comm t.usage_units v u) refl

-- An accounting that adds usage before or after.
abbrev pub Commutes : (Option Total → Option Total) → Type 0
Commutes g = (u : ℤ) (t : Option Total) → g (some (add_usage u t)) ≡ some (add_usage u (g t))

module _ (month_of : String → Option String) (pk month : String) where
  -- What a worker has stored and not yet added for a tenant and a month.
  abbrev pub owed_by : Worker → Option Total → Option Total
  owed_by (ready failures messages) t = t
  owed_by (adding failures item m id messages) t =
      if belongs month_of pk month item then some (add_usage item.usage_units t) else t

  abbrev pub owed : List Worker → Option Total → Option Total
  owed [] t = t
  owed (w ∷ workers) t = owed workers (owed_by w t)

  pub owed_by-Commutes : (w : Worker) → Commutes (owed_by w)
  owed_by-Commutes (ready failures messages) u t = refl
  owed_by-Commutes (adding failures item m id messages) u t =
      elim (Bool-cases (belongs month_of pk month item)) [
        | inl own ↦ rw own (ap some (add_usage_comm item.usage_units u t))
        | inr other ↦ rw other refl
      ]

  pub owed-Commutes : (workers : List Worker) → Commutes (owed workers)
  owed-Commutes [] u t = refl
  owed-Commutes (w ∷ workers) u t =
      ap (owed workers) (owed_by-Commutes w u t) ∙ owed-Commutes workers u (owed_by w t)

  pub owed-owed_by :
      (workers : List Worker) (w : Worker) (t : Option Total)
      → owed workers (owed_by w t) ≡ owed_by w (owed workers t)
  owed-owed_by workers (ready failures messages) t = refl
  owed-owed_by workers (adding failures item m id messages) t =
      elim (Bool-cases (belongs month_of pk month item)) [
        | inl own ↦ rw own (owed-Commutes workers item.usage_units t)
        | inr other ↦ rw other refl
      ]
