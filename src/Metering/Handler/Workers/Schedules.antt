-- ===== src/Metering/Handler/Workers/Schedules.antt =====
-- handler.py: whatever the order in which several workers make their calls, each event counts once.
use secure_multi_tenant_saas.Prelude.{
  ℕ, zero, suc, String, ◌≡◌, refl, sym, ap, ◌∙◌, Option, List, [], ◌∷◌,
}
use secure_multi_tenant_saas.Metering.Json.{Json}
use secure_multi_tenant_saas.Metering.Store.{Total, Ops, Dynamo}
use secure_multi_tenant_saas.Metering.Handler.{month_key}
use secure_multi_tenant_saas.Metering.Handler.Rollup.{IsReliable, IsConsistent, rollup}
use secure_multi_tenant_saas.Metering.Handler.Workers.{
  Worker, ready, adding, advance_at, interleave,
}
use secure_multi_tenant_saas.Metering.Handler.Workers.Owed.{
  Commutes, owed_by, owed, owed_by-Commutes, owed-Commutes, owed-owed_by,
}
use secure_multi_tenant_saas.Metering.Handler.Workers.Counted.{
  AreRead, advance-IsRead, advance-Balanced,
}

-- No worker stands between a PutItem and its update.
abbrev pub AreReady : List Worker → Type 0
AreReady [] = Unit
AreReady (ready failures messages ∷ workers) = AreReady workers
AreReady (adding failures item month id messages ∷ workers) = ⊥

owed-eq_of_AreReady :
    (month_of : String → Option String) (pk month : String) (workers : List Worker)
    (t : Option Total)
    → AreReady workers
    → owed month_of pk month workers t ≡ t
owed-eq_of_AreReady month_of pk month [] t h = refl
owed-eq_of_AreReady month_of pk month (ready failures messages ∷ workers) t h =
    owed-eq_of_AreReady month_of pk month workers t h
owed-eq_of_AreReady month_of pk month (adding failures item m id messages ∷ workers) t h = absurd h

AreReady-AreRead :
    (month_of : String → Option String) (workers : List Worker)
    → AreReady workers
    → AreRead month_of workers
AreReady-AreRead month_of [] h = tt
AreReady-AreRead month_of (ready failures messages ∷ workers) h =
    (tt, AreReady-AreRead month_of workers h)
AreReady-AreRead month_of (adding failures item m id messages ∷ workers) h = absurd h

module _ {S : Type 0} {ops : Ops S} (D : Dynamo ops) (reliable : IsReliable D)
    (month_of : String → Option String) (str_of : Json → String) (now : String) where
  advance_at-AreRead :
      (i : ℕ) (workers : List Worker) (s : S)
      → AreRead month_of workers
      → AreRead month_of (advance_at month_of str_of now ops i workers s).0
  unfolding advance_at
  advance_at-AreRead i [] s h = tt
  advance_at-AreRead zero (w ∷ workers) s h = (advance-IsRead month_of str_of now ops w s h.0, h.1)
  advance_at-AreRead (suc i) (w ∷ workers) s h = (h.0, advance_at-AreRead i workers s h.1)

  -- The workers' part in a larger accounting `g`.
  abbrev AreBalanced :
      (pk month : String) → (Option Total → Option Total) → List Worker → S → Type 0
  AreBalanced pk month g workers s =
      g (owed month_of pk month workers (D.total s pk (month_key month)))
      ≡ rollup month_of pk month (D.ledger s)

  advance_at-AreBalanced :
      (pk month : String) (i : ℕ) (workers : List Worker) (s : S) (g : Option Total → Option Total)
      → Commutes g
      → AreRead month_of workers
      → AreBalanced pk month g workers s
      → let o = advance_at month_of str_of now ops i workers s in AreBalanced pk month g o.0 o.1
  unfolding advance_at
  advance_at-AreBalanced pk month i [] s g c h b = b
  advance_at-AreBalanced pk month zero (w ∷ workers) s g c h b =
      advance-Balanced D reliable month_of str_of now pk month
        (λ t. g (owed month_of pk month workers t))
        (λ u t. ap g (owed-Commutes month_of pk month workers u t) ∙ c u _) w s h.0 b
  advance_at-AreBalanced pk month (suc i) (w ∷ workers) s g c h b =
      let (workers', s') = advance_at month_of str_of now ops i workers s in
      ap g (owed-owed_by month_of pk month workers' w (D.total s' pk (month_key month)))
      ∙ advance_at-AreBalanced pk month i workers s (λ t. g (owed_by month_of pk month w t))
          (λ u t. ap g (owed_by-Commutes month_of pk month w u t) ∙ c u _) h.1
          (ap g (sym (owed-owed_by month_of pk month workers w (D.total s pk (month_key month))))
            ∙ b)

  interleave-AreBalanced :
      (pk month : String) (schedule : List ℕ) (workers : List Worker) (s : S)
      → AreRead month_of workers
      → AreBalanced pk month (λ t. t) workers s
      → let o = interleave month_of str_of now ops schedule workers s in
        AreBalanced pk month (λ t. t) o.0 o.1
  unfolding interleave
  interleave-AreBalanced pk month [] workers s h b = b
  interleave-AreBalanced pk month (i ∷ schedule) workers s h b =
      interleave-AreBalanced pk month schedule _ _ (advance_at-AreRead i workers s h)
        (advance_at-AreBalanced pk month i workers s (λ t. t) (λ u t. refl) h b)

  -- In whatever order several workers make their calls, at every moment the aggregate, with the
  -- usage that the workers have stored and not yet added, is what the ledger adds up to, for every
  -- tenant and month; so it is itself what the ledger adds up to whenever no worker stands between
  -- the two calls. No update fails, a failed PutItem has not been applied, and the workers start
  -- between two messages on a consistent aggregate.
  pub interleave-IsCounted :
      (schedule : List ℕ) (workers : List Worker) (s : S)
      → AreReady workers
      → IsConsistent D month_of s
      → let (workers', s') = interleave month_of str_of now ops schedule workers s in
        ((pk month : String)
          → owed month_of pk month workers' (D.total s' pk (month_key month))
            ≡ rollup month_of pk month (D.ledger s'))
        × (AreReady workers' → IsConsistent D month_of s')
  interleave-IsCounted schedule workers s h c =
      let (workers', s') = interleave month_of str_of now ops schedule workers s in
      let balanced = λ (pk month : String).
        interleave-AreBalanced pk month schedule workers s (AreReady-AreRead month_of workers h)
          (owed-eq_of_AreReady month_of pk month workers _ h ∙ c pk month) in
      (
        balanced,
        λ done pk month.
            sym (owed-eq_of_AreReady month_of pk month workers' _ done) ∙ balanced pk month,
      )
