-- ===== src/Metering/Handler/Workers/Unique.antt =====
-- handler.py: several workers, and the keys of the ledger.
use secure_multi_tenant_saas.Prelude.{
  ℕ, zero, suc, String, ◌≡◌, refl, inl, inr, Option, List, [], ◌∷◌,
}
use secure_multi_tenant_saas.Prelude.Exec.{Result, ok, err}
use secure_multi_tenant_saas.Metering.Json.{Json, Body, object, other_value, malformed}
use secure_multi_tenant_saas.Metering.Store.{
  UsageItem, PutReply, done, duplicate, failed, Ops, Dynamo,
}
use secure_multi_tenant_saas.Metering.Handler.{Message, accept_event}
use secure_multi_tenant_saas.Metering.Handler.Once.{
  HasUniqueItems, Appends, Appends-HasUniqueItems, ledger-add_to_aggregate,
}
use secure_multi_tenant_saas.Metering.Handler.Workers.{
  Worker, ready, adding, put_event, begin, advance, advance_at, interleave,
}

module _ {S : Type 0} {ops : Ops S} (D : Dynamo ops) (month_of : String → Option String)
    (str_of : Json → String) (now : String) where
  put_item-Appends :
      (item : UsageItem) (s : S) (o : PutReply × S)
      → ops.put_item item s ≡ o
      → Appends D month_of str_of now s o.1
  put_item-Appends item s (done, s') e =
      let (fresh, l, _) = D.put_done item s s' e in inr (item, fresh, l)
  put_item-Appends item s (duplicate, s') e = inl (D.put_duplicate item s s' e).1
  put_item-Appends item s (failed x, s') e = elim (D.put_failed item x s s' e).1 [
    | inl same ↦ inl same
    | inr (fresh, l) ↦ inr (item, fresh, l)
  ]

  begin-Appends :
      (failures : List String) (id : String) (messages : List Message) (body : Body) (s : S)
      → Appends D month_of str_of now s
          (begin month_of str_of now ops failures id messages body s).1
  unfolding begin put_event
  begin-Appends failures id messages (object event) s = go (accept_event month_of str_of now event)
    where
      go :
          (r : Result (UsageItem × String))
          → Appends D month_of str_of now s
              (put_event month_of str_of now ops failures id messages r s).1
      go (ok (item, m)) = put_item-Appends item s _ refl
      go (err x) = inl refl
  begin-Appends failures id messages other_value s = inl refl
  begin-Appends failures id messages malformed s = inl refl

  advance-Appends :
      (w : Worker) (s : S) → Appends D month_of str_of now s (advance month_of str_of now ops w s).1
  unfolding advance
  advance-Appends (ready failures []) s = inl refl
  advance-Appends (ready failures (m ∷ messages)) s =
      begin-Appends failures m.message_id messages m.body s
  advance-Appends (adding failures item m id messages) s =
      inl (ledger-add_to_aggregate D month_of str_of now item m s)

  advance_at-Appends :
      (i : ℕ) (workers : List Worker) (s : S)
      → Appends D month_of str_of now s (advance_at month_of str_of now ops i workers s).1
  unfolding advance_at
  advance_at-Appends i [] s = inl refl
  advance_at-Appends zero (w ∷ workers) s = advance-Appends w s
  advance_at-Appends (suc i) (w ∷ workers) s = advance_at-Appends i workers s

  -- However many workers handle messages at once, in whatever order they make their calls, however
  -- the calls fail, and whatever is delivered how often, to one worker or to several, no key stands
  -- twice in the ledger.
  pub interleave-HasUniqueItems :
      (schedule : List ℕ) (workers : List Worker) (s : S)
      → HasUniqueItems (D.ledger s)
      → HasUniqueItems (D.ledger (interleave month_of str_of now ops schedule workers s).1)
  unfolding interleave
  interleave-HasUniqueItems [] workers s h = h
  interleave-HasUniqueItems (i ∷ schedule) workers s h =
      interleave-HasUniqueItems schedule _ _
        (Appends-HasUniqueItems D month_of str_of now s _ (advance_at-Appends i workers s) h)
