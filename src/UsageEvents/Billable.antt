-- ===== src/UsageEvents/Billable.antt =====
-- usage_service.py: which requests are billed, to whom, and how often.
use secure_multi_tenant_saas.Prelude.{
  ℕ, ◌≤◌, ◌<◌, ◌≡◌, refl, ◌⊎◌, inl, inr, true, false, Option, none, some, [], ◌∷◌, ◌++◌, arith,
  Bool-cases, truthy, not, ◌&&◌, ◌||◌, leb, ltb,
}
use secure_multi_tenant_saas.Prelude.Exec.{Error}
use secure_multi_tenant_saas.Config.{Config}
use secure_multi_tenant_saas.Web.{Identity, Request, Response, status_code}
use secure_multi_tenant_saas.UsageEvents.{
  UsageEvent, Outbox, Telemetry, is_billable_status, enqueue, publish, build_usage_event,
  meter_usage,
}

-- A request that is billed, with the event for it.
pub record IsBilled (config : Config) (t : Telemetry) (request : Request)
    (identity : Option Identity) (status : ℕ) (event : UsageEvent) : Type 0 where
  pub maker : Identity
  pub signed_in : identity ≡ some maker
  pub at_least : 200 ≤ status
  pub below : status < 400
  pub tenant : event.tenant_id ≡ maker.tenant
  pub path : event.api_path ≡ request.path
  pub method : event.http_method ≡ request.method
  pub status_kept : event.status_code ≡ status
  pub one_unit : event.usage_units ≡ 1

abbrev Sends : Outbox → UsageEvent → Outbox → Type 0
Sends o event o' =
    (o' ≡ record o { queue = o.queue ++ event ∷ [] })
    ⊎ (o' ≡ record o { demo_events = o.demo_events ++ event ∷ [] })

publish-Sends :
    (config : Config) (t : Telemetry) (event : UsageEvent) (o : Outbox)
    → (publish config t event o ≡ o) ⊎ Sends o event (publish config t event o)
unfolding publish
publish-Sends config t event o =
    elim (Bool-cases (config.demo_mode || not config.usage_metering_enabled)) [
      | inl demo ↦ rw demo (inr (inr refl))
      | inr live ↦ elim (Bool-cases (truthy config.usage_events_queue_url)) [
        | inl set ↦ rw (live, set) (sent (t.send event))
        | inr unset ↦ rw (live, unset) (inl refl)
      ]
    ]
  where
    sent : (r : Option Error) → (enqueue r event o ≡ o) ⊎ Sends o event (enqueue r event o)
    sent none = inr (inl refl)
    sent (some e) = inl refl

billable_range : (status : ℕ) → is_billable_status status ≡ true → (200 ≤ status) × (status < 400)
unfolding is_billable_status
billable_range status h = ground arith

-- After a response nothing is sent or kept, or one event is put into the queue or among the events
-- of demo mode. In that case the request is signed in and its status is at least 200 and below 400,
-- and the event names the tenant of the identity, the request and one unit.
pub meter_usage_bills :
    {V : Type 0} (config : Config) (t : Telemetry) (request : Request) (identity : Option Identity)
    (response : Response V) (o : Outbox)
    → let o' = meter_usage config t request identity response o in
      (o' ≡ o)
      ⊎ ((event : UsageEvent) × IsBilled config t request identity (status_code response) event
          × ((o' ≡ record o { queue = o.queue ++ event ∷ [] })
              ⊎ (o' ≡ record o { demo_events = o.demo_events ++ event ∷ [] })))
unfolding meter_usage build_usage_event
meter_usage_bills config t request none response o = inl refl
meter_usage_bills config t request (some i) response o =
    elim (Bool-cases (not config.usage_metering_enabled && not config.demo_mode)) [
      | inl off ↦ rw off (inl refl)
      | inr on ↦ elim (Bool-cases (is_billable_status (status_code response))) [
        | inl billable ↦ rw (on, billable) (go billable (publish-Sends config t event o))
        | inr unbilled ↦ rw (on, unbilled) (inl refl)
      ]
    ]
  where
    event : UsageEvent
    event = build_usage_event t i request.method request.path (status_code response) 1

    go :
        is_billable_status (status_code response) ≡ true
        → (publish config t event o ≡ o) ⊎ Sends o event (publish config t event o)
        → (publish config t event o ≡ o)
          ⊎ ((e : UsageEvent) × IsBilled config t request (some i) (status_code response) e
              × Sends o e (publish config t event o))
    go b (inl kept) = inl kept
    go b (inr sent) = inr (
      event,
      record {
        maker = i;
        signed_in = refl;
        at_least = (billable_range _ b).0;
        below = (billable_range _ b).1;
        tenant = refl;
        path = refl;
        method = refl;
        status_kept = refl;
        one_unit = refl;
      },
      sent,
    )

in_range : (n : ℕ) → 200 ≤ n → n < 400 → (leb 200 n && ltb n 400) ≡ true
in_range n h k = ground arith

-- With metering on and the queue set up, outside demo mode, a signed-in request whose status is at
-- least 200 and below 400 puts just its event into the queue, if the queue takes it; if the queue
-- raises an exception, nothing is kept.
pub meter_usage_sends :
    {V : Type 0} (config : Config) (t : Telemetry) (request : Request) (i : Identity)
    (response : Response V) (o : Outbox)
    → config.usage_metering_enabled ≡ true
    → config.demo_mode ≡ false
    → truthy config.usage_events_queue_url ≡ true
    → 200 ≤ status_code response
    → status_code response < 400
    → let event = build_usage_event t i request.method request.path (status_code response) 1 in
      let o' = meter_usage config t request (some i) response o in
      (t.send event ≡ none → o' ≡ record o { queue = o.queue ++ event ∷ [] })
      × ((e : Error) → t.send event ≡ some e → o' ≡ o)
unfolding meter_usage is_billable_status publish enqueue
meter_usage_sends config t request i response o on live set lo hi =
    let b = in_range (status_code response) lo hi in
    ((λ sent. rw (on, live, b, set, sent)), (λ e failed. rw (on, live, b, set, failed)))
