-- ===== src/Metering/Handler/Workers/Alone.antt =====
-- handler.py: one worker on its own does what `handler` does.
use secure_multi_tenant_saas.Prelude.{
  ℕ, zero, suc, ◌*◌, ◌≤◌, String, ◌≡◌, refl, ◌∙◌, ap, Option, List, [], ◌∷◌, ◌++◌, length,
  append-nil, append_assoc, sym, arith,
}
use secure_multi_tenant_saas.Prelude.Exec.{Result, ok, err, continue, type_error, value_error}
use secure_multi_tenant_saas.Metering.Json.{Json, Body, object, other_value, malformed}
use secure_multi_tenant_saas.Metering.Store.{UsageItem, PutReply, done, duplicate, failed, Ops}
use secure_multi_tenant_saas.Metering.Handler.{
  Message, accept_event, after_put, store_event, process_event, process_body, add_to_aggregate,
  report_message, handler,
}
use secure_multi_tenant_saas.Metering.Handler.Workers.{
  Worker, ready, after_reply, put_event, begin, advance, advance_at, interleave,
}

-- A schedule of a number of calls of the first worker.
abbrev pub solo : ℕ → List ℕ
solo zero = []
solo (suc n) = 0 ∷ solo n

module _ (month_of : String → Option String) (str_of : Json → String) (now : String) {S : Type 0}
    (ops : Ops S) where
  solo-idle :
      (n : ℕ) (failures : List String) (s : S)
      → interleave month_of str_of now ops (solo n) (ready failures [] ∷ []) s
        ≡ (ready failures [] ∷ [], s)
  unfolding interleave advance_at advance
  solo-idle zero failures s = refl
  solo-idle (suc n) failures s = solo-idle n failures s

  -- What `handler` comes to, when a message has been processed and others are left.
  abbrev outcome : List String → String → List Message → Result (Unit {0}) × S → List Worker × S
  outcome failures id messages (r, s) =
      let (new, s') = handler month_of str_of now ops messages s in
      (ready (failures ++ report_message month_of str_of now ops r id new) [] ∷ [], s')

  append-report_message :
      (failures new : List String) (r : Result (Unit {0})) (id : String)
      → (failures ++ report_message month_of str_of now ops r id []) ++ new
        ≡ failures ++ report_message month_of str_of now ops r id new
  append-report_message failures new (ok u) id = ap (λ fs. fs ++ new) (append-nil failures)
  append-report_message failures new (err e) id = append_assoc failures (id ∷ []) new

  -- The messages that are left are handled when there are two calls for each.
  abbrev Handles : List Message → Type 0
  Handles messages =
      (n : ℕ) (failures : List String) (s : S)
      → 2 * length messages ≤ n
      → interleave month_of str_of now ops (solo n) (ready failures messages ∷ []) s
        ≡ outcome failures "" messages (ok tt, s)

  module _ (messages : List Message) (handles : Handles messages) (failures : List String)
      (id : String) where
    handles_on :
        (n : ℕ) (r : Result (Unit {0})) (s : S)
        → 2 * length messages ≤ n
        → interleave month_of str_of now ops
            (solo n)
            (ready (failures ++ report_message month_of str_of now ops r id []) messages ∷ [])
            s
          ≡ outcome failures id messages (r, s)
    handles_on n r s h =
        handles n (failures ++ report_message month_of str_of now ops r id []) s h
        ∙ ap (λ fs. (ready fs [] ∷ [], (handler month_of str_of now ops messages s).1))
            (append-report_message failures _ r id)

    after_reply-outcome :
        (n : ℕ) (item : UsageItem) (m : String) (o : PutReply × S)
        → 2 * length messages ≤ n
        → interleave month_of str_of now ops
            (solo (suc n))
            (after_reply month_of str_of now ops failures item m id messages o.0 ∷ [])
            o.1
          ≡ outcome failures id messages (after_put month_of str_of now ops item m o.0 o.1)
    unfolding interleave advance_at advance after_reply after_put
    after_reply-outcome n item m (done, s) h =
        let (r, s') = add_to_aggregate month_of str_of now ops item m s in handles_on n r s' h
    after_reply-outcome n item m (duplicate, s) h = handles (suc n) failures s (omega (arith))
    after_reply-outcome n item m (failed e, s) h = handles_on (suc n) (err e) s (omega arith)

    begin-outcome :
        (n : ℕ) (body : Body) (s : S)
        → 2 * length messages ≤ n
        → let (w, s') = begin month_of str_of now ops failures id messages body s in
          interleave month_of str_of now ops (solo (suc n)) (w ∷ []) s'
          ≡ outcome failures id messages (process_body month_of str_of now ops body s)
    unfolding begin put_event process_body process_event store_event
    begin-outcome n (object event) s h = go (accept_event month_of str_of now event)
      where
        go :
            (r : Result (UsageItem × String))
            → let (w, s') = put_event month_of str_of now ops failures id messages r s in
              interleave month_of str_of now ops (solo (suc n)) (w ∷ []) s'
              ≡ outcome failures id messages (continue r (store_event month_of str_of now ops) s)
        go (ok (item, m)) = after_reply-outcome n item m (ops.put_item item s) h
        go (err e) = handles_on (suc n) (err e) s (omega arith)
    begin-outcome n other_value s h = handles_on (suc n) (err type_error) s (omega arith)
    begin-outcome n malformed s h = handles_on (suc n) (err value_error) s (omega arith)

  interleave-Handles : (messages : List Message) → Handles messages
  unfolding interleave advance_at advance handler
  interleave-Handles [] n failures s h =
      solo-idle n failures s ∙ ap (λ fs. (ready fs [] ∷ [], s)) (sym (append-nil failures))
  interleave-Handles (m ∷ messages) zero failures s h = absurd (omega arith)
  interleave-Handles (m ∷ messages) (suc zero) failures s h = absurd (omega arith)
  interleave-Handles (m ∷ messages) (suc (suc n)) failures s h =
      begin-outcome messages (interleave-Handles messages) failures m.message_id n m.body s
        (omega arith)

  -- One worker on its own, given two calls for each message or more, ends as `handler` does: with
  -- the same failures, in the same order, and with the tables in the same state.
  pub interleave-eq-handler :
      (messages : List Message) (n : ℕ) (s : S)
      → 2 * length messages ≤ n
      → interleave month_of str_of now ops (solo n) (ready [] messages ∷ []) s ≡ (
        ready (handler month_of str_of now ops messages s).0 [] ∷ [],
        (handler month_of str_of now ops messages s).1,
      )
  interleave-eq-handler messages n s h = interleave-Handles messages n [] s h
