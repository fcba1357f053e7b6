-- ===== src/Metering/Handler/Workers.antt =====
-- handler.py, run by several invocations at once: `handler` as a machine that makes one call of
-- DynamoDB at a time, and schedules of such machines.
pub mod Alone
pub mod Owed
pub mod Counted
pub mod Schedules
pub mod Unique
use secure_multi_tenant_saas.Prelude.{ℕ, zero, suc, String, Option, List, [], ◌∷◌, ◌++◌}
use secure_multi_tenant_saas.Prelude.Dict.{Dict}
use secure_multi_tenant_saas.Prelude.Exec.{Error, Result, ok, err}
use secure_multi_tenant_saas.Metering.Json.{Json, Body, object, other_value, malformed}
use secure_multi_tenant_saas.Metering.Store.{UsageItem, PutReply, done, duplicate, failed, Ops}
use secure_multi_tenant_saas.Metering.Handler.{
  Message, accept_event, add_to_aggregate, report_message,
}

-- Where an invocation stands, with its failures so far and the messages that are left: between two
-- messages, or between the PutItem of one and the update of the aggregate.
pub data Worker : Type 0 where
  ready : List String → List Message → Worker
  adding : List String → UsageItem → String → String → List Message → Worker

module _ (month_of : String → Option String) (str_of : Json → String) (now : String) {S : Type 0}
    (ops : Ops S) where
  -- What a worker does when `put_item` has answered.
  after_reply : List String → UsageItem → String → String → List Message → PutReply → Worker
  after_reply failures item month id messages done = adding failures item month id messages
  after_reply failures item month id messages duplicate = ready failures messages
  after_reply failures item month id messages (failed e) = ready (failures ++ id ∷ []) messages

  put_event : List String → String → List Message → Result (UsageItem × String) → S → Worker × S
  unfolding after_reply
  put_event failures id messages (ok (item, month)) s =
      let (r, s') = ops.put_item item s in (after_reply failures item month id messages r, s')
  put_event failures id messages (err e) s = (ready (failures ++ id ∷ []) messages, s)

  -- Up to the next call of DynamoDB.
  pub begin : List String → String → List Message → Body → S → Worker × S
  unfolding put_event
  begin failures id messages (object event) =
      put_event failures id messages (accept_event month_of str_of now event)
  begin failures id messages other_value = λ s. (ready (failures ++ id ∷ []) messages, s)
  begin failures id messages malformed = λ s. (ready (failures ++ id ∷ []) messages, s)

  pub advance : Worker → S → Worker × S
  unfolding begin
  advance (ready failures []) s = (ready failures [], s)
  advance (ready failures (m ∷ messages)) s = begin failures m.message_id messages m.body s
  advance (adding failures item month id messages) s =
      let (r, s') = add_to_aggregate month_of str_of now ops item month s in
      (ready (failures ++ report_message month_of str_of now ops r id []) messages, s')

  -- The worker at a place makes its next call.
  pub advance_at : ℕ → List Worker → S → List Worker × S
  advance_at i [] s = ([], s)
  advance_at zero (w ∷ workers) s = let (w', s') = advance w s in (w' ∷ workers, s')
  advance_at (suc i) (w ∷ workers) s =
      let (workers', s') = advance_at i workers s in (w ∷ workers', s')

  -- The calls of all workers, in the order of a schedule.
  unfoldable pub interleave : List ℕ → List Worker → S → List Worker × S
  interleave [] workers s = (workers, s)
  interleave (i ∷ schedule) workers s =
      let (workers', s') = advance_at i workers s in interleave schedule workers' s'
