-- ===== src/Tests/Workers.antt =====
-- Tests of handler.py run by two workers at once, on two tables in memory.
use secure_multi_tenant_saas.Prelude.{ℕ, String, ◌≡◌, true, false, List, [], ◌∷◌}
use secure_multi_tenant_saas.Metering.Handler.{month_key}
use secure_multi_tenant_saas.Metering.Handler.Rollup.{IsConsistent, rollup}
use secure_multi_tenant_saas.Metering.Handler.Once.{HasUniqueItems}
use secure_multi_tenant_saas.Metering.Handler.Workers.{Worker, ready, interleave}
use secure_multi_tenant_saas.Metering.Handler.Workers.Owed.{owed}
use secure_multi_tenant_saas.Metering.Handler.Workers.Schedules.{AreReady, interleave-IsCounted}
use secure_multi_tenant_saas.Metering.Handler.Workers.Unique.{interleave-HasUniqueItems}
use secure_multi_tenant_saas.Tests.Metering.{
  Memory, empty, tables, tables-Dynamo, working, january, shown, now, batch, consistent,
}

-- Two workers that are given the same batch, and make their first calls in turn.
abbrev pair : List Worker
pair = ready [] batch ∷ ready [] batch ∷ []

abbrev turns : List ℕ
turns = 0 ∷ 1 ∷ 0 ∷ 1 ∷ 1 ∷ []

abbrev after : List Worker × Memory
after = interleave january shown now (tables false) turns pair empty

interleave-IsCounted_example :
    ((pk month : String)
      → owed january pk month after.0 (after.1.totals pk (month_key month))
        ≡ rollup january pk month after.1.items)
    × (AreReady after.0 → IsConsistent (tables-Dynamo false) january after.1)
interleave-IsCounted_example =
    interleave-IsCounted (tables-Dynamo false) working january shown now turns pair empty tt
      (consistent false)

interleave-HasUniqueItems_example :
    HasUniqueItems (interleave january shown now (tables true) turns pair empty).1.items
interleave-HasUniqueItems_example =
    interleave-HasUniqueItems (tables-Dynamo true) january shown now turns pair empty tt
