-- ===== src/Metering/Store.antt =====
-- The two DynamoDB tables of handler.py. What the service does is a parameter: `Ops` is what the
-- code calls, and `Dynamo` what it relies on, in terms of the items that the tables hold. `S` is
-- the state of the service, together with all that it will answer.
use secure_multi_tenant_saas.Prelude.{
  ℕ, ◌+◌, String, ◌≡◌, ◌⊎◌, Bool, true, false, Option, none, some, List, ◌∷◌, ◌&&◌, ◌==◌, any_of,
  if◌then◌else◌,
}
use secure_multi_tenant_saas.Prelude.Int.{ℤ, ◌+ℤ◌}
use secure_multi_tenant_saas.Prelude.Exec.{Error}
use secure_multi_tenant_saas.Metering.Json.{Json}

-- An item of USAGE_LEDGER_TABLE.
pub record UsageItem : Type 0 where
  pub pk : String
  pub sk : String
  pub event_id : Json
  pub tenant_id : String
  pub user_id : Json
  pub api_path : Json
  pub http_method : Json
  pub status_code : Json
  pub usage_units : ℤ
  pub event_timestamp : String
  pub ingested_at : String

-- The numbers of an item of USAGE_AGGREGATE_TABLE.
pub record Total : Type 0 where
  pub request_count : ℕ
  pub usage_units : ℤ

-- What a conditional PutItem answers: `duplicate` is `ConditionalCheckFailedException`.
pub data PutReply : Type 0 where
  done duplicate : PutReply
  failed : Error → PutReply

-- `put_item` has the condition that no item with the key exists. `update_item` takes the key, the
-- units to add, and the attributes to set; an exception is `some`.
pub record Ops (S : Type 0) : Type 0 where
  pub put_item : UsageItem → S → PutReply × S
  pub update_item :
      (pk sk : String) (units : ℤ) (now tenant_id month : String) → S → Option Error × S

abbrev pub has_key : String → String → UsageItem → Bool
has_key pk sk item = item.pk == pk && item.sk == sk

-- `ADD request_count :one, usage_units :units`
abbrev pub add_usage : ℤ → Option Total → Total
add_usage units none = record { request_count = 1; usage_units = units }
add_usage units (some t) = record {
  request_count = t.request_count + 1;
  usage_units = t.usage_units +ℤ units;
}

-- What the documentation of DynamoDB says of these calls. A call that raises may have been applied
-- or not.
pub record Dynamo {S : Type 0} (ops : Ops S) : Type 0 where
  pub ledger : S → List UsageItem
  pub total : S → String → String → Option Total
  pub put_done :
      (item : UsageItem) (s s' : S)
      → ops.put_item item s ≡ (done, s')
      → (any_of (has_key item.pk item.sk) (ledger s) ≡ false)
        × (ledger s' ≡ item ∷ ledger s)
        × (total s' ≡ total s)
  pub put_duplicate :
      (item : UsageItem) (s s' : S)
      → ops.put_item item s ≡ (duplicate, s')
      → (any_of (has_key item.pk item.sk) (ledger s) ≡ true)
        × (ledger s' ≡ ledger s)
        × (total s' ≡ total s)
  pub put_failed :
      (item : UsageItem) (e : Error) (s s' : S)
      → ops.put_item item s ≡ (failed e, s')
      → (total s' ≡ total s)
        × ((ledger s' ≡ ledger s)
            ⊎ ((any_of (has_key item.pk item.sk) (ledger s) ≡ false)
                × (ledger s' ≡ item ∷ ledger s)))
  pub update_done :
      (pk sk : String) (units : ℤ) (now tenant_id month : String) (s s' : S)
      → ops.update_item pk sk units now tenant_id month s ≡ (none, s')
      → (ledger s' ≡ ledger s)
        × ((p k : String)
            → total s' p k ≡ (
                if p == pk && k == sk then some (add_usage units (total s pk sk)) else total s p k))
  pub update_failed :
      (pk sk : String) (units : ℤ) (now tenant_id month : String) (e : Error) (s s' : S)
      → ops.update_item pk sk units now tenant_id month s ≡ (some e, s')
      → (ledger s' ≡ ledger s)
