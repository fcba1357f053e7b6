-- ===== src/BillingLambda/Reports.antt =====
-- lambda-billing.py: what is reported to the queue.
use secure_multi_tenant_saas.Prelude.{
  String, ◌≡◌, ◌≢◌, refl, ap, ◌∙◌, Bool, true, false, Option, List, [], ◌∷◌, map, arith,
}
use secure_multi_tenant_saas.Prelude.Int.{ℤ}
use secure_multi_tenant_saas.Prelude.Exec.{Result, ok, err, pure, lift, continue, ◌>>=◌, ◌>>◌}
use secure_multi_tenant_saas.Metering.Json.{Json}
use secure_multi_tenant_saas.BillingLambda.{
  Payload, UsageRow, Mysql, Worker, QueueRecord, or_key_error, misses, values_of, call, insert_row,
  first_try, second_try, insert_usage_record, insert_if, process_record, report_record,
  lambda_handler, get_db_connection,
}

-- What PyMySQL does once a connection is closed: it stays closed, no statement is executed on it,
-- and what is committed stays as it is.
pub record IsMysql {S : Type 0} (ops : Mysql S) : Type 0 where
  pub is_open : S → Bool
  pub committed : S → List UsageRow
  pub close_done : (s : S) → (ops.close s).0 ≡ ok tt → is_open (ops.close s).1 ≡ false
  pub closed_cursor :
      (s : S)
      → is_open s ≡ false
      → (is_open (ops.cursor s).1 ≡ false) × (committed (ops.cursor s).1 ≡ committed s)
  pub closed_execute :
      (row : UsageRow) (s : S)
      → is_open s ≡ false
      → ((ops.execute row s).0 ≢ ok tt) × (committed (ops.execute row s).1 ≡ committed s)
  pub closed_close_cursor : (s : S) → committed (ops.close_cursor s).1 ≡ committed s
  pub closed_rollback : (s : S) → committed (ops.rollback s).1 ≡ committed s

module _ {S A : Type 0} where
  -- What ends without an exception ends in a state with the property.
  abbrev Ends : (Worker S → Type 0) → Result A × Worker S → Type 0
  Ends Q (ok a, w) = Q w
  Ends Q (err e, w) = Unit

  -- It raises, and the state has the property.
  abbrev pub Raises : (Worker S → Type 0) → Result A × Worker S → Type 0
  Raises Q (ok a, w) = ⊥
  Raises Q (err e, w) = Q w

module _ {S : Type 0} {ops : Mysql S} (M : IsMysql ops) (int_of : Json → Result ℤ)
    (now : Json) where
  abbrev IsClosed : Worker S → Type 0
  IsClosed w = M.is_open w.services ≡ false

  insert_row-Ends :
      (payload : Payload) (w : Worker S) → Ends IsClosed (insert_row ops int_of now payload w)
  unfolding insert_row
  insert_row-Ends payload w = go (values_of now payload)
    where
      go :
          (r : Result UsageRow)
          → Ends IsClosed (
              continue r
                (λ row.
                  call ops int_of now ops.cursor
                  >> call ops int_of now (ops.execute row)
                  >> call ops int_of now ops.commit
                  >> call ops int_of now ops.close_cursor
                  >> call ops int_of now ops.close
                  >> pure row)
                w)
      go (err e) = tt
      go (ok row) =
          let s1 = (ops.cursor w.services).1 in
          let s2 = (ops.execute row s1).1 in
          let s3 = (ops.commit s2).1 in
          let s4 = (ops.close_cursor s3).1 in ground (arith, M.close_done s4)

  first_try-Ends :
      (payload : Payload) (w : Worker S) → Ends IsClosed (first_try ops int_of now payload w)
  unfolding first_try
  first_try-Ends payload w =
      ground (arith, insert_row-Ends payload (get_db_connection ops int_of now w).1)

  abbrev Keeps : List UsageRow → Worker S → Type 0
  Keeps rows w = M.committed w.services ≡ rows

  second_try-Raises :
      (row : UsageRow) (w : Worker S)
      → IsClosed w
      → Raises (Keeps (M.committed w.services)) (second_try ops int_of now row w)
  unfolding second_try
  second_try-Raises row w h =
      let s1 = (ops.cursor w.services).1 in
      let s2 = (ops.execute row s1).1 in
      let s3 = (ops.close_cursor s2).1 in
      let (closed, kept) = M.closed_cursor w.services h in
      ground (
        arith,
        closed,
        kept,
        M.closed_execute row s1 closed,
        M.closed_close_cursor s2,
        M.closed_rollback s1,
        M.closed_rollback s2,
        M.closed_rollback s3,
      )

  abbrev Fails : Result (Unit {0}) → Type 0
  Fails (ok u) = ⊥
  Fails (err e) = Unit

  Raises-Fails : (Q : Worker S → Type 0) (o : Result (Unit {0}) × Worker S) → Raises Q o → Fails o.0
  Raises-Fails Q (ok u, w) h = h
  Raises-Fails Q (err e, w) h = tt

  -- When the INSERT of a row has been committed and the connection closed, the call still raises an
  -- exception, and what is committed stays as it then is.
  pub insert_usage_record-Raises :
      (payload : Payload) (row : UsageRow) (w w' : Worker S)
      → first_try ops int_of now payload w ≡ (ok row, w')
      → Raises
          (λ v. M.committed v.services ≡ M.committed w'.services)
          (insert_usage_record ops int_of now payload w)
  unfolding insert_usage_record
  insert_usage_record-Raises payload row w w' e =
      rw e (second_try-Raises row w' (rw e at (first_try-Ends payload w)))

  insert_usage_record-Fails :
      (payload : Payload) (w : Worker S) → Fails (insert_usage_record ops int_of now payload w).0
  unfolding insert_usage_record
  insert_usage_record-Fails payload w =
      go (first_try ops int_of now payload w) (first_try-Ends payload w)
    where
      go :
          (o : Result UsageRow × Worker S)
          → Ends IsClosed o
          → Fails (continue o.0 (second_try ops int_of now) o.1).0
      go (ok row, w') h = Raises-Fails _ _ (second_try-Raises row w' h)
      go (err e, w') h = tt

  process_record-Fails :
      (r : QueueRecord) (w : Worker S) → Fails (process_record ops int_of now r w).0
  unfolding process_record insert_if
  process_record-Fails r w = on_body (or_key_error r.body)
    where
      insert : (payload : Payload) (b : Bool) → Fails (insert_if ops int_of now payload b w).0
      insert payload true = tt
      insert payload false = insert_usage_record-Fails payload w

      checked :
          (payload : Payload) (m : Result Bool)
          → Fails (continue m (insert_if ops int_of now payload) w).0
      checked payload (ok b) = insert payload b
      checked payload (err e) = tt

      on_body :
          (body : Result Payload)
          → Fails
              (continue body
                (λ payload. lift (misses payload) >>= insert_if ops int_of now payload)
                w).0
      on_body (ok payload) = checked payload (misses payload)
      on_body (err e) = tt

  report_record-Fails :
      (r : Result (Unit {0})) (id : Option String) (failures : List (Option String))
      → Fails r
      → report_record ops int_of now r id failures ≡ id ∷ failures
  report_record-Fails (ok u) id failures h = absurd h
  report_record-Fails (err e) id failures h = refl

  -- Every record of every batch is reported to the queue as a failure, those whose row has been
  -- stored too.
  pub lambda_handler-reports_all :
      (records : List QueueRecord) (w : Worker S)
      → (lambda_handler ops int_of now records w).0 ≡ map (λ r. r.message_id) records
  unfolding lambda_handler
  lambda_handler-reports_all [] w = refl
  lambda_handler-reports_all (r ∷ records) w =
      report_record-Fails _ r.message_id _ (process_record-Fails r w)
      ∙ ap (λ ids. r.message_id ∷ ids)
          (lambda_handler-reports_all records (process_record ops int_of now r w).1)
