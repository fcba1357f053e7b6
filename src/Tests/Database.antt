-- ===== src/Tests/Database.antt =====
-- A database in memory, for the tests: the rows that are committed and those of the transaction. Its
-- collation has `U` equal to `u`.
use Prim.Native.Char.{code}
use secure_multi_tenant_saas.Prelude.{
  ℕ, String, ◌≡◌, refl, sym, ◌∙◌, Bool, true, false, Option, none, some, List, [], ◌∷◌, ◌==◌, ◌&&◌,
  eqb, eq_refl, inr, is_some, ap, if◌then◌else◌, nonempty,
}
use secure_multi_tenant_saas.Prelude.Dict.{Dict}
use secure_multi_tenant_saas.Prelude.Exec.{Result, ok, err, database_error, ok-injective}
use secure_multi_tenant_saas.Secrets.{GetSecretValue}
use secure_multi_tenant_saas.Rds.Row.{UserRow}
use secure_multi_tenant_saas.Rds.Sql.{
  Statement, select_user, lock_user, update_user, insert_user, Reply, Driver, first_row,
}
use secure_multi_tenant_saas.Rds.Sql.Schema.{Rows, effect, Answers, map_row, set_columns, key_of}
use secure_multi_tenant_saas.Rds.Sql.Connection.{IsDriver}

pub record Base : Type 0 where
  pub committed : Rows
  pub pending : Rows

unfoldable pub folded : String → String
folded String.[] = String.[]
folded (String.◌∷◌ c s) = String.◌∷◌ (if eqb (code c) b'U' then "u" else c) (folded s)

abbrev as_list : Option UserRow → List UserRow
as_list none = []
as_list (some row) = row ∷ []

abbrev looks_same : Option UserRow → Option UserRow → Bool
looks_same none none = true
looks_same none (some q) = false
looks_same (some r) none = false
looks_same (some r) (some q) =
    r.username == q.username && (r.email == q.email && r.phone == q.phone)

looks_same_refl : (o : Option UserRow) → looks_same o o ≡ true
looks_same_refl none = refl
looks_same_refl (some r) = rw (eq_refl r.username, eq_refl r.email, eq_refl r.phone) refl

abbrev reply_of : List UserRow → List String → ℕ → Reply
reply_of rows ids rowcount = record {
  rows = rows;
  ids = ids;
  total = 0;
  groups = [];
  rowcount = rowcount;
}

abbrev reply : Statement → Rows → Result Reply
reply (select_user table column value) rows =
    ok (reply_of (as_list (rows table (folded value))) [] 1)
reply (lock_user table id) rows =
    ok (reply_of [] (if is_some (rows table (folded id)) then id ∷ [] else []) 1)
reply (update_user table columns id) rows =
    let after = map_row (set_columns columns) (rows table (folded id)) in
    ok (reply_of [] [] (if looks_same after (rows table (folded id)) then 0 else 1))
reply (insert_user table columns) rows =
    if is_some (rows table (folded (key_of columns)))
    then err database_error
    else ok (reply_of [] [] 1)
reply _ rows = ok (reply_of [] [] 0)

abbrev pub driver : Driver Base
driver = record {
  connect = λ user password s. (ok tt, record s { pending = s.committed });
  execute = λ st s. (reply st s.pending, record s { pending = effect folded st s.pending });
  commit = λ s. (ok tt, record s { committed = s.pending });
  rollback = λ s. (ok tt, record s { pending = s.committed });
  close = λ s. (ok tt, s);
}

-- A bundle that holds a key.
abbrev pub fetch : GetSecretValue Base
fetch region name s = (ok (some "bundle"), s)

abbrev pub loads : String → Option (Dict String)
loads text = some (("FLASK_SECRET_KEY", "signing key") ∷ ("db_username", "app") ∷ [])

nonempty-ids :
    (o : Option UserRow) (id : String) → nonempty (if is_some o then id ∷ [] else []) ≡ is_some o
nonempty-ids none id = refl
nonempty-ids (some row) id = refl

first-as_list : (o : Option UserRow) → first_row (as_list o) ≡ o
first-as_list none = refl
first-as_list (some row) = refl

absent-key :
    (o : Option UserRow) {r : Reply}
    → (if is_some o then err database_error else ok (reply_of [] [] 1)) ≡ ok r
    → o ≡ none
absent-key none h = refl
absent-key (some row) h = cc

reply-Answers :
    (st : Statement) (rows : Rows) (r : Reply) → reply st rows ≡ ok r → Answers folded st rows r
unfolding Answers
reply-Answers (select_user table column value) rows r h =
    λ _. rw⁻¹ (ok-injective h) (first-as_list (rows table (folded value)))
reply-Answers (lock_user table id) rows r h =
    rw⁻¹ (ok-injective h) (nonempty-ids (rows table (folded id)) id)
reply-Answers (update_user table columns id) rows r h = λ same.
    ap (λ q. q.rowcount) (sym (ok-injective h))
    ∙ (rw (same, looks_same_refl (rows table (folded id))) refl)
reply-Answers (insert_user table columns) rows r h =
    absent-key (rows table (folded (key_of columns))) h
reply-Answers _ rows r h = tt

pub driver-IsDriver : IsDriver folded fetch driver (λ s. s.committed) (λ s. s.pending)
driver-IsDriver = record {
  fetch_committed = λ region name s. refl;
  connect_committed = λ user password s. refl;
  connect_pending = λ user password s h. refl;
  execute_committed = λ st s. refl;
  execute_pending = λ st s r h. (refl, reply-Answers st s.pending r h);
  commit_done = λ s h. refl;
  commit_failed = λ s e h. inr refl;
  rollback_committed = λ s. refl;
  close_committed = λ s. refl;
}
