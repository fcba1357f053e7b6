-- ===== src/Rds/Sql/Schema.antt =====
-- database.py: the columns with their defaults, and what the statements do to tables that have them.
use secure_multi_tenant_saas.Prelude.{
  String, ◌≡◌, true, Option, none, some, [], ◌∷◌, ◌&&◌, ◌==◌, nonempty, is_some, if◌then◌else◌,
}
use secure_multi_tenant_saas.Prelude.Dict.{Dict, get}
use secure_multi_tenant_saas.Rds.Row.{UserRow, set_field}
use secure_multi_tenant_saas.Rds.Sql.{
  Value, text, flag, Statement, select_user, lock_user, update_user, insert_user, delete_user,
  Reply, first_row,
}

-- The rows of every table, by the weights of their primary keys: what the collation of the column
-- compares of a text. Keys that differ in case only have one weight in MySQL's default collation.
abbrev pub Rows : Type 0
Rows = String → String → Option UserRow

-- The row that an INSERT fills in.
abbrev pub column_defaults : UserRow
column_defaults = record {
  user_id = "";
  username = "";
  email = "";
  role = "user";
  phone = "";
  department = "";
  profile_image = some "";
  enabled = true;
  password_last_changed = "";
  first_login = true;
}

unfoldable pub set_column : String → Value → UserRow → UserRow
unfolding set_field
set_column k (text v) row = set_field k v row
set_column k (flag v) row =
    if k == "enabled"
    then record row { enabled = v }
    else if k == "first_login"
    then record row { first_login = v }
    else row

unfoldable pub set_columns : Dict Value → UserRow → UserRow
unfolding set_column
set_columns [] row = row
set_columns ((k, v) ∷ columns) row = set_columns columns (set_column k v row)

abbrev pub text_of : Option Value → String
text_of none = ""
text_of (some (text v)) = v
text_of (some (flag v)) = ""

-- The primary key of a row that is put in.
abbrev pub key_of : Dict Value → String
key_of columns = text_of (get columns "userId")

abbrev pub map_row : (UserRow → UserRow) → Option UserRow → Option UserRow
map_row f none = none
map_row f (some row) = some (f row)

-- What a statement that succeeded has made of the rows. No UPDATE of the program sets a key.
unfoldable pub effect : (String → String) → Statement → Rows → Rows
unfolding set_columns
effect weight (update_user table columns id) rows t j =
    if table == t && weight id == j then map_row (set_columns columns) (rows t j) else rows t j
effect weight (insert_user table columns) rows t j =
    if table == t && weight (key_of columns) == j
    then some (set_columns columns column_defaults)
    else rows t j
effect weight (delete_user table id) rows t j =
    if table == t && weight id == j then none else rows t j
effect weight _ rows t j = rows t j

-- What its reply says of the rows before it. The rows that an UPDATE leaves as they were do not
-- count; a second row with the same key is refused.
unfoldable pub Answers : (String → String) → Statement → Rows → Reply → Type 0
unfolding set_columns
Answers weight (select_user table column value) rows reply =
    column ≡ "userId" → first_row reply.rows ≡ rows table (weight value)
Answers weight (lock_user table id) rows reply =
    nonempty reply.ids ≡ is_some (rows table (weight id))
Answers weight (update_user table columns id) rows reply =
    map_row (set_columns columns) (rows table (weight id)) ≡ rows table (weight id)
    → reply.rowcount ≡ 0
Answers weight (insert_user table columns) rows reply = rows table (weight (key_of columns)) ≡ none
Answers weight _ rows reply = Unit
