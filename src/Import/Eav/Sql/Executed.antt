-- ===== src/Import/Eav/Sql/Executed.antt =====
-- What a database stores that executes the statements of rawBatchUpsert in service/product/import_eav.go.
use magento_go.Prelude.{
  ℕ, Bool, false, ◌&&◌, String, Option, none, some, List, [], ◌∷◌, ◌==◌, any, length, nat_eq,
  string_eq, if◌then◌else◌,
}
use magento_go.Prelude.Dict.{or_else}
use magento_go.Import.Jobs.{Job}
use magento_go.Import.Eav.{EavRow}
use magento_go.Import.Eav.Sql.{Arg, number, text}
use magento_go.Import.Eav.Sql.Placeholders.{all_marks}

-- The values of one table by link id, attribute id and store id, which are its unique key.
abbrev pub Values : Type 0
Values = ℕ → ℕ → ℕ → Option String

abbrev put : ℕ → ℕ → ℕ → String → Values → Values
put link attribute store value t l a s =
    if l == link && (a == attribute && s == store) then some value else t l a s

-- The statement inserts into these columns of the table, in this order.
abbrev inserts_into : String → String → List String → Bool
inserts_into table link_column (verb ∷ into ∷ paren ∷ first ∷ columns ∷ rest) =
    verb == "INSERT INTO "
    && (into == table
        && (paren == " ("
            && (first == link_column && columns == ", attribute_id, store_id, value) VALUES ")))
inserts_into table link_column statement = false

-- A row whose key stands already has its value overwritten.
abbrev overwrites : String → List String → Bool
overwrites dialect statement =
    any
      (λ p. p == (
        if dialect == "mysql"
        then " ON DUPLICATE KEY UPDATE value=VALUES(value)"
        else ", attribute_id, store_id) DO UPDATE SET value=excluded.value"))
      statement

-- The arguments, four for each row, in the order of the columns.
abbrev store_all : List Arg → Job Values (Unit {0})
store_all (number link ∷ number attribute ∷ number store ∷ text value ∷ args) t =
    store_all args (put link attribute store value t)
store_all [] t = (t, none)
store_all args t = (t, some tt)

-- A database that executes the upserts of a table as MySQL and SQLite do, and refuses other statements
-- and those whose placeholders are not as many as the arguments.
abbrev pub executed : String → String → String → List String → List Arg → Job Values (Unit {0})
executed table link_column dialect statement args t =
    if inserts_into table link_column statement
      && (overwrites dialect statement && all_marks statement == length args)
    then store_all args t
    else (t, some tt)

-- The value of the last row with a key.
abbrev pub last_value : ℕ → ℕ → ℕ → List EavRow → Option String
last_value l a s [] = none
last_value l a s (r ∷ rs) =
    or_else (last_value l a s rs)
      (if r.link_id == l && (r.attribute_id == a && r.store_id == s) then some r.value else none)

abbrev put_rows : List EavRow → Values → Values
put_rows [] t = t
put_rows (r ∷ rs) t = put_rows rs (put r.link_id r.attribute_id r.store_id r.value t)
