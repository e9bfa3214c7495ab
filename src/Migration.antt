-- ===== src/Migration.antt =====
-- src/migration.c: tables, columns and indexes made from models. A statement is built in a buffer, which
-- is the text so far; the columns that a table has come from the driver.
pub mod Layout
pub mod Sql
pub mod Statements
pub mod Missing
pub mod Run
mod Tests
use corm.Base.{
  ℕ, ◌+◌, Bool, true, false, not, ◌&&◌, List, [], ◌∷◌, ◌++◌, Option, none, some, if◌then◌else◌,
  ◌==◌, ltb, Text, text_eq, codes, nonempty, Err, ok, is_ok, BackendType, sqlite, mysql, postgres,
}
use corm.Dialect.{quote, autoinc, type_name_str, if_not_exists}
use corm.Model.{
  Field, Model, name_of, has_flag, flag_primary, flag_autoinc, flag_not_null, flag_unique,
  flag_index,
}
use corm.Builder.{qident, comma, split_at}
use corm.Session.{Db, Backend, exec}

-- The loop that counts the primary keys.
unfoldable pub count_primary : ℕ → List Field → ℕ
count_primary pk_count [] = pk_count
count_primary pk_count (f ∷ fs) =
    count_primary (if has_flag flag_primary f then pk_count + 1 else pk_count) fs

-- `corm_dialect_type_name_str` into a buffer of 64 bytes.
abbrev pub type_text : BackendType → Field → Text
type_text bt f = type_name_str bt f.type f.size 64

-- `NOT NULL`, `UNIQUE` and `DEFAULT`, which both statements append.
unfoldable pub add_constraints : Text → Field → Text
add_constraints sql f =
    let sql₁ = if has_flag flag_not_null f then sql ++ codes " NOT NULL" else sql in
    let sql₂ = if has_flag flag_unique f then sql₁ ++ codes " UNIQUE" else sql₁ in
    elim f.default_value [
      | none ↦ sql₂
      | some value ↦ if nonempty value then sql₂ ++ (codes " DEFAULT " ++ value) else sql₂
    ]

-- `REFERENCES table(column)`, the column `id` where the reference names none.
unfoldable pub add_reference : Text → Option Text → Text
add_reference sql none = sql
add_reference sql (some fk_ref) = elim (split_at b'.' fk_ref) [
  | some (table, column) ↦
      sql ++ (codes " REFERENCES " ++ (table ++ (codes "(" ++ (column ++ codes ")"))))
  | none ↦ sql ++ (codes " REFERENCES " ++ (fk_ref ++ codes "(id)"))
]

-- What follows the type of a column.
unfoldable pub finish_column : Text → ℕ → Field → Text
finish_column sql pk_count f =
    let sql₁ = add_constraints sql f in
    add_reference
      (if has_flag flag_primary f && pk_count == 1 then sql₁ ++ codes " PRIMARY KEY" else sql₁)
      f.fk_ref

-- The body of the loop over the fields, behind its comma. An AUTOINC column ends with what the dialect
-- has for it, but on MySQL.
unfoldable pub add_column : Text → BackendType → ℕ → Field → Text
add_column sql bt pk_count f =
    let named = qident sql bt (name_of f.name) in
    let typed = named ++ (codes " " ++ type_text bt f) in
    if has_flag flag_autoinc f
    then elim bt [
      | mysql ↦ finish_column (typed ++ codes " AUTO_INCREMENT") pk_count f
      | sqlite ↦ named ++ (codes " " ++ autoinc sqlite)
      | postgres ↦ named ++ (codes " " ++ autoinc postgres)
    ]
    else finish_column typed pk_count f

unfoldable pub add_columns : Text → BackendType → ℕ → ℕ → List Field → Text
add_columns sql bt pk_count i [] = sql
add_columns sql bt pk_count i (f ∷ fs) =
    add_columns (add_column (comma sql i) bt pk_count f) bt pk_count (i + 1) fs

-- The loop over the primary keys of a composite key.
unfoldable pub add_keys : Text → BackendType → ℕ → List Field → Text
add_keys sql bt added [] = sql
add_keys sql bt added (f ∷ fs) = elim (has_flag flag_primary f) [
  | true ↦ add_keys (qident (comma sql added) bt (name_of f.name)) bt (added + 1) fs
  | false ↦ add_keys sql bt added fs
]

-- The statement that `create_table` builds.
unfoldable pub create_table_sql : BackendType → Model → Text
create_table_sql bt model =
    let head =
      qident (codes "CREATE TABLE " ++ (if_not_exists bt ++ codes " ")) bt
        (name_of model.table_name) in
    let pk_count = count_primary 0 model.fields in
    let columns = add_columns (head ++ codes " (") bt pk_count 0 model.fields in
    let keyed =
      if ltb 1 pk_count
      then add_keys (columns ++ codes ", PRIMARY KEY (") bt 0 model.fields ++ codes ")"
      else columns in
    keyed ++ codes ")"

-- `ALTER TABLE … ADD COLUMN …;`, with the quotes of the table's name throughout.
unfoldable pub alter_sql : BackendType → Model → Field → Text
alter_sql bt m f =
    let table = name_of m.table_name in
    let lq = quote bt table in
    let base =
      codes "ALTER TABLE "
      ++ (lq
          ++ (table
              ++ (lq
                  ++ (codes " ADD COLUMN "
                      ++ (lq ++ (name_of f.name ++ (lq ++ (codes " " ++ type_text bt f)))))))) in
    add_constraints base f ++ codes ";"

unfoldable pub index_sql : BackendType → Model → Field → Text
index_sql bt m f =
    let table = name_of m.table_name in
    let name = name_of f.name in
    let tq = quote bt table in
    let fq = quote bt name in
    codes "CREATE INDEX IF NOT EXISTS "
    ++ (tq
        ++ (codes "idx_"
            ++ (table
                ++ (codes "_"
                    ++ (name
                        ++ (tq
                            ++ (codes " ON "
                                ++ (tq
                                    ++ (table
                                        ++ (tq
                                            ++ (codes "("
                                                ++ (fq ++ (name ++ (fq ++ codes ")"))))))))))))))

-- The loop over the columns that the driver described.
unfoldable pub has_column : Text → List Text → Bool
has_column name [] = false
has_column name (c ∷ cs) = if text_eq c name then true else has_column name cs

-- Whether a field is left out of the additions; `none` when there is no description.
unfoldable pub skips : Option (List Text) → Field → Bool
skips existing f =
    if has_flag flag_primary f
    then true
    else elim existing [ none ↦ false | some cs ↦ has_column (name_of f.name) cs ]

module _ {W : Type 0} (B : Backend W) where
  unfoldable pub create_table : Db W → Model → Err × Db W
  create_table db model = exec B db (create_table_sql B.type model)

  -- The columns of the table, where the driver can tell and succeeds.
  unfoldable pub describe : Db W → Text → Option (List Text) × Db W
  describe db table = elim B.describe_table [
    | none ↦ (none, db)
    | some describe_table ↦
        let (err, existing, db') = describe_table table db in
        ((if is_ok err then existing else none), db')
  ]

  -- The loops that add columns and indexes; what a statement returns is not read.
  unfoldable pub alter_loop : Model → Option (List Text) → Db W → List Field → Db W
  alter_loop m existing db [] = db
  alter_loop m existing db (f ∷ fs) = elim (skips existing f) [
    | true ↦ alter_loop m existing db fs
    | false ↦ (let (_, db') = exec B db (alter_sql B.type m f) in alter_loop m existing db' fs)
  ]

  unfoldable pub index_loop : Model → Db W → List Field → Db W
  index_loop m db [] = db
  index_loop m db (f ∷ fs) = elim (has_flag flag_index f) [
    | true ↦ (let (_, db') = exec B db (index_sql B.type m f) in index_loop m db' fs)
    | false ↦ index_loop m db fs
  ]

  -- What follows the creation of a model's table.
  unfoldable pub migrate_columns : Db W → Model → Db W
  migrate_columns db m =
      let (existing, db₁) = describe db (name_of m.table_name) in
      index_loop m (alter_loop m existing db₁ m.fields) m.fields

  -- `corm_auto_migrate`
  unfoldable pub auto_migrate : Db W → List Model → Err × Db W
  auto_migrate db [] = (ok, db)
  auto_migrate db (m ∷ ms) =
      let (err, db₁) = create_table db m in
      if is_ok err then auto_migrate (migrate_columns db₁ m) ms else (err, db₁)
