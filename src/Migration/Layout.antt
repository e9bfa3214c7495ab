-- ===== src/Migration/Layout.antt =====
-- The CREATE TABLE statement of src/migration.c described by lists: what each column and the key say.
use corm.Base.{
  ℕ, Bool, ◌&&◌, List, [], ◌∷◌, ◌++◌, Option, none, some, map, length, select, join, if◌then◌else◌,
  ◌==◌, ltb, Text, codes, nonempty, BackendType, sqlite, mysql, postgres,
}
use corm.Dialect.{autoinc}
use corm.Dialect.Placeholder.{ident}
use corm.Model.{Field, name_of, has_flag, flag_primary, flag_autoinc, flag_not_null, flag_unique}
use corm.Builder.{split_at}
use corm.Migration.{type_text}

abbrev pub optional : Bool → Text → Text
optional b t = if b then t else []

abbrev pub default_text : Option Text → Text
default_text none = []
default_text (some value) = optional (nonempty value) (codes " DEFAULT " ++ value)

-- The text of a foreign key: `a.b` is the column `b` of the table `a`, and a name without a dot is a table.
abbrev pub reference_text : Option Text → Text
reference_text none = []
reference_text (some r) = elim (split_at b'.' r) [
  | some (table, column) ↦ codes " REFERENCES " ++ (table ++ (codes "(" ++ (column ++ codes ")")))
  | none ↦ codes " REFERENCES " ++ (r ++ codes "(id)")
]

abbrev pub constraints_text : Field → Text
constraints_text f =
    optional (has_flag flag_not_null f) (codes " NOT NULL")
    ++ (optional (has_flag flag_unique f) (codes " UNIQUE") ++ default_text f.default_value)

-- What stands behind the type of a column, in a table of so many primary keys.
abbrev pub ending_text : ℕ → Field → Text
ending_text n f =
    constraints_text f
    ++ (optional (has_flag flag_primary f && n == 1) (codes " PRIMARY KEY")
        ++ reference_text f.fk_ref)

-- The description of a column behind its name.
abbrev pub type_part : BackendType → ℕ → Field → Text
type_part bt n f =
    if has_flag flag_autoinc f
    then elim bt [
      | mysql ↦ codes " " ++ (type_text mysql f ++ (codes " AUTO_INCREMENT" ++ ending_text n f))
      | sqlite ↦ codes " " ++ autoinc sqlite
      | postgres ↦ codes " " ++ autoinc postgres
    ]
    else codes " " ++ (type_text bt f ++ ending_text n f)

abbrev pub column_text : BackendType → ℕ → Field → Text
column_text bt n f = ident bt (name_of f.name) ++ type_part bt n f

abbrev pub primaries : List Field → List Field
primaries fs = select (λ f. has_flag flag_primary f) fs

abbrev pub keys_text : BackendType → List Field → Text
keys_text bt fs = join (codes ", ") (map (λ f. ident bt (name_of f.name)) (primaries fs))

abbrev pub clause : BackendType → List Field → Text
clause bt fs = codes "PRIMARY KEY (" ++ (keys_text bt fs ++ codes ")")

-- The clause for a key of several fields.
abbrev pub key_clause : BackendType → List Field → List Text
key_clause bt fs = if ltb 1 (length (primaries fs)) then clause bt fs ∷ [] else []

-- The list between the parentheses: the columns, and the clause of a composite key behind them.
abbrev pub items : BackendType → List Field → List Text
items bt fs = map (λ f. column_text bt (length (primaries fs)) f) fs ++ key_clause bt fs
