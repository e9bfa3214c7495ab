-- ===== src/Migration/Sql.antt =====
-- The CREATE TABLE statement of src/migration.c against a description by lists.
use corm.Base.{
  ℕ, ◌≡◌, refl, sym, ◌∙◌, Bool, true, false, List, ◌++◌, Option, none, some, append_assoc,
  append-nil, map, length, if◌then◌else◌, ltb, Text, codes, nonempty, BackendType,
}
use corm.Model.{Field, Model, has_flag, flag_not_null, flag_unique}
use corm.Migration.{add_constraints, add_columns, add_keys}
use corm.Migration.Layout.{optional, default_text, constraints_text, column_text, primaries}

add_if : (b : Bool) (sql t : Text) → (if b then sql ++ t else sql) ≡ sql ++ optional b t
add_if true sql t = refl
add_if false sql t = sym (append-nil sql)

add_default :
    (sql : Text) (d : Option Text)
    → (elim d [
      | none ↦ sql
      | some value ↦ if nonempty value then sql ++ (codes " DEFAULT " ++ value) else sql
    ])
      ≡ sql ++ default_text d
add_default sql none = sym (append-nil sql)
add_default sql (some value) = add_if (nonempty value) sql (codes " DEFAULT " ++ value)

pub add_constraints_lem :
    (sql : Text) (f : Field) → add_constraints sql f ≡ sql ++ constraints_text f
unfolding add_constraints
add_constraints_lem sql f =
    add_default _ f.default_value
    ∙ rw
        (
          add_if (has_flag flag_not_null f) sql (codes " NOT NULL"),
          add_if (has_flag flag_unique f)
              (sql ++ optional (has_flag flag_not_null f) (codes " NOT NULL")) (codes " UNIQUE"),
        )
        (simp append_assoc)

abbrev columns_of : BackendType → List Field → List Text
columns_of bt fs = map (λ f. column_text bt (length (primaries fs)) f) fs

-- The part of the statement behind the opening parenthesis, for the tested number of keys.
abbrev body : BackendType → Text → ℕ → List Field → Text
body bt sql n fs =
    let columns = add_columns sql bt n 0 fs in
    if ltb 1 n then add_keys (columns ++ codes ", PRIMARY KEY (") bt 0 fs ++ codes ")" else columns
