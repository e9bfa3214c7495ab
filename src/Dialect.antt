-- ===== src/Dialect.antt =====
-- src/dialect.c: the texts that differ between the database backends. A function that writes into
-- the caller's buffer of `bufsz` bytes returns what the buffer then holds before its NUL: the text
-- cut at `bufsz - 1` characters, as `snprintf` and `strncpy` with the final NUL leave it.
mod Tests
pub mod Placeholder
pub mod TypeName
use corm.Base.{
  ℕ, ◌+◌, ◌-◌, Bool, ◌&&◌, [], ◌∷◌, ◌++◌, ltb, if◌then◌else◌, take, Text, codes, show, BackendType,
  sqlite, mysql, postgres,
}

-- `corm_field_type_t`
pub data FieldType : Type 0 where
  int int64 float double string text blob bool : FieldType

-- `CORM_BACKEND_POSTGRES` numbers its placeholders from 1.
unfoldable pub placeholder_str : BackendType → ℕ → ℕ → Text
placeholder_str postgres index bufsz = take (bufsz - 1) (b'$' ∷ show (index + 1))
placeholder_str mysql index bufsz = take (bufsz - 1) (codes "?")
placeholder_str sqlite index bufsz = take (bufsz - 1) (codes "?")

-- The name is not looked at.
unfoldable pub quote : BackendType → Text → Text
quote postgres name = b'"' ∷ []
quote mysql name = b'`' ∷ []
quote sqlite name = b'"' ∷ []

unfoldable pub autoinc : BackendType → Text
autoinc sqlite = codes "INTEGER PRIMARY KEY AUTOINCREMENT"
autoinc mysql = codes "INTEGER AUTO_INCREMENT"
autoinc postgres = codes "SERIAL PRIMARY KEY"

-- A size out of range becomes 255.
unfoldable pub varchar_size : ℕ → ℕ
varchar_size size = if ltb 0 size && ltb size 65535 then size else 255

-- `snprintf(buf, bufsz, "VARCHAR(%zu)", …)`
unfoldable pub varchar : ℕ → Text
unfolding varchar_size
varchar size = codes "VARCHAR(" ++ (show (varchar_size size) ++ codes ")")

unfoldable pub full_type_name : BackendType → FieldType → ℕ → Text
unfolding varchar
full_type_name sqlite int size = codes "INTEGER"
full_type_name sqlite int64 size = codes "INTEGER"
full_type_name sqlite float size = codes "REAL"
full_type_name sqlite double size = codes "REAL"
full_type_name sqlite string size = codes "TEXT"
full_type_name sqlite text size = codes "TEXT"
full_type_name sqlite blob size = codes "BLOB"
full_type_name sqlite bool size = codes "INTEGER"
full_type_name mysql int size = codes "INT"
full_type_name mysql int64 size = codes "BIGINT"
full_type_name mysql float size = codes "FLOAT"
full_type_name mysql double size = codes "DOUBLE"
full_type_name mysql string size = varchar size
full_type_name mysql text size = codes "TEXT"
full_type_name mysql blob size = codes "BLOB"
full_type_name mysql bool size = codes "TINYINT(1)"
full_type_name postgres int size = codes "INTEGER"
full_type_name postgres int64 size = codes "BIGINT"
full_type_name postgres float size = codes "REAL"
full_type_name postgres double size = codes "DOUBLE PRECISION"
full_type_name postgres string size = varchar size
full_type_name postgres text size = codes "TEXT"
full_type_name postgres blob size = codes "BYTEA"
full_type_name postgres bool size = codes "BOOLEAN"

unfoldable pub type_name_str : BackendType → FieldType → ℕ → ℕ → Text
unfolding full_type_name
type_name_str backend type size bufsz = take (bufsz - 1) (full_type_name backend type size)

unfoldable pub if_not_exists : BackendType → Text
if_not_exists backend = codes "IF NOT EXISTS"
