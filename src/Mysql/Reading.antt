-- ===== src/Mysql/Reading.antt =====
-- The queries of src/backend/mysql.c that give rows. The calls of the MySQL library that they add are the
-- parameter `Results`. Copies of cells and the buffers behind them are served. `none` is what C leaves
-- undefined: a write behind the end of an array, a read through NULL, or a block that is freed twice.
use corm.Base.{
  ℕ, zero, suc, ◌+◌, ◌*◌, Bool, true, false, List, [], ◌∷◌, map, Option, none, some, ◌>>=◌,
  if◌then◌else◌, ltb, length, replicate, Text, ℤ, Err, ok, err_backend, err_nomem,
}
use corm.Dialect.{FieldType, int64, double, text, blob}
use corm.Value.{Value, Payload, of_int, of_float, of_text, of_blob}
use corm.Result
use corm.Result.{Result, zero_value}
use corm.Session.{Db, set_err_msg}
use corm.Mysql.{Stmt, Library, Conn, binding, close, get_stmt, fail_stmt, with_handle}

-- `enum_field_types`, as far as it is told apart.
pub data FieldKind : Type 0 where
  kind_tiny kind_short kind_long kind_int24 kind_longlong : FieldKind
  kind_float kind_double kind_decimal kind_blob kind_other : FieldKind

unfoldable pub field_to_corm_type : FieldKind → FieldType
field_to_corm_type kind_tiny = int64
field_to_corm_type kind_short = int64
field_to_corm_type kind_long = int64
field_to_corm_type kind_int24 = int64
field_to_corm_type kind_longlong = int64
field_to_corm_type kind_float = double
field_to_corm_type kind_double = double
field_to_corm_type kind_decimal = double
field_to_corm_type kind_blob = blob
field_to_corm_type kind_other = text

-- The names and types of the columns of a result.
pub record Meta : Type 0 where
  pub fields : List (Text × FieldKind)

-- A stored result: how many rows it tells of, and the rows that are fetched; a NULL cell is `none`.
pub record Stored {ℓ} (Cell : Type ℓ) : Type ℓ where
  pub num_rows : ℕ
  pub fetched : List (List (Option Cell))

-- `store_result` gives the texts of `mysql_store_result`; `stmt_fetch` what the bound buffers hold at each
-- `mysql_stmt_fetch` that returns 0, by the type that was bound, until one that does not.
pub record Results (H : Type 0) : Type 0 where
  pub store_result : H → Option (Meta × Stored Text) × H
  pub strtoll : Text → ℤ
  pub strtod : Text → ℕ
  pub stmt_result_metadata : Stmt → H → Option Meta × H
  pub stmt_store_result : Stmt → H → Bool × H
  pub stmt_bind_result : Stmt → H → Bool × H
  pub stmt_num_rows : Stmt → H → ℕ
  pub stmt_fetch : Stmt → H → List (List (Option Payload)) × H
  pub real_escape : Text → H → Text

-- Each row in its place of an array of so many rows; places without a row keep what calloc left.
unfoldable pub place {ℓ} : {A : Type ℓ} → A → ℕ → List A → Option (List A)
place blank n [] = some (replicate n blank)
place blank zero (r ∷ rs) = none
place blank (suc n) (r ∷ rs) = do rest ← place blank n rs; some (r ∷ rest)

-- A cell by the type of its column.
unfoldable pub read_cell {ℓ} :
    {Cell : Type ℓ} → (FieldType → Cell → Payload) → FieldType → Option Cell → Value
read_cell payload t none = record { type = t; is_null = true; v = zero_value.v }
read_cell payload t (some c) = record { type = t; is_null = false; v = payload t c }

-- The cells of a row; the row has one for each column.
unfoldable pub read_cells {ℓ} :
    {Cell : Type ℓ}
    → (FieldType → Cell → Payload)
    → List FieldType
    → List (Option Cell)
    → List Value
read_cells payload [] cells = []
read_cells payload (t ∷ types) [] = []
read_cells payload (t ∷ types) (cell ∷ cells) =
    read_cell payload t cell ∷ read_cells payload types cells

abbrev pub types_of_meta : Meta → List FieldType
types_of_meta meta = map (λ (f : Text × FieldKind). field_to_corm_type f.1) meta.fields

-- The result with its names, types and rows.
abbrev pub filled : Result → Meta → List (List Value) → Result
filled res meta rows = record res {
  column_names = map (λ (f : Text × FieldKind). some f.0) meta.fields;
  column_types = types_of_meta meta;
  rows = rows;
}

-- The loop that copies the names: at the first that is refused those before it are freed, and then freed
-- again with the result.
unfoldable pub copy_names : (ℕ → Bool) → ℕ → ℕ → Option Bool
copy_names copied i zero = some true
copy_names copied zero (suc n) = if copied zero then copy_names copied 1 n else some false
copy_names copied (suc i) (suc n) =
    if copied (suc i) then copy_names copied (suc (suc i)) n else none

module _ {H : Type 0} (L : Library H) (R : Results H) where
  -- The value of a cell of a result without parameters.
  unfoldable pub text_payload : FieldType → Text → Payload
  text_payload int64 s = of_int (R.strtoll s)
  text_payload double s = of_float (R.strtod s)
  text_payload blob s = of_blob (some s)
  text_payload _ s = of_text (some s)

  -- `mysql_simple_query`
  unfoldable pub simple_query :
      (allocations copied : ℕ → Bool) → Db (Conn H) → Option (Err × Option Result × Db (Conn H))
  simple_query allocations copied db =
      let (got, h) = R.store_result db.world.handle in
      let db₁ = with_handle L db h in
      elim got [
        | none ↦ some (ok, none, db₁)
        | some (meta, stored) ↦ elim (Result.new allocations (length meta.fields) stored.num_rows) [
          | none ↦ some (err_nomem, none, db₁)
          | some res ↦ (do
            named ← copy_names copied 0 (length meta.fields)
            let read = map (read_cells text_payload (types_of_meta meta)) stored.fetched
            rows ← place (replicate (length meta.fields) zero_value) stored.num_rows read
            if named
                then some (ok, some (filled res meta rows), db₁)
                else some (err_nomem, none, db₁))
        ]
      ]

  -- `mysql_stmt_query` behind the execution: `strs` and `arrays` say whether the array of buffers and the
  -- other five are allocated.
  unfoldable pub fetch_stmt :
      (allocations : ℕ → Bool) (strs arrays : Bool)
      → Db (Conn H)
      → Stmt
      → Meta
      → Option (Err × Option Result × Db (Conn H))
  fetch_stmt allocations strs arrays db stmt meta =
      let (stored_it, h) = R.stmt_store_result stmt db.world.handle in
      let row_count = R.stmt_num_rows stmt h in
      let (taken, h₁) = R.stmt_bind_result stmt h in
      let (fetched, h₂) = R.stmt_fetch stmt h₁ in
      let closed = close L (with_handle L db h) stmt in
      let refused = fail_stmt L db h₁ stmt in
      let unstored = fail_stmt L db h stmt in
      if stored_it
      then elim (Result.new allocations (length meta.fields) row_count) [
        | none ↦ some (err_nomem, none, closed)
        | some res ↦
            if ltb 0 row_count
            then (if strs
                then (if arrays
                    then (if taken
                        then (do
                          rows ←
                              place (replicate (length meta.fields) zero_value) row_count
                                (map (read_cells (λ t p. p) (types_of_meta meta)) fetched)
                          some
                              (ok, some (filled res meta rows), close L (with_handle L db h₂) stmt))
                        else some (refused.0, none, refused.1))
                    else some (err_nomem, none, closed))
                else none)
            else some (ok, some (filled res meta []), closed)
      ]
      else some (unstored.0, none, unstored.1)

  -- `mysql_stmt_query` behind the statement; `bound` says whether the array of parameters is allocated.
  unfoldable pub query_stmt :
      (bound : Bool) (allocations : ℕ → Bool) (strs arrays : Bool)
      → Db (Conn H)
      → Stmt
      → List Value
      → Option (Err × Option Result × Db (Conn H))
  query_stmt bound allocations strs arrays db stmt params =
      let (taken, h) = L.stmt_bind_param stmt (map binding params) db.world.handle in
      let (done, h₁) = L.stmt_execute stmt h in
      let (got, h₂) = R.stmt_result_metadata stmt h₁ in
      let unbound = fail_stmt L db h stmt in
      let failed = fail_stmt L db h₁ stmt in
      if bound
      then (if taken
          then (if done
              then elim got [
                | none ↦ some (ok, none, close L (with_handle L db h₂) stmt)
                | some meta ↦ fetch_stmt allocations strs arrays (with_handle L db h₂) stmt meta
              ]
              else some (failed.0, none, failed.1))
          else some (unbound.0, none, unbound.1))
      else some (err_nomem, none, close L db stmt)

  -- `mysql_stmt_query`, which the driver calls with parameters.
  unfoldable pub stmt_query :
      (served bound : Bool) (allocations : ℕ → Bool) (strs arrays : Bool)
      → Text
      → List Value
      → Db (Conn H)
      → Option (Err × Option Result × Db (Conn H))
  stmt_query served bound allocations strs arrays sql params db =
      let (err, got, db₁) = get_stmt L served db sql in
      elim got [
        | none ↦ some (err, none, db₁)
        | some stmt ↦ query_stmt bound allocations strs arrays db₁ stmt params
      ]

  -- `corm_mysql_query`
  unfoldable pub query :
      (served bound : Bool) (allocations copied : ℕ → Bool) (strs arrays : Bool)
      → Text
      → List Value
      → Db (Conn H)
      → Option (Err × Option Result × Db (Conn H))
  query served bound allocations copied strs arrays sql [] db =
      let (done, h) = L.query sql db.world.handle in
      if done
      then simple_query allocations copied (with_handle L db h)
      else some (err_backend, none, set_err_msg (with_handle L db h) (L.error h))
  query served bound allocations copied strs arrays sql (p ∷ params) db =
      stmt_query served bound allocations strs arrays sql (p ∷ params) db

  -- `mysql_escape`: the size that the caller needs when it gives no place, or what is written there.
  unfoldable pub escape : Bool → Db (Conn H) → Text → ℕ × Option Text
  escape dst db src =
      let escaped = R.real_escape src db.world.handle in
      if dst then (length escaped, some escaped) else (length src * 2 + 1, none)
