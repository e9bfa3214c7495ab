-- ===== src/Sqlite/Reading.antt =====
-- `sqlite_query` of src/backend/sqlite3.c: the rows of a statement and the result that is made of them.
use corm.Base.{
  ℕ, zero, suc, ◌+◌, ◌*◌, Bool, true, false, not, ◌&&◌, List, [], ◌∷◌, ◌++◌, Option, none, some,
  if◌then◌else◌, leb, Text, length, replicate, Err, ok, err_backend, err_nomem,
}
use corm.Dialect.{FieldType, int, int64, double, text, blob}
use corm.Value.{Value, Payload, of_int, of_float, of_text, of_blob}
use corm.Result
use corm.Result.{Result, zero_value}
use corm.Session.{Db, set_err_msg}
use corm.Sqlite.{
  Stmt, ColumnType, sqlite_integer, sqlite_float, sqlite_text, sqlite_blob, sqlite_null, step_row,
  step_done, step_error, Library, Conn, bind_params, get_stmt, cleanup_stmt, with_handle,
}

-- The type that the first row gives to a column: CORM_INT, which is 0, marks a column without one.
unfoldable pub infer_type : FieldType → ColumnType → FieldType
infer_type int sqlite_integer = int64
infer_type int sqlite_float = double
infer_type int sqlite_blob = blob
infer_type int sqlite_text = text
infer_type int sqlite_null = text
infer_type type _ = type

-- The types of the columns and the rows so far, or how the loop over the rows failed.
pub data Fetch : Type 0 where
  fetched : List FieldType → List (List Value) → Fetch
  out_of_memory : Fetch
  step_failed : Fetch

module _ {H : Type 0} (L : Library H) where
  -- The value of a column that is not NULL, read by the column's type.
  unfoldable pub column_payload : Stmt → ℕ → FieldType → H → Payload
  column_payload stmt i int64 h = of_int (L.column_int64 stmt i h)
  column_payload stmt i double h = of_float (L.column_double stmt i h)
  column_payload stmt i text h = of_text (L.column_text stmt i h)
  column_payload stmt i blob h = elim (L.column_blob stmt i h) [
    | [] ↦ of_blob none
    | b ∷ bs ↦ of_blob (some (b ∷ bs))
  ]
  column_payload stmt i _ h = zero_value.v

  abbrev pub is_sqlite_null : ColumnType → Bool
  is_sqlite_null sqlite_null = true
  is_sqlite_null _ = false

  unfoldable pub read_cell : Stmt → ℕ → FieldType → H → Value
  read_cell stmt i type h =
      let null = is_sqlite_null (L.column_type stmt i h) in
      record {
        type = type;
        is_null = null;
        v = (if null then zero_value.v else column_payload stmt i type h);
      }

  -- The loop over the columns of a row: their types afterwards and the cells.
  unfoldable pub read_row : Stmt → ℕ → List FieldType → H → List FieldType × List Value
  read_row stmt i [] h = ([], [])
  read_row stmt i (t ∷ types) h =
      let type = infer_type t (L.column_type stmt i h) in
      let (types', cells) = read_row stmt (i + 1) types h in
      (type ∷ types', read_cell stmt i type h ∷ cells)

  -- The loop over the rows. `grown` and `row_served` say, by the number of the row, whether the array grows
  -- and the row is allocated.
  unfoldable pub fetch_loop :
      (grown row_served : ℕ → Bool)
      → ℕ
      → Stmt
      → ℕ
      → List FieldType
      → List (List Value)
      → H
      → Option (Fetch × H)
  fetch_loop grown row_served zero stmt row_cap types rows h = none
  fetch_loop grown row_served (suc fuel) stmt row_cap types rows h =
      let (rc, h') = L.step stmt h in
      let (types', cells) = read_row stmt 0 types h' in
      let full = leb row_cap (length rows) in
      let cap' = if full then row_cap * 2 else row_cap in
      let rest = fetch_loop grown row_served fuel stmt cap' types' (rows ++ (cells ∷ [])) h' in
      elim rc [
        | step_done ↦ some (fetched types rows, h')
        | step_error ↦ some (step_failed, h')
        | step_row ↦
            if full && not (grown (length rows))
            then some (out_of_memory, h')
            else if row_served (length rows)
            then rest
            else some (out_of_memory, h')
      ]

  -- The names from column `i` on; `named` says, by the number of the column, whether its name can be copied. One
  -- that cannot is NULL, and the query goes on.
  unfoldable pub column_names : (named : ℕ → Bool) → Stmt → ℕ → ℕ → H → List (Option Text)
  column_names named stmt i zero h = []
  column_names named stmt i (suc n) h =
      (if named i then some (L.column_name stmt i h) else none)
      ∷ column_names named stmt (i + 1) n h

  -- The end of `sqlite_query`: the result of the collected rows.
  unfoldable pub result_of :
      (named : ℕ → Bool) → Stmt → List FieldType → List (List Value) → H → Result → Result
  result_of named stmt types rows h res = record res {
    column_names = column_names named stmt 0 (length types) h;
    column_types = types;
    rows = rows;
  }

  -- What `sqlite_query` does with what the loop gives; `allocations` are those of `corm_result_new`.
  unfoldable pub finish_query :
      (named allocations : ℕ → Bool)
      → Text
      → Stmt
      → Db (Conn H)
      → Fetch
      → Err × Option Result × Db (Conn H)
  finish_query named allocations sql stmt db out_of_memory =
      (err_nomem, none, cleanup_stmt L db sql)
  finish_query named allocations sql stmt db step_failed =
      let db' = cleanup_stmt L db sql in
      (err_backend, none, set_err_msg db' (L.errmsg db'.world.handle))
  finish_query named allocations sql stmt db (fetched types rows) =
      elim (Result.new allocations (length types) 0) [
        | none ↦ (err_nomem, none, cleanup_stmt L db sql)
        | some res ↦ (ok, some (result_of named stmt types rows db.world.handle res), db)
      ]

  -- `sqlite_query`, on fuel for its rows and one round more. `buffers` says whether the first two arrays are
  -- allocated.
  unfoldable pub query :
      (served buffers : Bool) (grown row_served named allocations : ℕ → Bool)
      → ℕ
      → Text
      → List Value
      → Db (Conn H)
      → Option (Err × Option Result × Db (Conn H))
  query served buffers grown row_served named allocations fuel sql params db =
      let (got, db₁) = get_stmt L served db sql in
      elim got [
        | none ↦ some (err_backend, none, db₁)
        | some stmt ↦
            let h = bind_params L stmt 0 params db₁.world.handle in
            if buffers
            then elim (fetch_loop grown row_served fuel stmt 16
                (replicate (L.column_count stmt h) int) [] h) [
                  | none ↦ none
                  | some (outcome, h') ↦
                      some (finish_query named allocations sql stmt (with_handle L db₁ h') outcome)
                ]
            else some (err_nomem, none, cleanup_stmt L (with_handle L db₁ h) sql)
      ]
