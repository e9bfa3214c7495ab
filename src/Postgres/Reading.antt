-- ===== src/Postgres/Reading.antt =====
-- `pg_query` and `pg_describe_table` of src/backend/postgres.c: results made from what libpq replies.
use corm.Base.{
  ℕ, zero, suc, ◌+◌, Bool, true, false, not, ◌&&◌, ◌||◌, List, [], ◌∷◌, Option, none, some, ◌>>=◌,
  if◌then◌else◌, ◌==◌, ltb, Text, text_eq, codes, nonempty, Err, ok, err_backend, err_nomem,
}
use corm.Dialect.{FieldType, int64, double, text, blob, bool}
use corm.Value.{Value, Payload, of_int, of_float, of_text, of_blob, of_bool}
use corm.Model.Memory.{Abi}
use corm.Result
use corm.Result.{Result, zero_value}
use corm.Session.{Db, set_err_msg}
use corm.Session.ColumnInfo.{ColumnInfo}
use corm.Postgres.{Reply, Library, Conn, text_param, query_param, build_params, with_handle}

-- The type of a column, by the number that PostgreSQL gives to its type.
unfoldable pub column_type : ℕ → FieldType
column_type oid =
    if oid == 20 || (oid == 21 || (oid == 23 || oid == 26))
    then int64
    else if oid == 700 || oid == 701
    then double
    else if oid == 16
    then bool
    else if oid == 17
    then blob
    else text

-- `PQgetvalue(…)[0] == c`; the value of a NULL is the empty text.
unfoldable pub starts_with : ℕ → Option Text → Bool
starts_with c (some (x ∷ _)) = x == c
starts_with c _ = false

-- `PQgetvalue`
abbrev pub shown : Option Text → Text
shown none = []
shown (some s) = s

module _ {H : Type 0} (L : Library H) where
  -- The value of a cell that is not NULL.
  unfoldable pub read_payload : FieldType → Text → Payload
  read_payload int64 s = of_int (L.strtoll s)
  read_payload double s = of_float (L.strtod s)
  read_payload bool s = of_bool (starts_with b't' (some s))
  read_payload blob s = of_blob (some (L.unescape_bytea s))
  read_payload _ s = of_text (some s)

  unfoldable pub read_cell : FieldType → Option Text → Value
  read_cell type none = record { type = type; is_null = true; v = zero_value.v }
  read_cell type (some s) = record { type = type; is_null = false; v = read_payload type s }

  -- The loops over the columns from `i` on and the rows from `r` on.
  unfoldable pub read_names : Reply → ℕ → ℕ → List (Option Text)
  read_names reply i zero = []
  read_names reply i (suc n) = some (reply.fname i) ∷ read_names reply (i + 1) n

  unfoldable pub read_types : Reply → ℕ → ℕ → List FieldType
  read_types reply i zero = []
  read_types reply i (suc n) = column_type (reply.ftype i) ∷ read_types reply (i + 1) n

  unfoldable pub read_row : Reply → ℕ → ℕ → ℕ → List Value
  read_row reply r i zero = []
  read_row reply r i (suc n) =
      read_cell (column_type (reply.ftype i)) (reply.cell r i) ∷ read_row reply r (i + 1) n

  unfoldable pub read_rows : Reply → ℕ → ℕ → List (List Value)
  read_rows reply r zero = []
  read_rows reply r (suc n) = read_row reply r 0 reply.nfields ∷ read_rows reply (r + 1) n

  -- `pg_query` behind the call of libpq; `allocations` are those of `corm_result_new`.
  unfoldable pub finish_query :
      (ℕ → Bool) → Db (Conn H) → Reply × H → Err × Option Result × Db (Conn H)
  finish_query allocations db (reply, h) =
      let db' = with_handle db h in
      if reply.tuples_ok || reply.command_ok
      then elim (Result.new allocations reply.nfields reply.ntuples) [
        | none ↦ (err_nomem, none, db')
        | some res ↦ (
          ok,
          some (record res {
            column_names = read_names reply 0 reply.nfields;
            column_types = read_types reply 0 reply.nfields;
            rows = read_rows reply 0 reply.ntuples;
          }),
          db',
        )
      ]
      else (err_backend, none, set_err_msg db' (L.error_message h))

  -- `pg_query`
  unfoldable pub query :
      Abi
      → (strs arrays : Bool) (allocations : ℕ → Bool) → Text
      → List Value
      → Db (Conn H)
      → Option (Err × Option Result × Db (Conn H))
  query abi strs arrays allocations sql [] db =
      some (finish_query allocations db (L.exec sql db.world.handle))
  query abi strs arrays allocations sql (p ∷ ps) db = do
    built ← build_params L abi strs arrays (query_param L abi) (p ∷ ps)
    elim built [
      | none ↦ some (err_nomem, none, db)
      | some qs ↦ some (finish_query allocations db (L.exec_params sql qs db.world.handle))
    ]

  -- One row of the catalogue.
  unfoldable pub read_column : Reply → ℕ → ColumnInfo
  read_column reply r = record {
    name = some (shown (reply.cell r 0));
    type_name = some (shown (reply.cell r 1));
    not_null = text_eq (shown (reply.cell r 2)) (codes "NO");
    is_pk = starts_with b'1' (reply.cell r 3);
    default_value =
        (let default = shown (reply.cell r 4) in if nonempty default then some default else none);
  }

  unfoldable pub read_columns : Reply → ℕ → ℕ → List ColumnInfo
  read_columns reply r zero = []
  read_columns reply r (suc n) = read_column reply r ∷ read_columns reply (r + 1) n

  -- `pg_describe_table`; `catalogue` is its statement, `calloc` whether the array is allocated.
  unfoldable pub describe_table :
      Text → Bool → Text → Db (Conn H) → Err × Option (List ColumnInfo) × Db (Conn H)
  describe_table catalogue calloc table_name db =
      let (reply, h) = L.exec_params catalogue (text_param table_name ∷ []) db.world.handle in
      let db' = with_handle db h in
      if reply.tuples_ok
      then (if not calloc && ltb 0 reply.ntuples
          then (err_nomem, none, db')
          else (ok, some (read_columns reply 0 reply.ntuples), db'))
      else (err_backend, none, set_err_msg db' (L.error_message h))
