-- ===== src/Mysql/Tests.antt =====
-- The driver for MySQL on a library whose statements never execute.
use corm.Base.{
  ℕ, ◌≡◌, refl, Bool, true, false, [], ◌∷◌, Option, none, some, codes, read, pos, negsuc, Err, ok,
  is_ok, if◌then◌else◌,
}
use corm.Dialect.{int, int64}
use corm.Value.{Value, of_int}
use corm.Result
use corm.Result.{Result, value, row_count, col_count, col_type, zero_value}
use corm.Samples.{session, number}
use corm.Session.{Db}
use corm.StmtCache.Lru.{lookup}
use corm.Mysql.{Library, Conn, exec, get_stmt, close}
use corm.Mysql.Closed.{stmt_query_cached}
use corm.Mysql.Dangling.{exec_cached}
use corm.Mysql.Reading.{
  kind_long, field_to_corm_type, Meta, Results, place, read_cell, read_cells, filled, copy_names,
  text_payload, fetch_stmt, query_stmt, stmt_query, query,
}
use corm.Mysql.Rows.{query-value}

abbrev refusing : Library ℕ
refusing = record {
  ping = λ h. (true, h);
  query = λ _ h. (true, h);
  error = λ _. codes "failed";
  insert_id = λ _. pos 0;
  affected_rows = λ _. pos 0;
  stmt_init = λ h. (none, h);
  stmt_prepare = λ _ _ h. (false, h);
  stmt_error = λ _ _. codes "failed";
  stmt_close = λ _ h. h;
  stmt_bind_param = λ _ _ h. (true, h);
  stmt_execute = λ _ h. (false, h);
  stmt_insert_id = λ _ _. pos 0;
  stmt_affected_rows = λ _ _. pos 0;
}

-- Statement 5 is cached.
abbrev connected : Db (Conn ℕ)
connected = session (record {
  handle = 0;
  cache = (codes "DELETE ?", 5) ∷ [];
  capacity = 4;
  closed = [];
  last_insert_id_val = pos 0;
  rows_affected_val = pos 0;
})

exec_cached_example :
    (lookup
        (codes "DELETE ?")
        (exec refusing true true (codes "DELETE ?") (number 1 ∷ []) connected).1.world.cache
      ≡ some 5)
    × ((exec refusing true true (codes "DELETE ?") (number 1 ∷ []) connected).1.world.closed ≡ (
        if is_ok (exec refusing true true (codes "DELETE ?") (number 1 ∷ []) connected).0
        then []
        else 5 ∷ []))
exec_cached_example =
    exec_cached refusing true true (codes "DELETE ?") (number 1) [] connected 5 refl

abbrev columns : Meta
columns = record { fields = (codes "n", kind_long) ∷ [] }

copied_all : copy_names (λ _. true) 0 1 ≡ some true
unfolding copy_names
copied_all = refl

abbrev executing : Library ℕ
executing = record refusing { stmt_execute = λ _ h. (true, h) }

-- A result of one row with the number 7.
abbrev one_row : Results ℕ
one_row = record {
  store_result =
      λ h. (some (columns, record { num_rows = 1; fetched = (some (codes "7") ∷ []) ∷ [] }), h);
  strtoll = λ s. pos (read 0 s);
  strtod = λ _. 0;
  stmt_result_metadata = λ _ h. (some columns, h);
  stmt_store_result = λ _ h. (true, h);
  stmt_bind_result = λ _ h. (true, h);
  stmt_num_rows = λ _ _. 1;
  stmt_fetch = λ _ h. ((some (of_int (pos 7)) ∷ []) ∷ [], h);
  real_escape = λ s _. s;
}

abbrev fresh : Result
fresh = record {
  column_names = none ∷ [];
  column_types = int ∷ [];
  rows = (zero_value ∷ []) ∷ [];
  current_row = negsuc 0;
  refcount = 1;
}

abbrev seven : Value
seven = record { type = int64; is_null = false; v = of_int (pos 7) }

fresh_made : Result.new (λ _. true) 1 1 ≡ some fresh
unfolding Result.new Result.all_rows
fresh_made = refl

abbrev served : ℕ → Bool
served _ = true

-- What the query returns: the row, with statement 5 closed.
abbrev left : Err × Option Result × Db (Conn ℕ)
left = (
  ok,
  some (filled fresh columns ((seven ∷ []) ∷ [])),
  record connected { world = record connected.world { closed = 5 ∷ [] } },
)

cached_run :
    stmt_query executing one_row true true served true true
      (codes "DELETE ?")
      (number 1 ∷ [])
      connected
    ≡ some left
unfolding stmt_query get_stmt query_stmt fetch_stmt place read_cells read_cell close Result.new
    Result.all_rows field_to_corm_type
cached_run = refl

stmt_query_cached_example :
    (lookup (codes "DELETE ?") left.2.world.cache ≡ some 5) × (left.2.world.closed ≡ 5 ∷ [])
stmt_query_cached_example =
    stmt_query_cached executing one_row true true served true true (codes "DELETE ?")
      (number 1 ∷ []) connected 5 left refl cached_run

query-value_example :
    (res : Result) × (query executing one_row true true served served true true
        (codes "SELECT")
        []
        connected
      ≡ some (ok, some res, connected))
    × (row_count res ≡ 1)
    × (col_count res ≡ 1)
    × (col_type res (pos 0) ≡ int64)
    × (value res (pos 0) (pos 0)
        ≡ some (read_cell (text_payload executing one_row) int64 (some (codes "7"))))
unfolding field_to_corm_type
query-value_example =
    query-value executing one_row true true served served true true (codes "SELECT") connected
      columns _ fresh 0 0 _ (some (codes "7")) (codes "n", kind_long) refl refl fresh_made
      copied_all refl refl refl refl
