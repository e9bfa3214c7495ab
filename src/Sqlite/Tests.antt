-- ===== src/Sqlite/Tests.antt =====
-- The driver for SQLite on a small library: a statement has as many rows left as the state says, and each
-- has an integer in its first column.
use corm.Base.{
  not, is_ok, List, ok, ℕ, ◌+◌, ◌-◌, ◌≡◌, ◌<◌, refl, ap, subst, arith, true, [], ◌∷◌, Option, none,
  some, false, if◌then◌else◌, ◌==◌, codes, length, count_char, pos, Err,
}
use corm.Result.{Result}
use corm.Samples.{session}
use corm.Session.{Db}
use corm.Model.{is_null}
use corm.StmtCache.Lru.{lookup}
use corm.Sqlite.{
  Stmt, step_row, step_done, sqlite_integer, Library, Conn, bind_params, get_stmt, exec,
  escape_loop, cache_put, finalize_all,
}
use corm.Session.ColumnInfo.{ColumnInfo}
use corm.Sqlite.Columns.{describe_table_lem}
use corm.Sqlite.Describe.{Connect, read_column, describe_table, Rows, ended, row}
use corm.Sqlite.Reading.{query}
use corm.Sqlite.Escape.{unquote, escape_round_trip}
use corm.Sqlite.Query.{query-Answer, Answer}
use corm.Sqlite.Cached.{KeysDistinct, exec-KeptIfOk}

abbrev counting : Library ℕ
counting = record {
  prepare = λ _ h. (some 7, h);
  reset = λ _ h. h;
  clear_bindings = λ _ h. h;
  bind = λ _ _ _ h. h;
  step = λ _ h. ((if h == 0 then step_done else step_row), h - 1);
  finalize = λ _ h. h;
  errmsg = λ _. codes "failed";
  run = λ _ h. (true, h);
  column_count = λ _ _. 1;
  column_name = λ _ _ _. codes "age";
  column_type = λ _ _ _. sqlite_integer;
  column_int64 = λ _ _ h. pos h;
  column_double = λ _ _ _. 0;
  column_text = λ _ _ _. none;
  column_blob = λ _ _ _. [];
  last_insert_rowid = λ _. pos 0;
  changes = λ _. pos 0;
}

-- Three rows left, and one statement in the cache.
abbrev opened : Db (Conn ℕ)
opened = session (record { handle = 3; cache = (codes "BEGIN TRANSACTION", 5) ∷ []; capacity = 2 })

shrinks : (stmt : Stmt) (h : ℕ) → (counting.step stmt h).0 ≡ step_row → (counting.step stmt h).1 < h
shrinks stmt h e = ground (arith, e)

enough :
    (stmt : Stmt) (db₁ : Db (Conn ℕ))
    → get_stmt counting true opened (codes "SELECT age") ≡ (some stmt, db₁)
    → bind_params counting stmt 0 [] db₁.world.handle < 4
unfolding get_stmt bind_params cache_put finalize_all
enough stmt db₁ e =
    let same : 3 ≡ db₁.world.handle = ap (λ (p : Option Stmt × Db (Conn ℕ)). p.1.world.handle) e in
    subst (λ (n : ℕ). n < 4) same (omega arith)

query-Answer_example :
    (answer : Err × Option Result × Db (Conn ℕ)) × (query counting true true
        (λ _. true)
        (λ _. true)
        (λ _. false)
        (λ _. true)
        4
        (codes "SELECT age")
        []
        opened
      ≡ some answer)
    × Answer counting (λ _. false) answer
query-Answer_example =
    query-Answer counting (λ _ h. h) shrinks true true (λ _. true) (λ _. true) (λ _. false)
      (λ _. true) 4 (codes "SELECT age") [] opened enough

exec-KeptIfOk_example :
    KeysDistinct (exec counting true (codes "COMMIT") [] opened).1.world.cache
    × (is_null
          (lookup (codes "COMMIT") (exec counting true (codes "COMMIT") [] opened).1.world.cache)
        ≡ not (is_ok (exec counting true (codes "COMMIT") [] opened).0))
exec-KeptIfOk_example = exec-KeptIfOk counting (codes "COMMIT") [] opened (refl, tt)

escape_round_trip_example :
    (unquote (escape_loop 10 (codes "it's")) ≡ codes "it's")
    × (length (escape_loop 10 (codes "it's")) ≡ 4 + count_char b'\'' (codes "it's"))
escape_round_trip_example = escape_round_trip 10 (codes "it's") (omega arith)

abbrev opened_at : ℕ → Db (Conn ℕ)
opened_at h =
    session (record { handle = h; cache = (codes "BEGIN TRANSACTION", 5) ∷ []; capacity = 2 })

abbrev describing : Connect ℕ
describing = record {
  open_db = λ _. (true, 0);
  column_int = λ _ i h. pos (if i == h then 1 else 0);
  mprintf_w = λ s. s;
}

-- Three rows.
abbrev columns : List ColumnInfo
columns =
    read_column describing counting 7 2
    ∷ (read_column describing counting 7 1 ∷ (read_column describing counting 7 0 ∷ []))

columns-Rows : Rows describing counting 7 0 3 columns
columns-Rows = row 3 _ refl (row 2 _ refl (row 1 _ refl (ended 0 refl refl)))

describe_table_lem_example :
    describe_table describing counting true (λ _. true) 4 (codes "user") opened
    ≡ some (ok, columns, opened_at 0)
describe_table_lem_example =
    describe_table_lem describing counting (λ _. true) 4 (codes "user") opened 7 0 columns refl
      columns-Rows (λ _. refl) (omega arith)
