-- ===== src/Sqlite.antt =====
-- src/backend/sqlite3.c: the driver for SQLite. The calls of the SQLite library are the parameter `Library`,
-- over a type `H` of what stands behind a connection; a prepared statement is a number. The statement
-- cache stands as the list that its nodes represent (StmtCache/Refine); it was created with the session.
-- Copies of strings and blobs are served; every other allocation is an argument.
pub mod Columns
pub mod Describe
pub mod Escape
pub mod Reading
pub mod Rows
pub mod Query
pub mod Cached
mod Tests
use corm.Base.{
  ℕ, zero, suc, ◌+◌, ◌*◌, Bool, true, false, not, ◌&&◌, List, [], ◌∷◌, ◌++◌, map, Option, none,
  some, if◌then◌else◌, ◌==◌, leb, ltb, Text, codes, length, replicate, ℤ, pos, Err, ok, err_backend,
  err_nomem, is_ok, BackendType, sqlite, take,
}
use corm.Dialect.{FieldType, int, int64, float, double, string, text, blob, bool}
use corm.Value.{Value, Payload, of_int, of_float, of_text, of_blob, of_bool}
use corm.Result
use corm.Result.{Result, zero_value}
use corm.Session.{Db, set_err_msg}
use corm.StmtCache.Lru.{lookup, without, used, roomy, evicted, stored, dropped}

abbrev pub Stmt : Type 0
Stmt = ℕ

-- What `sqlite3_column_type` tells.
pub data ColumnType : Type 0 where
  sqlite_integer sqlite_float sqlite_text sqlite_blob sqlite_null : ColumnType

-- `SQLITE_ROW`, `SQLITE_DONE`, or any other code.
pub data Step : Type 0 where
  step_row step_done step_error : Step

-- What a parameter is bound to.
pub data Binding : Type 0 where
  bind_null : Binding
  bind_int64 : Payload → Binding
  bind_double : Payload → Binding
  bind_text : Payload → Binding
  bind_int : Payload → Binding
  bind_blob : Payload → Binding

-- The calls of the SQLite library. `prepare` gives `none` where it does not return SQLITE_OK. That SQLite
-- returns SQLITE_OK without a statement for a text that is empty or a comment is not modelled.
pub record Library (H : Type 0) : Type 0 where
  pub prepare : Text → H → Option Stmt × H
  pub reset : Stmt → H → H
  pub clear_bindings : Stmt → H → H
  pub bind : Stmt → ℕ → Binding → H → H
  pub step : Stmt → H → Step × H
  pub finalize : Stmt → H → H
  pub errmsg : H → Text
  pub run : Text → H → Bool × H
  pub column_count : Stmt → H → ℕ
  pub column_name : Stmt → ℕ → H → Text
  pub column_type : Stmt → ℕ → H → ColumnType
  pub column_int64 : Stmt → ℕ → H → ℤ
  pub column_double : Stmt → ℕ → H → ℕ
  pub column_text : Stmt → ℕ → H → Option Text
  pub column_blob : Stmt → ℕ → H → List ℕ
  pub last_insert_rowid : H → ℤ
  pub changes : H → ℤ

-- What the session has for the driver: `conn` and `stmt_cache`.
pub record Conn (H : Type 0) : Type 0 where
  pub handle : H
  pub cache : List (Text × Stmt)
  pub capacity : ℕ

-- `sqlite_bind_params`: how a value is bound.
unfoldable pub binding : Value → Binding
binding val = if val.is_null then bind_null else elim val.type [
  | int ↦ bind_int64 val.v
  | int64 ↦ bind_int64 val.v
  | float ↦ bind_double val.v
  | double ↦ bind_double val.v
  | string ↦ bind_text val.v
  | text ↦ bind_text val.v
  | bool ↦ bind_int val.v
  | blob ↦ bind_blob val.v
]

-- `sqlite_escape` on the source up to its NUL or `len`: what is written to `dst`.
unfoldable pub escape_loop : ℕ → Text → Text
escape_loop zero src = []
escape_loop (suc len) [] = []
escape_loop (suc len) (c ∷ src) =
    if c == b'\'' then b'\'' ∷ (c ∷ escape_loop len src) else c ∷ escape_loop len src

-- The text and what the call returns; without a destination nothing is counted.
unfoldable pub escape : Bool → Text → ℕ → Option Text × ℕ
escape dst src len =
    let written = escape_loop len src in if dst then (some written, length written) else (none, 0)

module _ {H : Type 0} (L : Library H) where
  unfoldable pub bind_params : Stmt → ℕ → List Value → H → H
  bind_params stmt i [] h = h
  bind_params stmt i (val ∷ params) h =
      bind_params stmt (i + 1) params (L.bind stmt (i + 1) (binding val) h)

  -- The destroy function of the cache, on what it lets go.
  unfoldable pub finalize_all : List Stmt → H → H
  finalize_all [] h = h
  finalize_all (s ∷ ss) h = finalize_all ss (L.finalize s h)

  -- `corm_stmt_cache_put` with the driver's destroy function; `served` says whether the node is allocated.
  unfoldable pub cache_put : Bool → Conn H → Text → Stmt → Conn H
  cache_put served w sql stmt =
      let h = finalize_all (dropped w.capacity sql w.cache) w.handle in
      record w {
        handle = h;
        cache = (if served then stored w.capacity sql stmt w.cache else roomy w.capacity w.cache);
      }

  -- `sqlite_get_stmt`
  unfoldable pub get_stmt : Bool → Db (Conn H) → Text → Option Stmt × Db (Conn H)
  get_stmt served db sql =
      let w = db.world in
      elim (lookup sql w.cache) [
        | some stmt ↦ (
          some stmt,
          record db {
            world = record w {
              handle = L.clear_bindings stmt (L.reset stmt w.handle);
              cache = used sql w.cache;
            };
          },
        )
        | none ↦
            let (prepared, h) = L.prepare sql w.handle in
            elim prepared [
              | none ↦
                  (none, set_err_msg (record db { world = record w { handle = h } }) (L.errmsg h))
              | some stmt ↦ (
                some stmt,
                record db { world = cache_put served (record w { handle = h }) sql stmt },
              )
            ]
      ]

  -- `sqlite_cleanup_stmt`
  unfoldable pub cleanup_stmt : Db (Conn H) → Text → Db (Conn H)
  cleanup_stmt db sql =
      let w = db.world in
      elim (lookup sql w.cache) [
        | none ↦ db
        | some s ↦ record db {
          world = record w { handle = L.finalize s w.handle; cache = without sql w.cache };
        }
      ]

  abbrev pub with_handle : Db (Conn H) → H → Db (Conn H)
  with_handle db h = record db { world = record db.world { handle = h } }

  -- `sqlite_exec`
  unfoldable pub exec : Bool → Text → List Value → Db (Conn H) → Err × Db (Conn H)
  exec served sql params db =
      let (got, db₁) = get_stmt served db sql in
      elim got [
        | none ↦ (err_backend, db₁)
        | some stmt ↦
            let (rc, h) = L.step stmt (bind_params stmt 0 params db₁.world.handle) in
            elim rc [
              | step_error ↦
                  (err_backend, cleanup_stmt (set_err_msg (with_handle db₁ h) (L.errmsg h)) sql)
              | step_done ↦ (ok, with_handle db₁ h)
              | step_row ↦ (ok, with_handle db₁ h)
            ]
      ]

  unfoldable pub begin : Bool → Db (Conn H) → Err × Db (Conn H)
  begin served db = exec served (codes "BEGIN TRANSACTION") [] db

  unfoldable pub commit : Bool → Db (Conn H) → Err × Db (Conn H)
  commit served db = exec served (codes "COMMIT") [] db

  unfoldable pub rollback : Bool → Db (Conn H) → Err × Db (Conn H)
  rollback served db = exec served (codes "ROLLBACK") [] db

  -- `sqlite_ping` on an open connection.
  unfoldable pub ping : Db (Conn H) → Err × Db (Conn H)
  ping db =
      let (fine, h) = L.run (codes "SELECT 1") db.world.handle in
      ((if fine then ok else err_backend), with_handle db h)

  unfoldable pub last_id : Db (Conn H) → ℤ
  last_id db = L.last_insert_rowid db.world.handle

  unfoldable pub affected : Db (Conn H) → ℤ
  affected db = L.changes db.world.handle
