-- ===== src/Mysql.antt =====
-- src/backend/mysql.c: the statements that the driver for MySQL executes. The calls of the MySQL library are
-- the parameter `Library`, over a type `H` of what stands behind a connection; a prepared statement is a
-- number. The statement cache stands as the list that its nodes represent (StmtCache/Refine).
pub mod Closed
pub mod Dangling
pub mod Opening
pub mod Describe
pub mod Reading
pub mod Rows
mod Tests
use corm.Base.{
  ℕ, Bool, true, false, List, [], ◌∷◌, ◌++◌, map, Option, none, some, if◌then◌else◌, Text, codes,
  length, ℤ, Err, ok, err_backend, err_nomem,
}
use corm.Dialect.{FieldType, int, int64, float, double, string, text, blob, bool}
use corm.Value.{Value, Payload}
use corm.Session.{Db, set_err_msg}
use corm.StmtCache.Lru.{lookup, used, roomy, stored, dropped}

abbrev pub Stmt : Type 0
Stmt = ℕ

-- `buffer_type` of a bound parameter.
pub data BufferType : Type 0 where
  type_null type_longlong type_double type_string type_tiny type_blob : BufferType

-- The calls of the MySQL library; a Bool says whether a call succeeds.
pub record Library (H : Type 0) : Type 0 where
  pub ping : H → Bool × H
  pub query : Text → H → Bool × H
  pub error : H → Text
  pub insert_id : H → ℤ
  pub affected_rows : H → ℤ
  pub stmt_init : H → Option Stmt × H
  pub stmt_prepare : Stmt → Text → H → Bool × H
  pub stmt_error : Stmt → H → Text
  pub stmt_close : Stmt → H → H
  pub stmt_bind_param : Stmt → List (BufferType × Payload) → H → Bool × H
  pub stmt_execute : Stmt → H → Bool × H
  pub stmt_insert_id : Stmt → H → ℤ
  pub stmt_affected_rows : Stmt → H → ℤ

-- What the session has for the driver. `closed` lists what `mysql_stmt_close` has been called with, newest
-- first.
pub record Conn (H : Type 0) : Type 0 where
  pub handle : H
  pub cache : List (Text × Stmt)
  pub capacity : ℕ
  pub closed : List Stmt
  pub last_insert_id_val : ℤ
  pub rows_affected_val : ℤ

-- `mysql_bind_params` for one value.
unfoldable pub binding : Value → BufferType × Payload
binding param = if param.is_null then (type_null, param.v) else elim param.type [
  | int ↦ (type_longlong, param.v)
  | int64 ↦ (type_longlong, param.v)
  | float ↦ (type_double, param.v)
  | double ↦ (type_double, param.v)
  | string ↦ (type_string, param.v)
  | text ↦ (type_string, param.v)
  | bool ↦ (type_tiny, param.v)
  | blob ↦ (type_blob, param.v)
]

module _ {H : Type 0} (L : Library H) where
  abbrev pub with_handle : Db (Conn H) → H → Db (Conn H)
  with_handle db h = record db { world = record db.world { handle = h } }

  unfoldable pub close : Db (Conn H) → Stmt → Db (Conn H)
  close db stmt = record db {
    world = record db.world {
      handle = L.stmt_close stmt db.world.handle;
      closed = stmt ∷ db.world.closed;
    };
  }

  -- The destroy function of the cache, on what it lets go.
  unfoldable pub close_all : Db (Conn H) → List Stmt → Db (Conn H)
  close_all db [] = db
  close_all db (s ∷ ss) = close_all (close db s) ss

  -- `corm_stmt_cache_put`; `served` says whether the node is allocated.
  unfoldable pub cache_put : Bool → Db (Conn H) → Text → Stmt → Db (Conn H)
  cache_put served db sql stmt =
      let w = db.world in
      let db' = close_all db (dropped w.capacity sql w.cache) in
      record db' {
        world = record db'.world {
          cache = (if served then stored w.capacity sql stmt w.cache else roomy w.capacity w.cache);
        };
      }

  -- The cached statement, or one that is prepared and cached.
  unfoldable pub get_stmt : Bool → Db (Conn H) → Text → Err × Option Stmt × Db (Conn H)
  get_stmt served db sql = elim (lookup sql db.world.cache) [
    | some stmt ↦
        (ok, some stmt, record db { world = record db.world { cache = used sql db.world.cache } })
    | none ↦
        let (made, h) = L.stmt_init db.world.handle in
        elim made [
          | none ↦
              (err_nomem, none, set_err_msg (with_handle db h) (codes "mysql_stmt_init failed"))
          | some stmt ↦
              let (prepared, h') = L.stmt_prepare stmt sql h in
              if prepared then (ok, some stmt, cache_put served (with_handle db h') sql stmt) else (
                err_backend,
                none,
                close (set_err_msg (with_handle db h') (L.stmt_error stmt h')) stmt,
              )
        ]
  ]

  -- `corm_set_err_msg(db, "%s", mysql_stmt_error(stmt)); mysql_stmt_close(stmt);`
  unfoldable pub fail_stmt : Db (Conn H) → H → Stmt → Err × Db (Conn H)
  fail_stmt db h stmt =
      (err_backend, close (set_err_msg (with_handle db h) (L.stmt_error stmt h)) stmt)

  -- `mysql_exec` behind the statement; `bound` says whether the array of parameters is allocated.
  unfoldable pub run_stmt : Bool → Db (Conn H) → Stmt → List Value → Err × Db (Conn H)
  run_stmt bound db stmt params =
      if bound
      then (let (taken, h) = L.stmt_bind_param stmt (map binding params) db.world.handle in
          let (done, h') = L.stmt_execute stmt h in
          if taken
          then (if done
              then (
                ok,
                record db {
                  world = record db.world {
                    handle = h';
                    last_insert_id_val = L.stmt_insert_id stmt h';
                    rows_affected_val = L.stmt_affected_rows stmt h';
                  };
                },
              )
              else fail_stmt db h' stmt)
          else fail_stmt db h stmt)
      else (err_nomem, close db stmt)

  -- `mysql_exec`
  unfoldable pub exec : (served bound : Bool) → Text → List Value → Db (Conn H) → Err × Db (Conn H)
  exec served bound sql [] db =
      let (done, h) = L.query sql db.world.handle in
      if done
      then (
        ok,
        record db {
          world = record db.world {
            handle = h;
            last_insert_id_val = L.insert_id h;
            rows_affected_val = L.affected_rows h;
          };
        },
      )
      else (err_backend, set_err_msg (with_handle db h) (L.error h))
  exec served bound sql (p ∷ params) db =
      let (err, got, db₁) = get_stmt served db sql in
      elim got [ none ↦ (err, db₁) | some stmt ↦ run_stmt bound db₁ stmt (p ∷ params) ]

  unfoldable pub begin : Db (Conn H) → Err × Db (Conn H)
  begin db = exec true true (codes "START TRANSACTION") [] db

  unfoldable pub commit : Db (Conn H) → Err × Db (Conn H)
  commit db = exec true true (codes "COMMIT") [] db

  unfoldable pub rollback : Db (Conn H) → Err × Db (Conn H)
  rollback db = exec true true (codes "ROLLBACK") [] db

  -- `corm_mysql_ping` on an open connection.
  unfoldable pub ping : Db (Conn H) → Err × Db (Conn H)
  ping db =
      let (alive, h) = L.ping db.world.handle in
      ((if alive then ok else err_backend), with_handle db h)

  unfoldable pub last_id : Db (Conn H) → ℤ
  last_id db = L.insert_id db.world.handle

  unfoldable pub affected : Db (Conn H) → ℤ
  affected db = L.affected_rows db.world.handle
