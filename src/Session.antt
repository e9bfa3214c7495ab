-- ===== src/Session.antt =====
-- src/corm.c and the backend table of include/corm/backend.h: a session, its transactions and its raw
-- statements. The state that a driver keeps behind the connection is a type `W`; every driver call and
-- every hook may change the whole session. The clock is left out: only the logger is told the time.
mod Tests
pub mod Dsn
pub mod Savepoint
pub mod Backends
pub mod Crud
pub mod Batch
pub mod Opening
pub mod Init
pub mod ColumnInfo
use corm.Base.{
  ℕ, zero, suc, ◌+◌, ◌-◌, Bool, true, false, not, List, [], ◌∷◌, ◌++◌, Option, none, some,
  if◌then◌else◌, length, take, drop, ltb, leb, Text, codes, nonempty, ℤ, Err, ok, err_generic,
  err_nomem, err_notfound, err_dup, err_backend, err_type, err_null, err_bounds, err_mismatch,
  is_ok, BackendType,
}
use corm.Model.Memory.{Memory}
use corm.Result.{Result}
use corm.Value.{Value}

-- `corm_log_level_t`
pub data LogLevel : Type 0 where
  log_debug log_info log_warn log_error : LogLevel

-- `corm_t`. `logged` is what the logger has been called with, newest first.
pub record Db (W : Type 0) : Type 0 where
  pub world : W
  pub last_err : Err
  pub err_msg : Text
  pub err_sql : Text
  pub has_logger : Bool
  pub logged : List (LogLevel × Text)

-- `corm_backend_t`. `describe_table` may be missing; it gives the names of the columns.
pub record Backend (W : Type 0) : Type 0 where
  pub type : BackendType
  pub ping : Db W → Err × Db W
  pub exec : Text → List Value → Db W → Err × Db W
  pub query : Text → List Value → Db W → Err × Option Result × Db W
  pub begin : Db W → Err × Db W
  pub commit : Db W → Err × Db W
  pub rollback : Db W → Err × Db W
  pub last_insert_id : Db W → ℤ
  pub rows_affected : Db W → ℤ
  pub describe_table : Option (Text → Db W → Err × Option (List Text) × Db W)

-- A lifecycle hook gets the session and the record, which may be NULL, and may change both.
abbrev pub Hook : Type 0 → Type 0
Hook W = Db W → Option Memory → Err × Db W × Option Memory

-- The hooks of a model; NULL is `none`.
pub record Hooks (W : Type 0) : Type 0 where
  pub before_create : Option (Hook W)
  pub after_create : Option (Hook W)
  pub before_update : Option (Hook W)
  pub after_update : Option (Hook W)
  pub before_delete : Option (Hook W)
  pub after_delete : Option (Hook W)
  pub after_find : Option (Hook W)

-- `corm_err_string`
unfoldable pub err_string : Err → Text
err_string ok = codes "OK"
err_string err_generic = codes "Generic error"
err_string err_nomem = codes "Out of memory"
err_string err_notfound = codes "Not found"
err_string err_dup = codes "Duplicate entry"
err_string err_backend = codes "Backend error"
err_string err_type = codes "Type mismatch"
err_string err_null = codes "Null pointer"
err_string err_bounds = codes "Out of bounds"
err_string err_mismatch = codes "Mismatch"

-- `vsnprintf` into a buffer of `size` bytes, with the last three characters replaced by `...` when the
-- text does not fit: `corm_set_err_msg` and `corm_set_err_sql`.
unfoldable pub truncated : ℕ → Text → Text
truncated size s = if leb size (length s) then take (size - 4) s ++ codes "..." else s

module _ {W : Type 0} where
  unfoldable pub set_err_msg : Db W → Text → Db W
  unfolding truncated
  set_err_msg db s = record db { err_msg = truncated 512 s }

  unfoldable pub set_err_sql : Db W → Text → Db W
  unfolding truncated
  set_err_sql db s = record db { err_sql = truncated 1024 s }

  -- The end of `corm_exec`, `corm_exec_params` and `corm_raw`: the error is kept and logged.
  unfoldable pub note_outcome : Text → Err × Db W → Err × Db W
  unfolding set_err_sql
  note_outcome sql (err, db) =
      let kept = record db { last_err = err } in
      let with_sql = if is_ok err then kept else set_err_sql kept sql in
      let level = if is_ok err then log_info else log_error in
      (
        err,
        (if with_sql.has_logger
            then record with_sql { logged = (level, sql) ∷ with_sql.logged }
            else with_sql),
      )

  -- `corm_last_error`: the error and its text, cut to the caller's buffer.
  unfoldable pub last_error : Db W → ℕ → Err × Text
  unfolding err_string
  last_error db bufsz =
      let msg = if nonempty db.err_msg then db.err_msg else codes "no details" in
      let sql = if nonempty db.err_sql then db.err_sql else codes "none" in
      (
        db.last_err,
        take (bufsz - 1) (
            err_string db.last_err
            ++ (codes ": " ++ (msg ++ (codes " (SQL: " ++ (sql ++ codes ")"))))),
      )

  unfoldable pub set_logger : Db W → Bool → Db W
  set_logger db present = record db { has_logger = present }

module _ {W : Type 0} (B : Backend W) where
  unfoldable pub exec : Db W → Text → Err × Db W
  unfolding note_outcome
  exec db sql = note_outcome sql (B.exec sql [] db)

  unfoldable pub exec_params : Db W → Text → List Value → Err × Db W
  unfolding note_outcome
  exec_params db sql params = note_outcome sql (B.exec sql params db)

  unfoldable pub raw : Db W → Text → Err × Option Result × Db W
  unfolding note_outcome
  raw db sql =
      let (err, out, db') = B.query sql [] db in
      let (e, db'') = note_outcome sql (err, db') in (e, out, db'')

  -- `corm_ping`, `corm_begin`, `corm_commit` and `corm_rollback` on a session with a driver.
  unfoldable pub ping : Db W → Err × Db W
  ping db = B.ping db

  unfoldable pub begin : Db W → Err × Db W
  begin db = B.begin db

  unfoldable pub commit : Db W → Err × Db W
  commit db = B.commit db

  unfoldable pub rollback : Db W → Err × Db W
  rollback db = B.rollback db

  -- `corm_transaction`: `fn` between a begin and a commit, or a rollback when it fails.
  unfoldable pub transaction : (Db W → Err × Db W) → Db W → Err × Db W
  transaction fn db =
      let (begun, db₁) = B.begin db in
      let (err, db₂) = fn db₁ in
      if is_ok begun
      then (if is_ok err then B.commit db₂ else (let (_, db₃) = B.rollback db₂ in (err, db₃)))
      else (begun, db₁)
