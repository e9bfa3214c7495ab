-- ===== src/Postgres.antt =====
-- src/backend/postgres.c: the driver for PostgreSQL behind its connection string (Server). The calls of libpq
-- and of the C library are the parameter `Library`, over a type `H` of what stands behind a connection.
-- Copies of strings and blobs are served; `none` is a read through NULL, which C leaves undefined.
pub mod Reading
pub mod Rows
pub mod Opening
pub mod Params
mod Tests
use corm.Base.{
  ℕ, zero, suc, ◌+◌, ◌-◌, Bool, true, false, not, ◌&&◌, ◌||◌, List, [], ◌∷◌, ◌++◌, Option, none,
  some, ◌>>=◌, if◌then◌else◌, ◌==◌, leb, ltb, Text, codes, nonempty, length, ℤ, pos, is_positive,
  show_int, Err, ok, err_backend, err_nomem,
}
use corm.Dialect.{FieldType, int, int64, float, double, string, text, blob, bool}
use corm.Value.{Value, Payload}
use corm.Model.Memory.{Abi}
use corm.Session.{Db, set_err_msg}

-- One parameter of PQexecParams: the value, `none` for NULL, its length, and 0 for a text or 1 for bytes.
pub record Param : Type 0 where
  pub value : Option Text
  pub len : ℕ
  pub format : ℕ

-- What a PGresult tells. `cell` is PQgetvalue, `none` where PQgetisnull says so.
pub record Reply : Type 0 where
  pub tuples_ok : Bool
  pub command_ok : Bool
  pub cmd_tuples : Option Text
  pub ntuples : ℕ
  pub nfields : ℕ
  pub fname : ℕ → Text
  pub ftype : ℕ → ℕ
  pub cell : ℕ → ℕ → Option Text

-- The calls of libpq; then `atoi`, `strtoll`, `strtod`, the format `%.15g`, and the bytes of an int64_t and of
-- a double in memory.
pub record Library (H : Type 0) : Type 0 where
  pub status_ok : H → Bool
  pub exec : Text → H → Reply × H
  pub exec_params : Text → List Param → H → Reply × H
  pub error_message : H → Text
  pub unescape_bytea : Text → List ℕ
  pub atoi : Text → ℤ
  pub strtoll : Text → ℤ
  pub strtod : Text → ℕ
  pub print_double : ℕ → Text
  pub int_bytes : ℤ → Text
  pub double_bytes : ℕ → Text

-- What the session has for the driver.
pub record Conn (H : Type 0) : Type 0 where
  pub handle : H
  pub last_insert_id_val : ℤ
  pub rows_affected_val : ℤ

abbrev pub text_param : Text → Param
text_param s = record { value = some s; len = length s; format = 0 }

abbrev pub null_param : Param
null_param = record { value = none; len = 0; format = 0 }

-- The blob as bytes; a NULL one is SQL's NULL.
abbrev pub blob_param : Option (List ℕ) → Param
blob_param none = record { value = none; len = 0; format = 1 }
blob_param (some bytes) = record { value = some bytes; len = length bytes; format = 1 }

module _ {H : Type 0} where
  abbrev pub with_handle : Db (Conn H) → H → Db (Conn H)
  with_handle db h = record db { world = record db.world { handle = h } }

  unfoldable pub last_id : Db (Conn H) → ℤ
  last_id db = db.world.last_insert_id_val

  unfoldable pub affected : Db (Conn H) → ℤ
  affected db = db.world.rows_affected_val

module _ {H : Type 0} (L : Library H) where
  -- The id of the only row, where a statement returns one.
  unfoldable pub returned_id : Reply → ℤ → ℤ
  returned_id reply old =
      if reply.ntuples == 1 && ltb 0 reply.nfields
      then elim (reply.cell 0 0) [ none ↦ old | some s ↦ if nonempty s then L.strtoll s else old ]
      else old

  -- `pg_exec` behind the call of libpq.
  unfoldable pub finish_exec : Db (Conn H) → Reply × H → Err × Db (Conn H)
  finish_exec db (reply, h) =
      let w = db.world in
      let rows : ℤ = elim reply.cmd_tuples [ none ↦ pos 0 | some s ↦ L.atoi s ] in
      if reply.command_ok || reply.tuples_ok
      then (
        ok,
        record db {
          world = record w {
            handle = h;
            rows_affected_val = rows;
            last_insert_id_val =
                (if is_positive rows
                  then returned_id reply w.last_insert_id_val
                  else w.last_insert_id_val);
          };
        },
      )
      else (err_backend, set_err_msg (with_handle db h) (L.error_message h))

  -- `pg_ping` on an open connection.
  unfoldable pub ping : Db (Conn H) → Err
  ping db = if L.status_ok db.world.handle then ok else err_backend

module _ {H : Type 0} (L : Library H) (abi : Abi) where
  -- One parameter as `pg_exec` hands it over; the length of a NULL text cannot be taken.
  unfoldable pub exec_param : Value → Option Param
  exec_param param = if param.is_null then some null_param else elim param.type [
    | int ↦ some (text_param (show_int (abi.as_int param.v)))
    | int64 ↦ some (text_param (show_int (abi.as_int param.v)))
    | float ↦ some (text_param (L.print_double (abi.as_float param.v)))
    | double ↦ some (text_param (L.print_double (abi.as_float param.v)))
    | string ↦ (do s ← abi.as_text param.v; some (text_param s))
    | text ↦ (do s ← abi.as_text param.v; some (text_param s))
    | bool ↦ some (text_param (if abi.as_bool param.v then codes "t" else codes "f"))
    | blob ↦ some (blob_param (abi.as_blob param.v))
  ]

  -- As `pg_query` does: a number goes as its bytes in memory.
  unfoldable pub query_param : Value → Option Param
  query_param param = if param.is_null then some null_param else elim param.type [
    | int ↦ some (record { value = some (L.int_bytes (abi.as_int param.v)); len = 8; format = 1 })
    | int64 ↦ some (record { value = some (L.int_bytes (abi.as_int param.v)); len = 8; format = 1 })
    | float ↦
        some (record { value = some (L.double_bytes (abi.as_float param.v)); len = 8; format = 1 })
    | double ↦
        some (record { value = some (L.double_bytes (abi.as_float param.v)); len = 8; format = 1 })
    | string ↦ (do s ← abi.as_text param.v; some (text_param s))
    | text ↦ (do s ← abi.as_text param.v; some (text_param s))
    | bool ↦ some (text_param (if abi.as_bool param.v then codes "t" else codes "f"))
    | blob ↦ some (blob_param (abi.as_blob param.v))
  ]

  -- The loop over the parameters.
  unfoldable pub params_loop : (Value → Option Param) → List Value → Option (List Param)
  params_loop param [] = some []
  params_loop param (p ∷ ps) = do q ← param p; qs ← params_loop param ps; some (q ∷ qs)

  -- The four arrays: when the last, of the strings, is not allocated, the way out reads it all the same.
  unfoldable pub build_params :
      (strs arrays : Bool) → (Value → Option Param) → List Value → Option (Option (List Param))
  build_params strs arrays param ps =
      if strs
      then (if arrays then (do qs ← params_loop param ps; some (some qs)) else some none)
      else none

  -- `pg_exec`
  unfoldable pub exec :
      (strs arrays : Bool) → Text → List Value → Db (Conn H) → Option (Err × Db (Conn H))
  exec strs arrays sql [] db = some (finish_exec L db (L.exec sql db.world.handle))
  exec strs arrays sql (p ∷ ps) db = do
    built ← build_params strs arrays exec_param (p ∷ ps)
    elim built [
      | none ↦ some (err_nomem, db)
      | some qs ↦ some (finish_exec L db (L.exec_params sql qs db.world.handle))
    ]

  unfoldable pub begin : Db (Conn H) → Option (Err × Db (Conn H))
  begin db = exec true true (codes "BEGIN") [] db

  unfoldable pub commit : Db (Conn H) → Option (Err × Db (Conn H))
  commit db = exec true true (codes "COMMIT") [] db

  unfoldable pub rollback : Db (Conn H) → Option (Err × Db (Conn H))
  rollback db = exec true true (codes "ROLLBACK") [] db
