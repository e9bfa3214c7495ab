-- ===== src/Mysql/Opening.antt =====
-- Opening and closing the driver of src/backend/mysql.c. Of the session only the connection, the message of
-- the last error and the destroy function of the cache are kept. `none` is a write behind a buffer of
-- the parser (Server.antt).
use corm.Base.{
  ℕ, ◌/◌, Bool, true, List, [], ◌∷◌, Option, none, some, ◌>>=◌, if◌then◌else◌, ltb, Text, codes, ℤ,
  pos, negsuc, Err, ok, err_backend, err_nomem,
}
use corm.Server.{Server, mysql_server}
use corm.Session.{Db, set_err_msg}
use corm.Mysql.{Library}

-- `mysql_init`, `mysql_options` with the timeout, and `mysql_real_connect`, whose database is NULL when the
-- name is empty.
pub record Connect (H : Type 0) : Type 0 where
  pub init : Option H
  pub connect_timeout : ℕ → H → H
  pub real_connect : Server → Option Text → H → Bool × H

-- `db->conn`, what mysql_close has been called with, newest first, and whether the cache has its
-- destroy function.
pub record Link (H : Type 0) : Type 0 where
  pub conn : Option H
  pub closed : List H
  pub has_destroy_fn : Bool

-- `timeout_ms > 0 ? timeout_ms / 1000 : 30`
unfoldable pub timeout_secs : ℤ → ℕ
timeout_secs (pos n) = if ltb 0 n then n / 1000 else 30
timeout_secs (negsuc n) = 30

-- The name, NULL when it is empty.
unfoldable pub db_name : Text → Option Text
db_name [] = none
db_name (c ∷ name) = some (c ∷ name)

module _ {H : Type 0} where
  -- `corm_mysql_close`
  unfoldable pub close : Db (Link H) → Err × Db (Link H)
  close db = elim db.world.conn [
    | none ↦ (ok, db)
    | some handle ↦ (
      ok,
      record db { world = record db.world { conn = none; closed = handle ∷ db.world.closed } },
    )
  ]

module _ {H : Type 0} (C : Connect H) (L : Library H) (timeout_ms : ℤ) where
  -- `mysql_open` behind the parser.
  abbrev pub connect : Server → Db (Link H) → Err × Db (Link H)
  connect server db = elim C.init [
    | none ↦ (err_nomem, set_err_msg db (codes "mysql_init failed"))
    | some handle ↦
        let (connected, h) =
          C.real_connect server (db_name server.dbname)
            (C.connect_timeout (timeout_secs timeout_ms) handle) in
        if connected
        then (ok, record db { world = record db.world { conn = some h; has_destroy_fn = true } })
        else (
          err_backend,
          record (set_err_msg db (L.error h)) {
            world = record db.world { closed = h ∷ db.world.closed };
          },
        )
  ]

  -- `mysql_open`
  unfoldable pub open_link : (Text → ℤ) → Text → Db (Link H) → Option (Err × Db (Link H))
  open_link atoi dsn db = do server ← mysql_server atoi dsn; some (connect server db)
