-- ===== src/Postgres/Opening.antt =====
-- Opening and closing the driver of src/backend/postgres.c. Of the session only the connection and the
-- message of the last error are kept. `none` is a write behind a buffer of the parser (Server.antt).
use corm.Base.{
  ℕ, zero, suc, ◌+◌, ◌*◌, ◌<◌, ◌≤◌, ◌≡◌, refl, ap, ◌∙◌, [], ◌∷◌, ◌++◌, List, Option, none, some,
  ◌>>=◌, if◌then◌else◌, length, drop, Text, show, ℤ, pos, append-nil, count_char, Err, ok,
  err_backend,
}
use corm.Server.{Server, pg_defaults, read_server, pg_conninfo}
use corm.Server.Address.{formatted, info_text, read_server_lem, conninfo_lem}
use corm.Session.{Db, set_err_msg}
use corm.Postgres.{Library}

-- `PQconnectdb`, which always gives a handle, and `PQescapeStringConn`.
pub record Connect (H : Type 0) : Type 0 where
  pub connectdb : Text → H
  pub escape_string : Text → H → Text

-- `db->conn`, and what PQfinish has been called with, newest first.
pub record Link (H : Type 0) : Type 0 where
  pub conn : Option H
  pub finished : List H

module _ {H : Type 0} (C : Connect H) where
  -- `pg_close`
  unfoldable pub close : Db (Link H) → Err × Db (Link H)
  close db = elim db.world.conn [
    | none ↦ (ok, db)
    | some handle ↦
        (ok, record db { world = record { conn = none; finished = handle ∷ db.world.finished } })
  ]

  -- `pg_escape` into a place that is large enough: its result, and what is written there.
  unfoldable pub escape : Option H → Text → ℕ × Option Text
  escape none src = (length src * 2 + 1, none)
  escape (some handle) src =
      let escaped = C.escape_string src handle in (length escaped, some escaped)

  module _ (L : Library H) (atoi : Text → ℤ) where
    -- `pg_open` behind the string of keywords.
    abbrev pub connect : Text → Db (Link H) → Err × Db (Link H)
    connect info db =
        let handle = C.connectdb info in
        if L.status_ok handle
        then (ok, record db { world = record db.world { conn = some handle } })
        else (
          err_backend,
          record (set_err_msg db (L.error_message handle)) {
            world = record db.world { finished = handle ∷ db.world.finished };
          },
        )

    -- `pg_open`
    unfoldable pub open_link : Text → Db (Link H) → Option (Err × Db (Link H))
    open_link dsn db = do info ← pg_conninfo atoi dsn; some (connect info.0 db)

drop_all : (n : ℕ) → drop {A = ℕ} n [] ≡ []
drop_all zero = refl
drop_all (suc n) = refl

module _ {H : Type 0} (C : Connect H) (L : Library H) (atoi : Text → ℤ)
    (atoi-show : (n : ℕ) → n < 2_147_483_648 → atoi (show n) ≡ pos n) where
  -- With a connection string `user:pass@host:port/dbname` whose parts fit their buffers, whose user has no `:`,
  -- whose host no `:` or `/`, whose user and password no `@`, and whose port is an int, where atoi reads what
  -- decimal notation writes, and where all keywords and values together are shorter than the buffer of 1024
  -- bytes: pg_open calls PQconnectdb with `host=`, the host, ` port=`, the port in decimal notation, then `
  -- dbname=` and the database, ` user=` and the user, ` password=` and the password, each of these three only
  -- where it is not empty; the host is there even when it is empty, and no value is quoted. If libpq connects,
  -- it returns CORM_OK, and the session has that connection; else it returns CORM_ERR_BACKEND, the handle is
  -- finished, and the session's connection is what it was.
  pub open_link_lem :
      (user pass host : Text) (port : ℕ) (dbname : Text) (db : Db (Link H))
      → count_char b':' user ≡ 0
      → count_char b'@' user ≡ 0
      → count_char b'@' pass ≡ 0
      → count_char b':' host ≡ 0
      → count_char b'/' host ≡ 0
      → length user < 256
      → length pass ≤ 255
      → length (host ++ (b':' ∷ show port)) < 256
      → length dbname ≤ 255
      → port < 2_147_483_648
      → length (formatted user pass host port dbname) < 1023
      → length (
          info_text
            (record { user = user; pass = pass; host = host; port = pos port; dbname = dbname }))
        < 1024
      → let handle = C.connectdb (
          info_text
            (record { user = user; pass = pass; host = host; port = pos port; dbname = dbname })) in
        open_link C L atoi (formatted user pass host port dbname) db
        ≡ some (
            if L.status_ok handle
            then (ok, record db { world = record db.world { conn = some handle } })
            else (
              err_backend,
              record (set_err_msg db (L.error_message handle)) {
                world = record db.world { finished = handle ∷ db.world.finished };
              },
            ))
  unfolding open_link pg_conninfo
  open_link_lem user pass host port dbname db a b c d e f g h i j k short =
      let s : Server = record {
        user = user;
        pass = pass;
        host = host;
        port = pos port;
        dbname = dbname;
      } in
      let read : read_server atoi pg_defaults (formatted user pass host port dbname) ≡ some s =
        read_server_lem atoi atoi-show pg_defaults user pass host port dbname a b c d e f g h i j k
        ∙ ap (λ (t : Text). some (record s { user = t }))
            (ap (λ (t : Text). user ++ t) (drop_all (length user)) ∙ append-nil user) in
      let info : pg_conninfo atoi (formatted user pass host port dbname)
          ≡ some (info_text s, length (info_text s)) =
        rw (read, pg_conninfo) (conninfo_lem s short) in
      ap (λ (o : Option (Text × ℕ)). o >>= λ t. some (connect C L atoi t.0 db)) info
