-- ===== src/Server.antt =====
-- The connection strings of mysql_open (src/backend/mysql.c) and pg_open (src/backend/postgres.c): the
-- same parser with other defaults, `[user[:pass]@]host[:port][/dbname]` in buffers of 256 bytes. `none`
-- stands for a write behind the end of a buffer, or a read of one without a NUL. `atoi` is the C library's.
pub mod Address
mod Tests
use corm.Base.{
  ℕ, ◌+◌, ◌-◌, Bool, true, false, ◌&&◌, List, [], ◌∷◌, ◌++◌, Option, none, some, if◌then◌else◌, ltb,
  leb, length, take, drop, Text, codes, nonempty, ℤ, pos, show_int,
}
use corm.Builder.{split_at}

-- The five variables that the code fills.
pub record Server : Type 0 where
  pub user : Text
  pub pass : Text
  pub host : Text
  pub port : ℤ
  pub dbname : Text

abbrev pub mysql_defaults : Server
mysql_defaults = record {
  user = codes "root";
  pass = [];
  host = codes "127.0.0.1";
  port = pos 3306;
  dbname = [];
}

abbrev pub pg_defaults : Server
pg_defaults = record {
  user = [];
  pass = [];
  host = codes "localhost";
  port = pos 5432;
  dbname = [];
}

-- `strncpy(dst, src, n)` of `n` characters without a NUL over a text in a zeroed buffer.
unfoldable pub overlay : Text → Text → Text
overlay src dst = src ++ drop (length src) dst

-- The part in front of the `@`.
unfoldable pub read_user : Server → Text → Option Server
read_user s buf = elim (split_at b':' buf) [
  | some (name, secret) ↦
      if ltb (length name) 256
      then some (record s { user = overlay name s.user; pass = take 255 secret })
      else none
  | none ↦ some (record s { user = take 255 buf })
]

-- `*hcolon = '\0'; port = atoi(hcolon + 1);`
unfoldable pub split_port : (Text → ℤ) → Server → Server
split_port atoi s = elim (split_at b':' s.host) [
  | some (name, number) ↦ record s { host = name; port = atoi number }
  | none ↦ s
]

-- `host[:port][/dbname]`
unfoldable pub read_host : (Text → ℤ) → Server → Text → Option Server
read_host atoi s p = elim (split_at b'/' p) [
  | some (before, behind) ↦ some (
      split_port atoi (record s {
        dbname = take 255 behind;
        host = (if ltb 0 (length before) && ltb (length before) 256 then before else s.host);
      }))
  | none ↦ elim (split_at b':' p) [
    | some (name, number) ↦
        if ltb (length name) 256 then some (record s { host = name; port = atoi number }) else none
    | none ↦ some (record s { host = take 255 p })
  ]
]

-- The parser, from the defaults.
unfoldable pub read_server : (Text → ℤ) → Server → Text → Option Server
read_server atoi defaults dsn =
    if ltb (length dsn) 1023
    then elim (split_at b'@' dsn) [
      | some (login, rest) ↦ elim (read_user defaults login) [
        | none ↦ none
        | some s ↦ read_host atoi s rest
      ]
      | none ↦ read_host atoi defaults dsn
    ]
    else none

-- `p += snprintf(p, sizeof(conninfo) - (p - conninfo), …)`: what the buffer of 1024 bytes holds, and how far `p`
-- has come; behind the end of the buffer the size wraps.
unfoldable pub append_info : Option (Text × ℕ) → Text → Option (Text × ℕ)
append_info none piece = none
append_info (some (text, p)) piece =
    if leb p 1024 then some (text ++ take (1024 - p - 1) piece, p + length piece) else none

-- `if (s[0]) p += snprintf(…)`
unfoldable pub append_field : Option (Text × ℕ) → Text → Text → Option (Text × ℕ)
append_field info keyword value =
    if nonempty value then append_info info (keyword ++ value) else info

-- What `pg_open` hands to PQconnectdb.
unfoldable pub conninfo : Server → Option (Text × ℕ)
conninfo s =
    let base =
      append_info (some ([], 0))
        (codes "host=" ++ (s.host ++ (codes " port=" ++ show_int s.port))) in
    append_field
      (append_field (append_field base (codes " dbname=") s.dbname) (codes " user=") s.user)
      (codes " password=") s.pass

-- The parser as `mysql_open` has it.
unfoldable pub mysql_server : (Text → ℤ) → Text → Option Server
mysql_server atoi dsn = read_server atoi mysql_defaults dsn

-- The parser and the keywords as `pg_open` has them.
unfoldable pub pg_conninfo : (Text → ℤ) → Text → Option (Text × ℕ)
pg_conninfo atoi dsn = elim (read_server atoi pg_defaults dsn) [ none ↦ none | some s ↦ conninfo s ]
