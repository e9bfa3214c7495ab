-- ===== src/Server/Tests.antt =====
-- Connection strings, read with a decimal reader for atoi.
use corm.Base.{◌≡◌, refl, arith, ap, some, Text, codes, ℤ, pos, show, read, read-show}
use corm.Server.{mysql_defaults, read_server}
use corm.Server.Address.{read_server_lem}

abbrev decimal : Text → ℤ
decimal t = pos (read 0 t)

-- A name of two letters keeps the end of `root`.
read_server_lem_example :
    read_server decimal mysql_defaults (codes "me:pw@db:33/app")
    ≡ some (record {
      user = codes "meot";
      pass = codes "pw";
      host = codes "db";
      port = pos 33;
      dbname = codes "app";
    })
unfolding show
read_server_lem_example =
    read_server_lem decimal (λ n _. ap pos (read-show n)) mysql_defaults (codes "me") (codes "pw")
      (codes "db") 33 (codes "app") refl refl refl refl refl (omega arith) (omega arith)
      (omega arith) (omega arith) (omega arith) (omega arith)
