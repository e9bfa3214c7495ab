-- ===== src/Postgres/Tests.antt =====
-- The driver for PostgreSQL on a reply of one row.
use corm.Base.{
  ℕ, ap, length, show, show_int, read-show, ◌≡◌, refl, arith, if◌then◌else◌, ◌==◌, true, false, [],
  ◌∷◌, none, some, Text, codes, pos, negsuc, ℤ, inr, read, replicate, ok,
}
use corm.Dialect.{int, int64}
use corm.Value.{Value, of_int}
use corm.Result
use corm.Result.{Result, value, row_count, col_count, col_type, zero_value}
use corm.Samples.{session, plain_abi}
use corm.Session.{Db}
use corm.Postgres.{Reply, Library, Conn, text_param, exec_param, with_handle}
use corm.Postgres.Reading.{column_type, read_cell, finish_query}
use corm.Postgres.Rows.{finish_query-value}
use corm.Postgres.Opening.{Connect, Link, open_link, open_link_lem}
use corm.Postgres.Params.{little, read_decimal, exec_param-number}

-- One row with the number 7 and a NULL.
abbrev reply : Reply
reply = record {
  tuples_ok = true;
  command_ok = false;
  cmd_tuples = some [];
  ntuples = 1;
  nfields = 2;
  fname = λ _. codes "n";
  ftype = λ _. 23;
  cell = λ _ i. if i == 0 then some (codes "7") else none;
}

abbrev decimal : Text → ℤ
decimal t = pos (read 0 t)

abbrev answering : Library ℕ
answering = record {
  status_ok = λ _. true;
  exec = λ _ h. (reply, h);
  exec_params = λ _ _ h. (reply, h);
  error_message = λ _. [];
  unescape_bytea = λ s. s;
  atoi = decimal;
  strtoll = decimal;
  strtod = λ _. 0;
  print_double = λ _. [];
  int_bytes = λ z. elim z [ pos n ↦ little 8 n | negsuc n ↦ replicate 8 255 ];
  double_bytes = λ _. replicate 8 0;
}

abbrev connected : Db (Conn ℕ)
connected = session (record { handle = 0; last_insert_id_val = pos 0; rows_affected_val = pos 0 })

abbrev fresh : Result
fresh = record {
  column_names = none ∷ none ∷ [];
  column_types = int ∷ int ∷ [];
  rows = (zero_value ∷ zero_value ∷ []) ∷ [];
  current_row = negsuc 0;
  refcount = 1;
}

fresh_made : Result.new (λ _. true) 2 1 ≡ some fresh
unfolding Result.new Result.all_rows
fresh_made = refl

finish_query-value_example :
    (res : Result) × (finish_query answering (λ _. true) connected (reply, 3)
      ≡ (ok, some res, with_handle connected 3))
    × (row_count res ≡ 1)
    × (col_count res ≡ 2)
    × (col_type res (pos 0) ≡ column_type 23)
    × (value res (pos 0) (pos 0) ≡ some (read_cell answering (column_type 23) (some (codes "7"))))
finish_query-value_example =
    finish_query-value answering (λ _. true) connected reply 3 fresh 0 0 refl fresh_made
      (omega arith) (omega arith)

abbrev long : Value
long = record { type = int64; is_null = false; v = of_int (negsuc 4) }

exec_param-number_example :
    (t : Text) × (exec_param answering plain_abi long ≡ some (text_param t))
    × (read_decimal t ≡ plain_abi.as_int (of_int (negsuc 4)))
exec_param-number_example = exec_param-number answering plain_abi long refl (inr refl)

abbrev connecting : Connect ℕ
connecting = record { connectdb = λ info. length info; escape_string = λ s _. s }

abbrev closed : Db (Link ℕ)
closed = session (record { conn = none; finished = [] })

open_link_lem_example :
    open_link connecting answering decimal (codes "me:pw@db:33/app") closed
    ≡ some (ok, record closed { world = record closed.world { conn = some 46 } })
unfolding show_int show
open_link_lem_example =
    open_link_lem connecting answering decimal (λ n _. ap pos (read-show n)) (codes "me")
      (codes "pw") (codes "db") 33 (codes "app") closed refl refl refl refl refl (omega arith)
      (omega arith) (omega arith) (omega arith) (omega arith) (omega arith) (omega arith)
