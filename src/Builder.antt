-- ===== src/Builder.antt =====
-- src/builder.c: the SQL text of a query. A loop that appends to the buffer takes the text so far.
pub mod Marks
pub mod Insert
pub mod Update
pub mod Collision
mod Tests
use corm.Base.{
  ℕ, zero, suc, ◌+◌, ◌-◌, Bool, true, false, ◌||◌, List, [], ◌∷◌, ◌++◌, Option, none, some, ltb,
  ◌==◌, if◌then◌else◌, length, Text, codes, nonempty, ℤ, is_positive, show_int, Err, ok,
  BackendType, sqlite, mysql, postgres, count_char,
}
use corm.Dialect.{quote}
use corm.Dialect.Placeholder.{placeholder}
use corm.Model.{Field, name_of, has_flag, flag_autoinc, flag_primary}
use corm.Query.{Query, QueryOp, op_select, op_insert, op_update, op_delete}

-- `qident`
unfoldable pub qident : Text → BackendType → Text → Text
qident sql bt name = sql ++ (quote bt name ++ (name ++ quote bt name))

-- `strchr`: the text before the first `c` and the text behind it.
unfoldable pub split_at : ℕ → Text → Option (Text × Text)
split_at c [] = none
split_at c (x ∷ xs) =
    if x == c
    then some ([], xs)
    else elim (split_at c xs) [ none ↦ none | some (before, behind) ↦ some (x ∷ before, behind) ]

-- The loop of `append_with_placeholders`; a text of n characters takes at most n + 1 rounds.
unfoldable pub placeholder_loop : ℕ → Text → BackendType → Text → ℕ → Text × ℕ
placeholder_loop zero sql bt text pi = (sql, pi)
placeholder_loop (suc fuel) sql bt [] pi = (sql, pi)
placeholder_loop (suc fuel) sql bt (c ∷ cs) pi = elim (split_at b'?' (c ∷ cs)) [
  | none ↦ (sql ++ (c ∷ cs), pi)
  | some (before, behind) ↦
      placeholder_loop fuel (sql ++ (before ++ placeholder bt pi)) bt behind (pi + 1)
]

-- The text with its placeholders, and how many there are.
unfoldable pub append_with_placeholders : Text → BackendType → Text → ℕ → Text × ℕ
append_with_placeholders sql bt text start_index =
    let (sql', pi) = placeholder_loop (length text + 1) sql bt text start_index in
    (sql', pi - start_index)

-- `if (count > 0) append(", ")`
abbrev pub comma : Text → ℕ → Text
comma sql count = if ltb 0 count then sql ++ codes ", " else sql

-- INSERT: the names of the fields that are not AUTOINC, and a placeholder for each.
unfoldable pub insert_columns : Text → BackendType → ℕ → List Field → Text
insert_columns sql bt count [] = sql
insert_columns sql bt count (f ∷ fs) = elim (has_flag flag_autoinc f) [
  | true ↦ insert_columns sql bt count fs
  | false ↦ insert_columns (qident (comma sql count) bt (name_of f.name)) bt (count + 1) fs
]

unfoldable pub insert_placeholders : Text → BackendType → ℕ → List Field → Text
insert_placeholders sql bt j [] = sql
insert_placeholders sql bt j (f ∷ fs) = elim (has_flag flag_autoinc f) [
  | true ↦ insert_placeholders sql bt j fs
  | false ↦ insert_placeholders (comma sql j ++ placeholder bt j) bt (j + 1) fs
]

-- UPDATE with no SET clause: an assignment for each field that is not PRIMARY.
unfoldable pub update_columns : Text → BackendType → ℕ → List Field → Text
update_columns sql bt count [] = sql
update_columns sql bt count (f ∷ fs) = elim (has_flag flag_primary f) [
  | true ↦ update_columns sql bt count fs
  | false ↦
      update_columns
        (qident (comma sql count) bt (name_of f.name) ++ (codes " = " ++ placeholder bt count)) bt
        (count + 1) fs
]

unfoldable pub count_non_primary : List Field → ℕ
count_non_primary [] = 0
count_non_primary (f ∷ fs) =
    if has_flag flag_primary f then count_non_primary fs else suc (count_non_primary fs)

-- `if (clause.len > 0) appendf(" WORD %s", clause)`
abbrev pub clause : Text → Text → Text → Text
clause sql word text = if nonempty text then sql ++ (word ++ text) else sql

-- `if (q->where.len > 0)`: the WHERE clause, its placeholders numbered from `start`.
unfoldable pub where_sql : Text → BackendType → Text → ℕ → Text
where_sql sql bt condition start =
    if nonempty condition
    then (append_with_placeholders (sql ++ codes " WHERE ") bt condition start).0
    else sql

abbrev pub table_of : Query → Text
table_of q = name_of q.model.table_name

-- `if (q->limit > 0 || q->offset > 0)`
unfoldable pub limit_sql : Text → ℤ → ℤ → Text
limit_sql sql limit offset =
    if is_positive limit || is_positive offset
    then (let limited = sql ++ (codes " LIMIT " ++ show_int limit) in
        if is_positive offset then limited ++ (codes " OFFSET " ++ show_int offset) else limited)
    else sql

unfoldable pub select_sql : Query → Text → BackendType → Text
select_sql q sql bt =
    let verb = sql ++ (if q.distinct then codes "SELECT DISTINCT " else codes "SELECT ") in
    let columns = verb ++ (if nonempty q.select_cols then q.select_cols else codes "*") in
    let from = qident (columns ++ codes " FROM ") bt (table_of q) in
    let joined = clause from (codes " ") q.joins in
    let filtered = where_sql joined bt q.where_clause 0 in
    let grouped = clause filtered (codes " GROUP BY ") q.group in
    let having = clause grouped (codes " HAVING ") q.having in
    let ordered = clause having (codes " ORDER BY ") q.order in limit_sql ordered q.limit q.offset

-- PostgreSQL returns the key, which `last_insert_id` reads.
unfoldable pub returning_sql : Text → BackendType → Option Field → Text
returning_sql sql postgres (some pk) =
    qident (sql ++ codes " RETURNING ") postgres (name_of pk.name)
returning_sql sql bt pk = sql

unfoldable pub insert_sql : Query → Text → BackendType → Text
insert_sql q sql bt =
    let into = qident (sql ++ codes "INSERT INTO ") bt (table_of q) ++ codes " (" in
    let columns = insert_columns into bt 0 q.model.fields ++ codes ") VALUES (" in
    let values = insert_placeholders columns bt 0 q.model.fields ++ codes ")" in
    returning_sql values bt q.model.primary_key

unfoldable pub update_sql : Query → Text → BackendType → Text
update_sql q sql bt =
    let verb = qident (sql ++ codes "UPDATE ") bt (table_of q) ++ codes " SET " in
    let assigned =
      if nonempty q.set_clause
      then (append_with_placeholders verb bt q.set_clause 0).0
      else update_columns verb bt 0 q.model.fields in
    let where_offset =
      if nonempty q.set_clause
      then count_char b'?' q.set_clause
      else count_non_primary q.model.fields in
    where_sql assigned bt q.where_clause where_offset

unfoldable pub delete_sql : Query → Text → BackendType → Text
delete_sql q sql bt =
    where_sql (qident (sql ++ codes "DELETE FROM ") bt (table_of q)) bt q.where_clause 0

-- `corm_build_sql`; the error behind the switch is for an `op` outside the enumeration.
unfoldable pub build_sql : Query → Text → BackendType → Err × Text
build_sql q sql bt = elim q.op [
  | op_select ↦ (ok, select_sql q sql bt)
  | op_insert ↦ (ok, insert_sql q sql bt)
  | op_update ↦ (ok, update_sql q sql bt)
  | op_delete ↦ (ok, delete_sql q sql bt)
]
