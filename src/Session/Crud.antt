-- ===== src/Session/Crud.antt =====
-- The executing half of src/query.c: find, create, update and delete on one query. Each call returns
-- its error first, then its outputs, then the query and the session as it leaves them.
pub mod Create
pub mod SoftDelete
pub mod Count
pub mod Calls
use corm.Base.{
  ℕ, zero, suc, Bool, true, false, not, ◌||◌, List, [], ◌∷◌, ◌++◌, Option, none, some,
  if◌then◌else◌, first_that, length, take, min, ltb, Text, codes, text_eq, ℤ, pos, negsuc,
  is_positive, Err, ok, err_nomem, err_notfound, err_null, is_ok,
}
use corm.Model.{Model, Field, name_of, has_flag, flag_soft_delete, flag_autoinc}
use corm.Model.Memory.{Memory, Abi, get_value, set_value}
use corm.Value.{Value, deleted_mark}
use corm.Result.{Result, zero_value}
use corm.Query.{
  Query, op_select, op_insert, op_update, op_delete, set_op, backend_type, where_null, set_field,
  bind, new, and_where, select, set_limit, set_offset,
}
use corm.Builder.{build_sql}
use corm.Session.{Db, Backend, Hook, Hooks}

-- The first field with the soft-delete flag.
abbrev pub soft_delete_field : Query → Option Field
soft_delete_field q = first_that (has_flag flag_soft_delete) q.model.fields

-- `corm_find` adds `field IS NULL` for it, unless the query is unscoped.
unfoldable pub scoped : Query → Query
scoped q =
    if q.unscoped then q else elim (soft_delete_field q) [ none ↦ q | some f ↦ where_null q f.name ]

-- The cell of the first column with the name.
unfoldable pub cell_of : Text → List (Option Text) → List Value → Option Value
cell_of name [] cells = none
cell_of name (c ∷ cs) [] = none
cell_of name (c ∷ cs) (v ∷ vs) = if text_eq (name_of c) name then some v else cell_of name cs vs

module _ (abi : Abi) where
  -- One row into a struct: each field takes the cell of its column, if there is one.
  unfoldable pub load_row : List (Option Text) → List Value → List Field → Memory → Memory
  unfolding cell_of
  load_row columns cells [] m = m
  load_row columns cells (f ∷ fs) m =
      load_row columns cells fs
        (elim (cell_of (name_of f.name) columns cells) [ none ↦ m | some v ↦ set_value abi m f v ])

  -- `corm_create` binds the fields that are not AUTOINC.
  unfoldable pub bind_record : Query → Memory → List Field → Query
  bind_record q m [] = q
  bind_record q m (f ∷ fs) =
      bind_record (if has_flag flag_autoinc f then q else bind q (get_value abi m f)) m fs

module _ {W : Type 0} where
  -- A hook that is NULL succeeds and changes nothing.
  abbrev pub run_hook : Option (Hook W) → Hook W
  run_hook none db rec = (ok, db, rec)
  run_hook (some hook) db rec = hook db rec

abbrev pub first_row : List (List Value) → List Value
first_row [] = []
first_row (row ∷ rows) = row

-- `rows[0][0]`
abbrev pub first_cell : List Value → Value
first_cell [] = zero_value
first_cell (v ∷ vs) = v

abbrev pub rows_of : Option Result → List (List Value)
rows_of none = []
rows_of (some r) = r.rows

abbrev pub columns_of : Option Result → List (Option Text)
columns_of none = []
columns_of (some r) = r.column_names

abbrev pub no_rows : Option Result → Bool
no_rows none = true
no_rows (some r) = elim r.rows [ [] ↦ true | _ ∷ _ ↦ false ]

module _ {W : Type 0} (B : Backend W) (hooks : Hooks W) (abi : Abi) where
  unfoldable pub find : Query → Db W → Err × Option Result × Query × Db W
  unfolding scoped
  find q db =
      let q' = set_op (scoped q) op_select in
      let (built, sql) = build_sql q' [] (backend_type q') in
      if is_ok built
      then (let (err, out, db') = B.query sql q'.params db in (err, out, q', db'))
      else (built, none, q', db)

  -- `corm_first`: the first row into `rec`, then the `after_find` hook, whose error is not read.
  unfoldable pub first : Query → Memory → Db W → Err × Option Memory × Query × Db W
  unfolding load_row
  first q rec db =
      let (err, out, q', db') = find (set_offset (set_limit q (pos 1)) (pos 0)) db in
      if is_ok err
      then (if no_rows out
          then (err_notfound, some rec, q', db')
          else (let loaded =
                load_row abi (columns_of out) (first_row (rows_of out)) q.model.fields rec in
              let (_, db'', rec') = run_hook hooks.after_find db' (some loaded) in
              (ok, rec', q', db'')))
      else (err, some rec, q', db')

  abbrev pub loaded_memory : Memory → Option Memory → Memory
  loaded_memory m none = m
  loaded_memory m (some m') = m'

  unfoldable pub create : Query → Memory → Db W → Err × Option ℤ × Query × Db W
  unfolding bind_record
  create q rec db =
      let (vetoed, db₁, rec₁) = run_hook hooks.before_create db (some rec) in
      let q₁ = set_op q op_insert in
      let (built, sql) = build_sql q₁ [] (backend_type q₁) in
      let q₂ = bind_record abi q₁ (loaded_memory rec rec₁) q.model.fields in
      if is_ok vetoed
      then (if is_ok built
          then (let (err, db₂) = B.exec sql q₂.params db₁ in
              if is_ok err
              then (let (_, db₃, _) = run_hook hooks.after_create db₂ rec₁ in
                  (ok, some (B.last_insert_id db₂), q₂, db₃))
              else (err, none, q₂, db₂))
          else (built, none, q₁, db₁))
      else (vetoed, none, q, db₁)

  -- The common end of an update and a delete: the statement, the count of rows, the after-hook.
  unfoldable pub run_statement :
      Option (Hook W) → Query → Option Memory → Db W → Err × Option ℤ × Query × Db W
  run_statement after q rec db =
      let (built, sql) = build_sql q [] (backend_type q) in
      if is_ok built
      then (let (err, db₁) = B.exec sql q.params db in
          if is_ok err
          then (let (_, db₂, _) = run_hook after db₁ rec in
              (ok, some (B.rows_affected db₁), q, db₂))
          else (err, none, q, db₁))
      else (built, none, q, db)

  -- `corm_update_internal`; a NULL record is `none`.
  unfoldable pub update_internal : Query → Option Memory → Db W → Err × Option ℤ × Query × Db W
  unfolding run_statement
  update_internal q rec db =
      let (vetoed, db₁, rec₁) = run_hook hooks.before_update db rec in
      if is_ok vetoed
      then run_statement hooks.after_update (set_op q op_update) rec₁ db₁
      else (vetoed, none, q, db₁)

  unfoldable pub update : Query → Db W → Err × Option ℤ × Query × Db W
  unfolding update_internal
  update q db = update_internal q none db

  -- A delete with no soft-delete field.
  unfoldable pub hard_delete : Query → Option Memory → Db W → Err × Option ℤ × Query × Db W
  unfolding run_statement
  hard_delete q rec db =
      let (vetoed, db₁, rec₁) = run_hook hooks.before_delete db rec in
      if is_ok vetoed
      then run_statement hooks.after_delete (set_op q op_delete) rec₁ db₁
      else (vetoed, none, q, db₁)

  -- `corm_delete_internal`: with a soft-delete field it becomes an update that marks the row.
  unfoldable pub delete_internal : Query → Option Memory → Db W → Err × Option ℤ × Query × Db W
  delete_internal q rec db = elim (soft_delete_field q) [
    | some f ↦ update_internal (set_field q f.name deleted_mark) rec db
    | none ↦ hard_delete q rec db
  ]

  unfoldable pub delete : Query → Db W → Err × Option ℤ × Query × Db W
  delete q db = delete_internal q none db

  -- The integer in the first cell, 0 without a row.
  unfoldable pub first_int : Option Result → ℤ
  first_int out = if no_rows out then pos 0 else abi.as_int (first_cell (first_row (rows_of out))).v

  -- `corm_query_count` puts its own columns in for the search and the old ones back.
  unfoldable pub query_count : Query → Db W → Err × Option ℤ × Query × Db W
  query_count q db =
      let (err, out, q', db') = find (select q (codes "COUNT(*)")) db in
      let back = select q' q.select_cols in
      if is_ok err then (ok, some (first_int out), back, db') else (err, none, back, db')
