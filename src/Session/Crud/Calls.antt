-- ===== src/Session/Crud/Calls.antt =====
-- The calls of src/query.c that make their own query: `corm_find_all`, `corm_create_one`, `corm_find_one` and
-- `corm_count`.
use corm.Base.{
  ℕ, zero, suc, Bool, List, [], ◌∷◌, Option, none, some, if◌then◌else◌, length, take, min, Text,
  codes, ℤ, pos, negsuc, Err, ok, err_nomem, is_ok,
}
use corm.Model.{Model, Field}
use corm.Model.Memory.{Memory, Abi}
use corm.Value.{Value}
use corm.Query.{Query, new, and_where, select}
use corm.Session.{Db, Backend, Hooks}
use corm.Session.Crud.{
  load_row, run_hook, rows_of, columns_of, loaded_memory, find, first, create, first_int,
}

module _ {W : Type 0} (B : Backend W) (hooks : Hooks W) (abi : Abi) (realloc : ℕ → Bool) where
  -- A new query, with a condition if there is one.
  abbrev pub query_where : Model → Option Text → Query
  query_where model none = new realloc (some B.type) model
  query_where model (some condition) = and_where (new realloc (some B.type) model) condition

  -- The rows of `corm_find_all` into the caller's records, each followed by its hook. C writes on behind
  -- the end of a records array that is too short; here the copy stops there.
  unfoldable pub load_rows :
      List (Option Text) → List Field → List (List Value) → List Memory → Db W → List Memory × Db W
  load_rows columns fields [] recs db = (recs, db)
  load_rows columns fields (row ∷ rows) [] db = ([], db)
  load_rows columns fields (row ∷ rows) (m ∷ ms) db =
      let loaded = load_row abi columns row fields m in
      let (_, db₁, rec) = run_hook hooks.after_find db (some loaded) in
      let (recs, db₂) = load_rows columns fields rows ms db₁ in
      (loaded_memory B hooks abi loaded rec ∷ recs, db₂)

  -- How many rows are copied: all of them, or the caller's capacity if that is positive and smaller.
  unfoldable pub copy_count : Option ℤ → ℕ → ℕ
  copy_count none total = total
  copy_count (some (pos zero)) total = total
  copy_count (some (pos (suc n))) total = min (suc n) total
  copy_count (some (negsuc n)) total = total

  -- `corm_find_all`; `capacity` is `*count` and `records` the caller's array, where they are given.
  -- In this and the next three `served` says whether the query is allocated, and `realloc` how its parameters can
  -- grow.
  unfoldable pub find_all :
      (served : Bool)
      → Model
      → Option Text
      → Option ℤ
      → List Memory
      → Db W
      → Err × Option ℕ × List Memory × Db W
  find_all served model condition capacity records db =
      let (err, out, _, db₁) = find B hooks abi (query_where model condition) db in
      let rows = rows_of out in
      let n = copy_count capacity (length rows) in
      let (recs, db₂) = load_rows (columns_of out) model.fields (take n rows) records db₁ in
      if served
      then (if is_ok err
          then (ok, (elim out [ none ↦ none | some _ ↦ some n ]), recs, db₂)
          else (err, none, records, db₁))
      else (err_nomem, none, records, db)

  unfoldable pub create_one : (served : Bool) → Model → Memory → Db W → Err × Option ℤ × Db W
  create_one served model rec db =
      let (err, id, _, db') = create B hooks abi (new realloc (some B.type) model) rec db in
      if served then (err, id, db') else (err_nomem, none, db)

  unfoldable pub find_one :
      (served : Bool) → Model → Option Text → Memory → Db W → Err × Option Memory × Db W
  find_one served model condition rec db =
      let (err, rec', _, db') = first B hooks abi (query_where model condition) rec db in
      if served then (err, rec', db') else (err_nomem, some rec, db)

  -- `corm_count`: `*count` is 0 unless the statement succeeds.
  unfoldable pub count : (served : Bool) → Model → Option Text → Db W → Err × ℤ × Db W
  count served model condition db =
      let (err, out, _, db') =
        find B hooks abi (select (query_where model condition) (codes "COUNT(*)")) db in
      if served
      then (if is_ok err then (ok, first_int B hooks abi out, db') else (err, pos 0, db'))
      else (err_nomem, pos 0, db)
