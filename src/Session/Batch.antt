-- ===== src/Session/Batch.antt =====
-- The batch calls of src/query.c: `corm_create_batch`, `corm_update_batch` and `corm_delete_batch`.
-- A C array of records is the list of their memories. The rows of one INSERT are built in one loop.
pub mod Atomic
pub mod Insert
pub mod Progress
use corm.Base.{
  ℕ, zero, suc, ◌+◌, Bool, true, false, not, List, [], ◌∷◌, ◌++◌, Option, none, some, if◌then◌else◌,
  first_that, length, take, drop, Text, codes, ℤ, pos, ◌+ℤ◌, negsuc, Err, ok, err_null,
  err_mismatch, err_nomem, is_ok, BackendType,
}
use corm.Model.{Model, Field, name_of, has_flag, flag_primary, flag_autoinc}
use corm.Model.Memory.{Memory, Abi, get_value}
use corm.Dialect.{placeholder_str}
use corm.Value.{deleted_mark}
use corm.Query.{Query, new, and_where, bind, set_field}
use corm.Builder.{qident, comma, insert_columns}
use corm.Session.{Db, Backend, Hooks}
use corm.Session.Crud.{bind_record, soft_delete_field, update_internal, delete_internal}

abbrev pub primary_field : Model → Option Field
primary_field model = first_that (has_flag flag_primary) model.fields

abbrev pub is_inserted : Field → Bool
is_inserted f = not (has_flag flag_autoinc f)

-- The placeholders of one row, from the index `param_idx`; `fi` counts those written.
unfoldable pub row_placeholders : Text → BackendType → ℕ → ℕ → List Field → Text × ℕ
row_placeholders sql bt fi param_idx [] = (sql, param_idx)
row_placeholders sql bt fi param_idx (f ∷ fs) =
    if has_flag flag_autoinc f
    then row_placeholders sql bt fi param_idx fs
    else row_placeholders (comma sql fi ++ placeholder_str bt param_idx 16) bt (fi + 1)
        (param_idx + 1) fs

module _ (abi : Abi) where
  -- The rows `(p, p), (p, p)` of one statement, and their values bound to its query.
  unfoldable pub batch_rows :
      Text → BackendType → ℕ → ℕ → Query → List Field → List Memory → Text × Query
  unfolding row_placeholders
  batch_rows sql bt r param_idx q fs [] = (sql, q)
  batch_rows sql bt r param_idx q fs (m ∷ ms) =
      let (row, idx) = row_placeholders (comma sql r ++ codes "(") bt 0 param_idx fs in
      batch_rows (row ++ codes ")") bt (r + 1) idx (bind_record abi q m fs) fs ms

-- `INSERT INTO t (c, c) VALUES `
unfoldable pub batch_head : BackendType → Model → Text
unfolding qident insert_columns
batch_head bt model =
    insert_columns (qident (codes "INSERT INTO ") bt (name_of model.table_name) ++ codes " (") bt 0
      model.fields
    ++ codes ") VALUES "

-- The caller's size of a batch; 0 and less stand for 100.
abbrev pub effective_size : ℤ → ℕ
effective_size (pos zero) = 100
effective_size (pos (suc n)) = suc n
effective_size (negsuc n) = 100

module _ {W : Type 0} (B : Backend W) (hooks : Hooks W) (abi : Abi) (model : Model) where
  -- One statement for the records of one batch. `memory` tells whether its query is allocated, and to which
  -- capacities the parameters of an allocated one can grow.
  unfoldable pub insert_chunk : Option (ℕ → Bool) → List Memory → Db W → Err × Db W
  unfolding batch_head
  insert_chunk none chunk db = (err_nomem, db)
  insert_chunk (some realloc) chunk db =
      let (sql, q) =
        batch_rows abi (batch_head B.type model) B.type 0 0 (new realloc (some B.type) model)
          model.fields chunk in
      B.exec sql q.params db

  -- The loop over the batches, on fuel; it ends when there are no records left. `memory` tells
  -- of the query behind so many records.
  unfoldable pub create_loop :
      (ℕ → Option (ℕ → Bool)) → ℕ → ℕ → ℕ → List Memory → Db W → Err × ℕ × Db W
  create_loop memory zero size total recs db = (ok, total, db)
  create_loop memory (suc fuel) size total [] db = (ok, total, db)
  create_loop memory (suc fuel) size total (m ∷ ms) db =
      let (err, db₁) = insert_chunk (memory total) (take size (m ∷ ms)) db in
      let rest =
        create_loop memory fuel size (total + length (take size (m ∷ ms))) (drop size (m ∷ ms))
          db₁ in
      if is_ok err then rest else (err, total, db₁)

  -- The error, `*inserted_count` where it is written, and the session.
  unfoldable pub create_batch :
      (ℕ → Option (ℕ → Bool)) → ℤ → List Memory → Db W → Err × Option ℕ × Db W
  create_batch memory batch_size [] db = (err_null, none, db)
  create_batch memory batch_size (m ∷ ms) db = elim (first_that is_inserted model.fields) [
    | none ↦ (err_mismatch, none, db)
    | some _ ↦
        let (err, total, db') =
          create_loop memory (length (m ∷ ms)) (effective_size batch_size) 0 (m ∷ ms) db in
        (err, some total, db')
  ]

  -- `field = ?` for the primary key, written without quotes, and the record's key bound to it.
  abbrev pub where_key : Query → Field → Memory → Query
  where_key q pk m = bind (and_where q (name_of pk.name ++ codes " = ?")) (get_value abi m pk)

  -- Every field that is not PRIMARY is assigned the record's value.
  unfoldable pub set_fields : Query → Memory → List Field → Query
  set_fields q m [] = q
  set_fields q m (f ∷ fs) =
      set_fields (if has_flag flag_primary f then q else set_field q f.name (get_value abi m f)) m
        fs

  -- `memory` tells of the query of a record, as above.
  unfoldable pub update_record :
      (memory : Option (ℕ → Bool)) → Field → Memory → Db W → Err × Option ℤ × Query × Db W
  unfolding set_fields
  update_record none pk m db = (err_nomem, none, new (λ _. false) (some B.type) model, db)
  update_record (some realloc) pk m db =
      update_internal B hooks abi
        (where_key (set_fields (new realloc (some B.type) model) m model.fields) pk m) (some m) db

  -- With a soft-delete field the record is marked by an update, without it deleted.
  unfoldable pub delete_record :
      (memory : Option (ℕ → Bool)) → Field → Memory → Db W → Err × Option ℤ × Query × Db W
  delete_record none pk m db = (err_nomem, none, new (λ _. false) (some B.type) model, db)
  delete_record (some realloc) pk m db =
      let q = new realloc (some B.type) model in
      elim (soft_delete_field q) [
        | some f ↦
            update_internal B hooks abi (where_key (set_field q f.name deleted_mark) pk m) (some m)
              db
        | none ↦ delete_internal B hooks abi (where_key q pk m) (some m) db
      ]

  abbrev pub affected_of : Option ℤ → ℤ
  affected_of none = pos 0
  affected_of (some n) = n

  -- The loop over the records: it stops at the first error, and adds up the rows on the way.
  unfoldable pub record_loop :
      (ℕ → Memory → Db W → Err × Option ℤ × Query × Db W)
      → ℕ
      → ℤ
      → List Memory
      → Db W
      → Err × ℤ × Db W
  record_loop step i total [] db = (ok, total, db)
  record_loop step i total (m ∷ ms) db =
      let (err, aff, _, db₁) = step i m db in
      let rest = record_loop step (i + 1) (total +ℤ affected_of aff) ms db₁ in
      if is_ok err then rest else (err, total +ℤ affected_of aff, db₁)

  -- The loop between a begin and a rollback or a commit, whose own results are not read.
  unfoldable pub in_transaction :
      (ℕ → Memory → Db W → Err × Option ℤ × Query × Db W)
      → List Memory
      → Db W
      → Err × Option ℤ × Db W
  unfolding record_loop
  in_transaction step recs db =
      let (_, db₁) = B.begin db in
      let (err, total, db₂) = record_loop step 0 (pos 0) recs db₁ in
      let (_, db₃) = if is_ok err then B.commit db₂ else B.rollback db₂ in (err, some total, db₃)

  -- The guards of both: some record, and a primary key.
  abbrev pub with_key : List Memory → Db W → (Field → Err × Option ℤ × Db W) → Err × Option ℤ × Db W
  with_key [] db k = (err_null, none, db)
  with_key (_ ∷ _) db k = elim (primary_field model) [
    | none ↦ (err_mismatch, none, db)
    | some pk ↦ k pk
  ]

  unfoldable pub update_batch : (ℕ → Option (ℕ → Bool)) → List Memory → Db W → Err × Option ℤ × Db W
  unfolding update_record in_transaction
  update_batch memory recs db =
      with_key recs db (λ pk. in_transaction (λ i. update_record (memory i) pk) recs db)

  unfoldable pub delete_batch : (ℕ → Option (ℕ → Bool)) → List Memory → Db W → Err × Option ℤ × Db W
  unfolding delete_record in_transaction
  delete_batch memory recs db =
      with_key recs db (λ pk. in_transaction (λ i. delete_record (memory i) pk) recs db)
