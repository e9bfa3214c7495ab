-- ===== src/Postgres/Rows.antt =====
-- What a result of the driver for PostgreSQL holds.
use corm.Base.{
  ℕ, zero, suc, ◌+◌, ◌<◌, ◌≡◌, refl, ap, Bool, true, ◌||◌, some, arith, length, get_elem?, lt→ltb,
  pos, ok,
}
use corm.Result
use corm.Result.{Result, value, row_count, col_count, col_type}
use corm.Result.Cells.{value_at, col_type_at}
use corm.Session.{Db}
use corm.Postgres.{Reply, Library, Conn, with_handle}
use corm.Postgres.Reading.{
  column_type, read_cell, read_names, read_types, read_row, read_rows, finish_query,
}

module _ {H : Type 0} (L : Library H) where
  length-read_names : (reply : Reply) (i n : ℕ) → length (read_names L reply i n) ≡ n
  unfolding read_names
  length-read_names reply i zero = refl
  length-read_names reply i (suc n) = ap suc (length-read_names reply (i + 1) n)

  length-read_rows : (reply : Reply) (r n : ℕ) → length (read_rows L reply r n) ≡ n
  unfolding read_rows
  length-read_rows reply r zero = refl
  length-read_rows reply r (suc n) = ap suc (length-read_rows reply (r + 1) n)

  get_elem?-read_row :
      (reply : Reply) (r i n k j : ℕ)
      → i + k ≡ j
      → k < n
      → get_elem? (read_row L reply r i n) k
        ≡ some (read_cell L (column_type (reply.ftype j)) (reply.cell r j))
  unfolding read_row
  get_elem?-read_row reply r i zero k j e h = absurd (omega (arith, h))
  get_elem?-read_row reply r i (suc n) zero j e h =
      ap (λ (m : ℕ). some (read_cell L (column_type (reply.ftype m)) (reply.cell r m)))
        (omega (arith, e))
  get_elem?-read_row reply r i (suc n) (suc k) j e h =
      get_elem?-read_row reply r (i + 1) n k j (omega (arith, e)) (omega (arith, h))

  get_elem?-read_types :
      (reply : Reply) (i n k j : ℕ)
      → i + k ≡ j
      → k < n
      → get_elem? (read_types L reply i n) k ≡ some (column_type (reply.ftype j))
  unfolding read_types
  get_elem?-read_types reply i zero k j e h = absurd (omega (arith, h))
  get_elem?-read_types reply i (suc n) zero j e h =
      ap (λ (m : ℕ). some (column_type (reply.ftype m))) (omega (arith, e))
  get_elem?-read_types reply i (suc n) (suc k) j e h =
      get_elem?-read_types reply (i + 1) n k j (omega (arith, e)) (omega (arith, h))

  get_elem?-read_rows :
      (reply : Reply) (r n k j : ℕ)
      → r + k ≡ j
      → k < n
      → get_elem? (read_rows L reply r n) k ≡ some (read_row L reply j 0 reply.nfields)
  unfolding read_rows
  get_elem?-read_rows reply r zero k j e h = absurd (omega (arith, h))
  get_elem?-read_rows reply r (suc n) zero j e h =
      ap (λ (m : ℕ). some (read_row L reply m 0 reply.nfields)) (omega (arith, e))
  get_elem?-read_rows reply r (suc n) (suc k) j e h =
      get_elem?-read_rows reply (r + 1) n k j (omega (arith, e)) (omega (arith, h))

  -- The result that a reply is read into.
  abbrev filled : Reply → Result → Result
  filled reply fresh = record fresh {
    column_names = read_names L reply 0 reply.nfields;
    column_types = read_types L reply 0 reply.nfields;
    rows = read_rows L reply 0 reply.ntuples;
  }

  -- When libpq reports success and the result can be allocated: the query returns CORM_OK with a result of as
  -- many rows and columns as the reply, and every cell in range is the cell of the reply, read by the
  -- type of its column, which is the type that the result names.
  pub finish_query-value :
      (allocations : ℕ → Bool) (db : Db (Conn H)) (reply : Reply) (h : H) (fresh : Result)
      (row col : ℕ)
      → (reply.tuples_ok || reply.command_ok) ≡ true
      → Result.new allocations reply.nfields reply.ntuples ≡ some fresh
      → row < reply.ntuples
      → col < reply.nfields
      → (res : Result) × (finish_query L allocations db (reply, h)
          ≡ (ok, some res, with_handle db h))
        × (row_count res ≡ reply.ntuples)
        × (col_count res ≡ reply.nfields)
        × (col_type res (pos col) ≡ column_type (reply.ftype col))
        × (value res (pos row) (pos col)
            ≡ some (read_cell L (column_type (reply.ftype col)) (reply.cell row col)))
  unfolding finish_query
  finish_query-value allocations db reply h fresh row col good made r c =
      let rows_long = length-read_rows reply 0 reply.ntuples in
      let names_long = length-read_names reply 0 reply.nfields in
      let in_rows = lt→ltb row _ (omega (arith, rows_long, r)) in
      let in_cols = lt→ltb col _ (omega (arith, names_long, c)) in
      (
        filled reply fresh,
        rw (good, made, finish_query) refl,
        rows_long,
        names_long,
        col_type_at (filled reply fresh) col _ in_cols
            (get_elem?-read_types reply 0 reply.nfields col col (omega arith) c),
        value_at (filled reply fresh) row col _ _ in_rows in_cols
            (get_elem?-read_rows reply 0 reply.ntuples row row (omega arith) r)
            (get_elem?-read_row reply row 0 reply.nfields col col (omega arith) c),
      )
