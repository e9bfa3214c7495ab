-- ===== src/Sqlite/Columns.antt =====
-- The columns that `describe_table` of the driver for SQLite tells of.
use corm.Base.{
  ℕ, zero, suc, ◌*◌, ◌<◌, ◌≡◌, refl, ap, ◌∙◌, arith, Bool, true, List, [], ◌∷◌, ◌++◌, append-nil,
  append_assoc, some, leb, length, Bool-cases, inl, inr, Text, ok,
}
use corm.Session.{Db}
use corm.Session.ColumnInfo.{ColumnInfo}
use corm.Sqlite.{Stmt, Library, Conn, with_handle}
use corm.Sqlite.Describe.{
  Connect, read_column, describe_loop, describe_table, table_info, Rows, ended, row,
}

module _ {H : Type 0} (C : Connect H) (L : Library H) where
  describe_loop_lem :
      (grown : ℕ → Bool) (fuel : ℕ) (stmt : Stmt) (info_cap : ℕ) (infos : List ColumnInfo)
      (h last : H) (cols : List ColumnInfo)
      → Rows C L stmt last h cols
      → ((n : ℕ) → grown n ≡ true)
      → length cols < fuel
      → describe_loop C L grown fuel stmt info_cap infos h ≡ some (some (infos ++ cols), last)
  unfolding describe_loop
  describe_loop_lem grown zero stmt info_cap infos h last cols rows g enough =
      absurd (omega (arith, enough))
  describe_loop_lem grown (suc fuel) stmt info_cap infos h last _ (ended _ e at_end) g enough =
      rw (e, describe_loop, at_end, append-nil infos) refl
  describe_loop_lem grown (suc fuel) stmt info_cap infos h last _ (row _ cols e rest) g enough =
      let h' : H = (L.step stmt h).1 in
      let more : List ColumnInfo = infos ++ (read_column C L stmt h' ∷ []) in
      let fewer : length cols < fuel = omega (arith, enough) in
      let next : (larger : ℕ)
          → describe_loop C L grown fuel stmt larger more h'
            ≡ some (some (infos ++ (read_column C L stmt h' ∷ cols)), last) =
        λ larger.
          describe_loop_lem grown fuel stmt larger more h' last cols rest g fewer
          ∙ ap (λ (all : List ColumnInfo). some (some all, last))
              (append_assoc infos (read_column C L stmt h' ∷ []) cols) in
      elim (Bool-cases (leb info_cap (length infos))) [
        | inl full ↦ rw (e, describe_loop, g (length infos), full) (next (info_cap * 2))
        | inr room ↦ rw (e, describe_loop, g (length infos), room) (next info_cap)
      ]

  -- When the statement is prepared, all memory is served, and the rows that it then gives until it is done are
  -- fewer than the fuel: describing a table returns CORM_OK with the columns of exactly these rows, in
  -- their order, and finalizes the statement.
  pub describe_table_lem :
      (grown : ℕ → Bool) (fuel : ℕ) (table_name : Text) (db : Db (Conn H)) (stmt : Stmt) (last : H)
      (cols : List ColumnInfo)
      → (L.prepare (table_info (C.mprintf_w table_name)) db.world.handle).0 ≡ some stmt
      → Rows C L stmt last (L.prepare (table_info (C.mprintf_w table_name)) db.world.handle).1 cols
      → ((n : ℕ) → grown n ≡ true)
      → length cols < fuel
      → describe_table C L true grown fuel table_name db
        ≡ some (ok, cols, with_handle L db (L.finalize stmt last))
  unfolding describe_table
  describe_table_lem grown fuel table_name db stmt last cols e rows g enough =
      rw (e, describe_table, describe_loop_lem grown fuel stmt 16 [] _ last cols rows g enough) refl
