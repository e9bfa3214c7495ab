-- ===== src/Mysql/Rows.antt =====
-- What a result of the driver for MySQL holds.
use corm.Base.{
  ℕ, zero, suc, ◌≡◌, refl, ap, ◌∙◌, arith, Bool, true, List, [], ◌∷◌, map, Option, some, ◌>>=◌,
  length, length-map, get_elem?, ltb, replicate, Text, pos, ok,
}
use corm.Dialect.{FieldType}
use corm.Value.{Value, Payload}
use corm.Result
use corm.Result.{Result, value, row_count, col_count, col_name, col_type, zero_value}
use corm.Result.Cells.{value_at, col_type_at, get_elem?-map, ltb_of_get_elem?}
use corm.Session.{Db}
use corm.Mysql.{Library, Conn, with_handle}
use corm.Mysql.Reading.{
  FieldKind, field_to_corm_type, Meta, Stored, Results, place, read_cell, read_cells, types_of_meta,
  filled, copy_names, text_payload, simple_query, query,
}

-- As many rows as places fill them.
place_full {ℓ} :
    {A : Type ℓ} (blank : A) (rows : List A) (n : ℕ)
    → length rows ≡ n
    → place blank n rows ≡ some rows
unfolding place
place_full blank [] zero e = refl
place_full blank [] (suc n) e = absurd (omega (arith, e))
place_full blank (r ∷ rows) zero e = absurd (omega (arith, e))
place_full blank (r ∷ rows) (suc n) e =
    ap (λ (o : Option (List _)). o >>= λ rest. some (r ∷ rest))
      (place_full blank rows n (omega (arith, e)))

get_elem?-read_cells {ℓ} :
    {Cell : Type ℓ} (payload : FieldType → Cell → Payload) (types : List FieldType)
    (cells : List (Option Cell)) (col : ℕ) (t : FieldType) (c : Option Cell)
    → get_elem? types col ≡ some t
    → get_elem? cells col ≡ some c
    → get_elem? (read_cells payload types cells) col ≡ some (read_cell payload t c)
unfolding read_cells
get_elem?-read_cells payload [] cells col t c e f = absurd (cc e)
get_elem?-read_cells payload (t' ∷ types) [] col t c e f = absurd (cc f)
get_elem?-read_cells payload (t' ∷ types) (c' ∷ cells) zero t c e f = cc (e, f)
get_elem?-read_cells payload (t' ∷ types) (c' ∷ cells) (suc col) t c e f =
    get_elem?-read_cells payload types cells col t c e f

module _ {H : Type 0} (L : Library H) (R : Results H) where
  -- When a query without parameters succeeds on the server, everything is allocated, and as many rows are
  -- fetched as the stored result tells of: the query returns CORM_OK with a result of that many rows and as
  -- many columns as the server has fields, and a cell of a fetched row stands in the result at its row and
  -- column, read by the type that its field is mapped to, which is the type that the result names.
  pub query-value :
      (served bound : Bool) (allocations copied : ℕ → Bool) (strs arrays : Bool) (sql : Text)
      (db : Db (Conn H)) (meta : Meta) (stored : Stored Text) (fresh : Result) (row col : ℕ)
      (cells : List (Option Text)) (c : Option Text) (f : Text × FieldKind)
      → (L.query sql db.world.handle).0 ≡ true
      → (R.store_result (L.query sql db.world.handle).1).0 ≡ some (meta, stored)
      → Result.new allocations (length meta.fields) stored.num_rows ≡ some fresh
      → copy_names copied 0 (length meta.fields) ≡ some true
      → length stored.fetched ≡ stored.num_rows
      → get_elem? stored.fetched row ≡ some cells
      → get_elem? cells col ≡ some c
      → get_elem? meta.fields col ≡ some f
      → (res : Result) × (query L R served bound allocations copied strs arrays sql [] db
          ≡ some
              (ok, some res, with_handle L db (R.store_result (L.query sql db.world.handle).1).1))
        × (row_count res ≡ stored.num_rows)
        × (col_count res ≡ length meta.fields)
        × (col_type res (pos col) ≡ field_to_corm_type f.1)
        × (value res (pos row) (pos col)
            ≡ some (read_cell (text_payload L R) (field_to_corm_type f.1) c))
  unfolding query simple_query
  query-value served bound allocations copied strs arrays sql db meta stored fresh row col cells c f
        done got made named whole at_row at_col at_field =
      let typed =
        get_elem?-map (λ (f : Text × FieldKind). field_to_corm_type f.1) meta.fields col f
          at_field in
      (
        filled fresh meta rows,
        rw
            (
              done,
              got,
              made,
              named,
              place_full blanks rows stored.num_rows full,
              query,
              simple_query,
            )
            refl,
        full,
        length-map (λ (f : Text × FieldKind). some f.0) meta.fields,
        col_type_at (filled fresh meta rows) col _ in_cols typed,
        value_at (filled fresh meta rows) row col _ _ (ltb_of_get_elem? rows row _ read_row) in_cols
            read_row
            (get_elem?-read_cells (text_payload L R) (types_of_meta meta) cells col _ c typed
              at_col),
      )
    where
      blanks : List Value
      blanks = replicate (length meta.fields) zero_value

      rows : List (List Value)
      rows = map (read_cells (text_payload L R) (types_of_meta meta)) stored.fetched

      full : length rows ≡ stored.num_rows
      full = length-map (read_cells (text_payload L R) (types_of_meta meta)) stored.fetched ∙ whole

      read_row :
          get_elem? rows row ≡ some (read_cells (text_payload L R) (types_of_meta meta) cells)
      read_row = get_elem?-map _ stored.fetched row cells at_row

      in_cols : ltb col (length (map (λ (f : Text × FieldKind). some f.0) meta.fields)) ≡ true
      in_cols =
          ltb_of_get_elem? _ col _
            (get_elem?-map (λ (f : Text × FieldKind). some f.0) meta.fields col f at_field)
