-- ===== src/Mysql/Describe.antt =====
-- `mysql_describe_table` of src/backend/mysql.c. `none` is what C leaves undefined: an escaped name that does
-- not fit its array, or a row of fewer than five cells.
use corm.Base.{
  ℕ, ◌*◌, Bool, false, not, ◌&&◌, List, [], ◌∷◌, ◌++◌, Option, none, some, ◌>>=◌, if◌then◌else◌,
  ltb, leb, length, get_elem?, take, Text, text_eq, codes, Err, ok, err_backend, err_nomem,
}
use corm.Session.{Db, set_err_msg}
use corm.Session.ColumnInfo.{ColumnInfo}
use corm.Mysql.{Library, Conn, with_handle}
use corm.Mysql.Reading.{Results}

-- What a cell of a row holds, compared with a word; a NULL cell is not compared.
unfoldable pub cell_is : (Bool → Bool) → Text → Option Text → Bool
cell_is test word none = false
cell_is test word (some s) = test (text_eq s word)

-- The column that a row of `SHOW COLUMNS` tells of.
unfoldable pub column_of : List (Option Text) → Option ColumnInfo
column_of row = do
  name ← get_elem? row 0
  type_name ← get_elem? row 1
  nullable ← get_elem? row 2
  key ← get_elem? row 3
  default_value ← get_elem? row 4
  some (record {
    name = name;
    type_name = type_name;
    not_null = cell_is not (codes "YES") nullable;
    is_pk = cell_is (λ b. b) (codes "PRI") key;
    default_value = default_value;
  })

-- The loop over the rows, into an array that has place for `info_cap` columns; `some none` when the array
-- cannot grow.
unfoldable pub describe_loop :
    (ℕ → Bool)
    → (info_cap : ℕ) → List ColumnInfo
    → List (List (Option Text))
    → Option (Option (List ColumnInfo))
describe_loop grown info_cap infos [] = some (some infos)
describe_loop grown info_cap infos (row ∷ rows) =
    let full = leb info_cap (length infos) in
    let rest = (do
      info ← column_of row
      describe_loop grown (if full then info_cap * 2 else info_cap) (infos ++ (info ∷ [])) rows) in
    if full && not (grown (length infos)) then some none else rest

-- The statement, cut off at 511 characters.
abbrev pub show_columns : Text → Text
show_columns escaped = take 511 (codes "SHOW COLUMNS FROM `" ++ (escaped ++ codes "`"))

module _ {H : Type 0} (L : Library H) (R : Results H) where
  -- `mysql_describe_table` on an open connection; `served` says whether the first array is allocated.
  unfoldable pub describe_table :
      (served : Bool) (grown : ℕ → Bool)
      → Text
      → Db (Conn H)
      → Option (Err × List ColumnInfo × Db (Conn H))
  describe_table served grown table_name db =
      let escaped = R.real_escape table_name db.world.handle in
      let (done, h) = L.query (show_columns escaped) db.world.handle in
      let (got, h₁) = R.store_result h in
      let db₁ = with_handle L db h₁ in
      if ltb (length escaped) 256
      then (if done
          then elim got [
            | none ↦ some (ok, [], db₁)
            | some (meta, stored) ↦
                if served
                then (do
                  infos ← describe_loop grown 32 [] stored.fetched
                  elim infos [
                    | none ↦ some (err_nomem, [], db₁)
                    | some cols ↦ some (ok, cols, db₁)
                  ])
                else some (err_nomem, [], db₁)
          ]
          else some (err_backend, [], set_err_msg (with_handle L db h) (L.error h)))
      else none
