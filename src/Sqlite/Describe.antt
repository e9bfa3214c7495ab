-- ===== src/Sqlite/Describe.antt =====
-- Opening and closing the driver of src/backend/sqlite3.c, and its `describe_table`. Of the session that is
-- opened only the connection, the message of the last error and the destroy function of the cache
-- are kept.
use corm.Base.{
  ℕ, zero, suc, ◌*◌, ◌≡◌, Bool, true, false, not, ◌&&◌, List, [], ◌∷◌, ◌++◌, Option, none, some,
  if◌then◌else◌, leb, length, take, Text, codes, ℤ, pos, negsuc, Err, ok, err_backend, err_nomem,
}
use corm.Session.{Db, set_err_msg}
use corm.Session.ColumnInfo.{ColumnInfo}
use corm.Sqlite.{Stmt, step_row, step_done, step_error, Library, Conn, with_handle}

-- `sqlite3_open`, which gives a handle in any case; `sqlite3_column_int`; and `sqlite3_mprintf` with `%w`,
-- whose memory is served.
pub record Connect (H : Type 0) : Type 0 where
  pub open_db : Text → Bool × H
  pub column_int : Stmt → ℕ → H → ℤ
  pub mprintf_w : Text → Text

-- `db->conn`, what sqlite3_close has been called with, newest first, and whether there is a cache and
-- it has its destroy function.
pub record Link (H : Type 0) : Type 0 where
  pub conn : Option H
  pub closed : List H
  pub has_cache : Bool
  pub has_destroy_fn : Bool

module _ {H : Type 0} where
  -- `sqlite_close`
  unfoldable pub close : Db (Link H) → Err × Db (Link H)
  close db = elim db.world.conn [
    | none ↦ (ok, db)
    | some handle ↦ (
      ok,
      record db { world = record db.world { conn = none; closed = handle ∷ db.world.closed } },
    )
  ]

-- An int as a truth value.
unfoldable pub nonzero : ℤ → Bool
nonzero (pos zero) = false
nonzero (pos (suc n)) = true
nonzero (negsuc n) = true

-- The statement, cut off at 511 characters.
abbrev pub table_info : Text → Text
table_info qtable = take 511 (codes "PRAGMA table_info(" ++ (qtable ++ codes ")"))

module _ {H : Type 0} (C : Connect H) (L : Library H) where
  -- `sqlite_open`; what the two PRAGMA return is not read.
  unfoldable pub open_link : Text → Db (Link H) → Err × Db (Link H)
  open_link dsn db =
      let (good, h) = C.open_db dsn in
      let (_, h₁) = L.run (codes "PRAGMA journal_mode=WAL") h in
      let (_, h₂) = L.run (codes "PRAGMA foreign_keys=ON") h₁ in
      if good
      then (
        ok,
        record db {
          world = record db.world {
            conn = some h₂;
            has_destroy_fn = (if db.world.has_cache then true else db.world.has_destroy_fn);
          };
        },
      )
      else (
        err_backend,
        record (set_err_msg db (L.errmsg h)) {
          world = record db.world { closed = h ∷ db.world.closed };
        },
      )

  -- A row of `PRAGMA table_info`.
  unfoldable pub read_column : Stmt → H → ColumnInfo
  read_column stmt h = record {
    name = L.column_text stmt 1 h;
    type_name = L.column_text stmt 2 h;
    not_null = nonzero (C.column_int stmt 3 h);
    is_pk = nonzero (C.column_int stmt 5 h);
    default_value = L.column_text stmt 4 h;
  }

  -- The loop over the rows, into an array that has place for `info_cap` columns, on fuel for the rows and one
  -- round more; an error ends it like the end of the rows. The columns are `none` when the array cannot grow.
  unfoldable pub describe_loop :
      (ℕ → Bool)
      → ℕ
      → Stmt
      → (info_cap : ℕ) → List ColumnInfo
      → H
      → Option (Option (List ColumnInfo) × H)
  describe_loop grown zero stmt info_cap infos h = none
  describe_loop grown (suc fuel) stmt info_cap infos h =
      let (rc, h') = L.step stmt h in
      let full = leb info_cap (length infos) in
      let rest =
        describe_loop grown fuel stmt (if full then info_cap * 2 else info_cap)
          (infos ++ (read_column stmt h' ∷ [])) h' in
      elim rc [
        | step_done ↦ some (some infos, h')
        | step_error ↦ some (some infos, h')
        | step_row ↦ if full && not (grown (length infos)) then some (none, h') else rest
      ]

  -- `sqlite_describe_table`; `none` is out of fuel. `served` says whether the first array is allocated.
  unfoldable pub describe_table :
      (served : Bool) (grown : ℕ → Bool)
      → ℕ
      → Text
      → Db (Conn H)
      → Option (Err × List ColumnInfo × Db (Conn H))
  describe_table served grown fuel table_name db =
      let (got, h) = L.prepare (table_info (C.mprintf_w table_name)) db.world.handle in
      elim got [
        | none ↦ some (err_backend, [], with_handle L db h)
        | some stmt ↦
            if served
            then elim (describe_loop grown fuel stmt 16 [] h) [
              | none ↦ none
              | some (infos, h') ↦
                  let db' = with_handle L db (L.finalize stmt h') in
                  elim infos [ none ↦ some (err_nomem, [], db') | some cols ↦ some (ok, cols, db') ]
            ]
            else some (err_nomem, [], with_handle L db (L.finalize stmt h))
      ]

-- What the statement has left: the columns of its rows, until it is done.
pub data Rows {H : Type 0} (C : Connect H) (L : Library H) (stmt : Stmt) (last : H)
    : H → List ColumnInfo → Type 0 where
  ended :
      (h : H) → (L.step stmt h).0 ≡ step_done → (L.step stmt h).1 ≡ last → Rows C L stmt last h []
  row :
      (h : H) (cols : List ColumnInfo)
      → (L.step stmt h).0 ≡ step_row
      → Rows C L stmt last (L.step stmt h).1 cols
      → Rows C L stmt last h (read_column C L stmt (L.step stmt h).1 ∷ cols)
