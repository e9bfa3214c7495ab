-- ===== src/Session/Savepoint.antt =====
-- The savepoints and isolation levels of src/corm.c: statements built in a buffer of 256 bytes.
use corm.Base.{
  ℕ, ◌≤◌, ◌≡◌, refl, Bool, true, ◌&&◌, ◌||◌, [], ◌∷◌, ◌++◌, Option, none, some, if◌then◌else◌, take,
  take_all, length, ◌==◌, leb, arith, Text, codes, nonempty, Err, err_null,
}
use corm.Session.{Db, Backend, set_err_msg, exec}

-- `corm_isolation_level_t`; a C value outside of the enumeration is `invalid_level`.
pub data IsolationLevel : Type 0 where
  read_uncommitted read_committed repeatable_read serializable invalid_level : IsolationLevel

unfoldable pub isolation_level_sql : IsolationLevel → Option Text
isolation_level_sql read_uncommitted = some (codes "READ UNCOMMITTED")
isolation_level_sql read_committed = some (codes "READ COMMITTED")
isolation_level_sql repeatable_read = some (codes "REPEATABLE READ")
isolation_level_sql serializable = some (codes "SERIALIZABLE")
isolation_level_sql invalid_level = none

-- A letter, a digit, `_` or `-`.
abbrev pub is_savepoint_char : ℕ → Bool
is_savepoint_char c =
    (leb b'a' c && leb c b'z')
    || ((leb b'A' c && leb c b'Z') || ((leb b'0' c && leb c b'9') || ((c == b'_') || (c == b'-'))))

unfoldable pub all_savepoint_chars : Text → Bool
all_savepoint_chars [] = true
all_savepoint_chars (c ∷ cs) = is_savepoint_char c && all_savepoint_chars cs

unfoldable pub is_valid_savepoint_name : Text → Bool
unfolding all_savepoint_chars
is_valid_savepoint_name name = nonempty name && all_savepoint_chars name

module _ {W : Type 0} (B : Backend W) where
  -- The statement for a checked name, cut by `snprintf` to the buffer.
  unfoldable pub named_statement : Text → Db W → Option Text → Err × Db W
  named_statement keyword db none = (err_null, db)
  named_statement keyword db (some name) =
      if is_valid_savepoint_name name
      then exec B db (take 255 (keyword ++ name))
      else (err_null, set_err_msg db (codes "Invalid savepoint name: '" ++ (name ++ codes "'")))

  unfoldable pub savepoint : Db W → Option Text → Err × Db W
  unfolding named_statement
  savepoint db name = named_statement (codes "SAVEPOINT ") db name

  unfoldable pub rollback_to : Db W → Option Text → Err × Db W
  unfolding named_statement
  rollback_to db name = named_statement (codes "ROLLBACK TO SAVEPOINT ") db name

  unfoldable pub release_savepoint : Db W → Option Text → Err × Db W
  unfolding named_statement
  release_savepoint db name = named_statement (codes "RELEASE SAVEPOINT ") db name

  -- `level_text` is how C prints the level's number.
  unfoldable pub set_isolation : Text → Db W → IsolationLevel → Err × Db W
  unfolding isolation_level_sql
  set_isolation level_text db level = elim (isolation_level_sql level) [
    | none ↦ (err_null, set_err_msg db (codes "Invalid isolation level: " ++ level_text))
    | some sql ↦ exec B db (codes "SET TRANSACTION ISOLATION LEVEL " ++ sql)
  ]

  -- A valid name of at most 233 characters reaches the driver whole, behind the keywords of the call.
  pub savepoint_whole :
      (db : Db W) (name : Text)
      → is_valid_savepoint_name name ≡ true
      → length name ≤ 233
      → (savepoint db (some name) ≡ exec B db (codes "SAVEPOINT " ++ name))
        × (rollback_to db (some name) ≡ exec B db (codes "ROLLBACK TO SAVEPOINT " ++ name))
        × (release_savepoint db (some name) ≡ exec B db (codes "RELEASE SAVEPOINT " ++ name))
  unfolding savepoint rollback_to release_savepoint named_statement
  savepoint_whole db name hv hl = (
    rw (hv, take_all 245 name (omega arith)) refl,
    rw (hv, take_all 233 name hl) refl,
    rw (hv, take_all 237 name (omega arith)) refl,
  )
