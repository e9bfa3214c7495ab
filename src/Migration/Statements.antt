-- ===== src/Migration/Statements.antt =====
-- Statements of a migration that are run one after the other, whatever they return.
use corm.Base.{◌≡◌, refl, List, [], ◌∷◌, ◌++◌, Text}
use corm.Session.{Db, Backend, exec}

module _ {W : Type 0} (B : Backend W) where
  unfoldable pub run_all : Db W → List Text → Db W
  run_all db [] = db
  run_all db (sql ∷ sqls) = let (_, db') = exec B db sql in run_all db' sqls

  pub run_all-append :
      (db : Db W) (xs ys : List Text) → run_all db (xs ++ ys) ≡ run_all (run_all db xs) ys
  unfolding run_all
  run_all-append db [] ys = refl
  run_all-append db (x ∷ xs) ys = run_all-append (exec B db x).1 xs ys
