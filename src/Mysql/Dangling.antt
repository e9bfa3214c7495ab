-- ===== src/Mysql/Dangling.antt =====
-- Which statements the driver for MySQL closes and keeps.
use corm.Base.{
  ◌≡◌, refl, sym, ap, subst, ◌∙◌, Bool, true, false, List, ◌∷◌, Option, none, some, if◌then◌else◌,
  Text, text_eq_refl, Err, ok, err_nomem, is_ok,
}
use corm.Value.{Value}
use corm.Session.{Db, set_err_msg}
use corm.StmtCache.Lru.{lookup, used}
use corm.Mysql.{Stmt, Library, Conn, close, get_stmt, fail_stmt, run_stmt, exec}

module _ {H : Type 0} (L : Library H) where
  -- A call keeps the cache; it closes nothing if it succeeds, and the statement if it fails.
  data Closes (stmt : Stmt) (db : Db (Conn H)) : Err × Db (Conn H) → Type 0 where
    closes :
        (err : Err) (db' : Db (Conn H))
        → db'.world.cache ≡ db.world.cache
        → db'.world.closed ≡ (if is_ok err then db.world.closed else stmt ∷ db.world.closed)
        → Closes stmt db (err, db')

  Closes-if :
      (stmt : Stmt) (db : Db (Conn H)) (b : Bool) (x y : Err × Db (Conn H))
      → Closes stmt db x
      → Closes stmt db y
      → Closes stmt db (if b then x else y)
  Closes-if stmt db true x y p q = p
  Closes-if stmt db false x y p q = q

  fail_stmt-Closes :
      (stmt : Stmt) (db : Db (Conn H)) (h : H) → Closes stmt db (fail_stmt L db h stmt)
  unfolding fail_stmt close set_err_msg
  fail_stmt-Closes stmt db h = closes _ _ refl refl

  run_stmt-Closes :
      (bound : Bool) (stmt : Stmt) (db : Db (Conn H)) (params : List Value)
      → Closes stmt db (run_stmt L bound db stmt params)
  unfolding run_stmt close
  run_stmt-Closes false stmt db params = closes err_nomem (close L db stmt) refl refl
  run_stmt-Closes true stmt db params =
      Closes-if stmt db _ _ _
        (Closes-if stmt db _ _ _ (closes ok _ refl refl) (fail_stmt-Closes stmt db _))
        (fail_stmt-Closes stmt db _)

  pub lookup-used :
      (sql : Text) (stmt : Stmt) (xs : List (Text × Stmt))
      → lookup sql xs ≡ some stmt
      → lookup sql (used sql xs) ≡ some stmt
  lookup-used sql stmt xs e = rw (e, used) (rw (text_eq_refl sql) refl)

  dangles_by :
      (stmt : Stmt) (db : Db (Conn H)) (r : Err × Db (Conn H))
      → Closes stmt db r
      → (r.1.world.cache ≡ db.world.cache)
        × (r.1.world.closed ≡ (if is_ok r.0 then db.world.closed else stmt ∷ db.world.closed))
  dangles_by stmt db _ (closes err db' kept closed) = (kept, closed)

  -- When the text of an exec with parameters is cached, the cache keeps its statement whatever happens; and the
  -- statement is closed if the exec fails, by whichever call. A failed exec so leaves a closed statement in
  -- the cache.
  pub exec_cached :
      (served bound : Bool) (sql : Text) (p : Value) (params : List Value) (db : Db (Conn H))
      (stmt : Stmt)
      → lookup sql db.world.cache ≡ some stmt
      → (lookup sql (exec L served bound sql (p ∷ params) db).1.world.cache ≡ some stmt)
        × ((exec L served bound sql (p ∷ params) db).1.world.closed ≡ (
            if is_ok (exec L served bound sql (p ∷ params) db).0
            then db.world.closed
            else stmt ∷ db.world.closed))
  unfolding exec get_stmt
  exec_cached served bound sql p params db stmt e =
      let db₁ : Db (Conn H) = record db {
        world = record db.world { cache = used sql db.world.cache };
      } in
      let got : get_stmt L served db sql ≡ (ok, some stmt, db₁) = rw (e, get_stmt) refl in
      let same : exec L served bound sql (p ∷ params) db ≡ run_stmt L bound db₁ stmt (p ∷ params) =
        ap
          (λ (r : Err × Option Stmt × Db (Conn H)). elim r.1 as (λ _. Err × Db (Conn H)) [
            | none ↦ (r.0, r.2)
            | some s ↦ run_stmt L bound r.2 s (p ∷ params)
          ])
          got in
      let (kept, closed) = dangles_by stmt db₁ _ (run_stmt-Closes bound stmt db₁ (p ∷ params)) in
      subst
        (λ (r : Err × Db (Conn H)).
          (lookup sql r.1.world.cache ≡ some stmt)
          × (r.1.world.closed ≡ (if is_ok r.0 then db.world.closed else stmt ∷ db.world.closed)))
        (sym same) (ap (lookup sql) kept ∙ lookup-used sql stmt db.world.cache e, closed)
