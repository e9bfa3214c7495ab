-- ===== src/Mysql/Closed.antt =====
-- Which statements the driver for MySQL closes when it queries.
use corm.Base.{
  ℕ, ◌≡◌, refl, sym, ap, subst, ◌∙◌, Bool, true, false, List, ◌∷◌, Option, none, some,
  if◌then◌else◌, ltb, length, map, replicate, Text, Err, ok, ◌>>=◌,
}
use corm.Value.{Value}
use corm.Result
use corm.Result.{Result, zero_value}
use corm.Session.{Db, set_err_msg}
use corm.StmtCache.Lru.{lookup, used}
use corm.Mysql.{Stmt, Library, Conn, binding, close, get_stmt, fail_stmt, with_handle}
use corm.Mysql.Dangling.{lookup-used}
use corm.Mysql.Reading.{
  Meta, Results, place, read_cells, types_of_meta, fetch_stmt, query_stmt, stmt_query,
}

module _ {H : Type 0} (L : Library H) (R : Results H) where
  abbrev Outcome : Type 0
  Outcome = Option (Err × Option Result × Db (Conn H))

  -- What a call that is defined leaves: the cache as it was, and the statement closed.
  data Leaves (stmt : Stmt) (cache : List (Text × Stmt)) (before : List Stmt)
      : Outcome → Type 0 where
    undefined : Leaves stmt cache before none
    returns :
        (err : Err) (res : Option Result) (db : Db (Conn H))
        → db.world.cache ≡ cache
        → db.world.closed ≡ stmt ∷ before
        → Leaves stmt cache before (some (err, res, db))

  abbrev Left : Stmt → List (Text × Stmt) → List Stmt → Outcome → Type 0
  Left stmt cache before none = Unit
  Left stmt cache before (some r) = (r.2.world.cache ≡ cache) × (r.2.world.closed ≡ stmt ∷ before)

  Leaves-Left :
      (stmt : Stmt) (cache : List (Text × Stmt)) (before : List Stmt) (o : Outcome)
      → Leaves stmt cache before o
      → Left stmt cache before o
  Leaves-Left stmt cache before _ undefined = tt
  Leaves-Left stmt cache before _ (returns err res db kept closed) = (kept, closed)

  Leaves-if :
      (stmt : Stmt) (cache : List (Text × Stmt)) (before : List Stmt) (b : Bool) (x y : Outcome)
      → Leaves stmt cache before x
      → Leaves stmt cache before y
      → Leaves stmt cache before (if b then x else y)
  Leaves-if stmt cache before true x y p q = p
  Leaves-if stmt cache before false x y p q = q

  Leaves-elim {ℓ} :
      {A : Type ℓ} (stmt : Stmt) (cache : List (Text × Stmt)) (before : List Stmt) (o : Option A)
      (x : Outcome) (f : A → Outcome)
      → Leaves stmt cache before x
      → ((a : A) → Leaves stmt cache before (f a))
      → Leaves stmt cache before (elim o [ none ↦ x | some a ↦ f a ])
  Leaves-elim stmt cache before none x f p q = p
  Leaves-elim stmt cache before (some a) x f p q = q a

  Leaves-bind {ℓ} :
      {A : Type ℓ} (stmt : Stmt) (cache : List (Text × Stmt)) (before : List Stmt) (o : Option A)
      (f : A → Outcome)
      → ((a : A) → Leaves stmt cache before (f a))
      → Leaves stmt cache before (o >>= f)
  Leaves-bind stmt cache before none f q = undefined
  Leaves-bind stmt cache before (some a) f q = q a

  fail_stmt-Leaves :
      (stmt : Stmt) (db : Db (Conn H)) (h : H)
      → Leaves stmt db.world.cache db.world.closed
          (some ((fail_stmt L db h stmt).0, none, (fail_stmt L db h stmt).1))
  unfolding fail_stmt close set_err_msg
  fail_stmt-Leaves stmt db h = returns _ _ _ refl refl

  close-Leaves :
      (stmt : Stmt) (db : Db (Conn H)) (h : H) (err : Err) (res : Option Result)
      → Leaves stmt db.world.cache db.world.closed
          (some (err, res, close L (with_handle L db h) stmt))
  unfolding close
  close-Leaves stmt db h err res = returns _ _ _ refl refl

  fetch_stmt-Leaves :
      (allocations : ℕ → Bool) (strs arrays : Bool) (db : Db (Conn H)) (stmt : Stmt) (meta : Meta)
      → Leaves stmt db.world.cache db.world.closed
          (fetch_stmt L R allocations strs arrays db stmt meta)
  unfolding fetch_stmt
  fetch_stmt-Leaves allocations strs arrays db stmt meta =
      Leaves-if stmt db.world.cache db.world.closed (R.stmt_store_result stmt db.world.handle).0 _ _
        (Leaves-elim stmt db.world.cache db.world.closed
          (Result.new allocations (length meta.fields) row_count) _ _ (close-Leaves stmt db h _ _)
          (λ res.
            Leaves-if stmt db.world.cache db.world.closed (ltb 0 row_count) _ _
              (Leaves-if stmt db.world.cache db.world.closed strs _ _
                (Leaves-if stmt db.world.cache db.world.closed arrays _ _
                  (Leaves-if stmt db.world.cache db.world.closed (R.stmt_bind_result stmt h).0 _ _
                    (Leaves-bind stmt db.world.cache db.world.closed
                      (place (replicate (length meta.fields) zero_value) row_count read) _
                      (λ rows. close-Leaves stmt db _ _ _))
                    (fail_stmt-Leaves stmt db (R.stmt_bind_result stmt h).1))
                  (close-Leaves stmt db h _ _))
                undefined)
              (close-Leaves stmt db h _ _)))
        (fail_stmt-Leaves stmt db h)
    where
      h : H
      h = (R.stmt_store_result stmt db.world.handle).1

      row_count : ℕ
      row_count = R.stmt_num_rows stmt h

      read : List (List Value)
      read =
          map (read_cells (λ t p. p) (types_of_meta meta))
            (R.stmt_fetch stmt (R.stmt_bind_result stmt h).1).0

  query_stmt-Leaves :
      (bound : Bool) (allocations : ℕ → Bool) (strs arrays : Bool) (db : Db (Conn H)) (stmt : Stmt)
      (params : List Value)
      → Leaves stmt db.world.cache db.world.closed
          (query_stmt L R bound allocations strs arrays db stmt params)
  unfolding query_stmt close
  query_stmt-Leaves bound allocations strs arrays db stmt params =
      Leaves-if stmt db.world.cache db.world.closed bound _ _
        (Leaves-if stmt db.world.cache db.world.closed taken.0 _ _
          (Leaves-if stmt db.world.cache db.world.closed done.0 _ _
            (Leaves-elim stmt db.world.cache db.world.closed got.0 _ _
              (close-Leaves stmt db got.1 _ _)
              (λ meta.
                fetch_stmt-Leaves allocations strs arrays (with_handle L db got.1) stmt meta))
            (fail_stmt-Leaves stmt db done.1))
          (fail_stmt-Leaves stmt db taken.1))
        (close-Leaves stmt db db.world.handle _ _)
    where
      taken : Bool × H
      taken = L.stmt_bind_param stmt (map binding params) db.world.handle

      done : Bool × H
      done = L.stmt_execute stmt taken.1

      got : Option Meta × H
      got = R.stmt_result_metadata stmt done.1

  -- When the text of a query with parameters is cached, then whatever it returns, CORM_OK or an error, the
  -- statement has been closed, and the cache still gives it for that text. Every such query that returns so
  -- leaves a closed statement in the cache.
  pub stmt_query_cached :
      (served bound : Bool) (allocations : ℕ → Bool) (strs arrays : Bool) (sql : Text)
      (params : List Value) (db : Db (Conn H)) (stmt : Stmt) (r : Err × Option Result × Db (Conn H))
      → lookup sql db.world.cache ≡ some stmt
      → stmt_query L R served bound allocations strs arrays sql params db ≡ some r
      → (lookup sql r.2.world.cache ≡ some stmt) × (r.2.world.closed ≡ stmt ∷ db.world.closed)
  unfolding stmt_query get_stmt
  stmt_query_cached served bound allocations strs arrays sql params db stmt r e returned =
      let db₁ : Db (Conn H) = record db {
        world = record db.world { cache = used sql db.world.cache };
      } in
      let got : get_stmt L served db sql ≡ (ok, some stmt, db₁) = rw (e, get_stmt) refl in
      let same : stmt_query L R served bound allocations strs arrays sql params db
          ≡ query_stmt L R bound allocations strs arrays db₁ stmt params =
        ap
          (λ (g : Err × Option Stmt × Db (Conn H)). elim g.1 as (λ _. Outcome) [
            | none ↦ some (g.0, none, g.2)
            | some s ↦ query_stmt L R bound allocations strs arrays g.2 s params
          ])
          got in
      let (kept, closed) =
        subst (Left stmt db₁.world.cache db₁.world.closed) (sym same ∙ returned) (
          Leaves-Left stmt _ _ _
            (query_stmt-Leaves bound allocations strs arrays db₁ stmt params)) in
      (ap (lookup sql) kept ∙ lookup-used L sql stmt db.world.cache e, closed)
