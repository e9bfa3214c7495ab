-- ===== src/Sqlite/Query.antt =====
-- A whole query by the driver for SQLite: it ends, and its result has the shape that result.c relies on.
use corm.Base.{
  ℕ, zero, suc, ◌+◌, ◌*◌, ◌<◌, ◌≡◌, refl, ap, inl, inr, Bool, true, false, not, ◌&&◌, List, [], ◌∷◌,
  ◌++◌, Option, none, some, arith, Option-cases, Bool-cases, map, if◌then◌else◌, leb, length,
  replicate, Text, Err, err_backend, err_nomem, is_ok,
}
use corm.Dialect.{FieldType, int}
use corm.Value.{Value}
use corm.Model.{is_null}
use corm.Result
use corm.Result.{Result}
use corm.Session.{Db}
use corm.Sqlite.{Stmt, step_row, Library, Conn, bind_params, get_stmt, with_handle, cleanup_stmt}
use corm.Sqlite.Reading.{
  Fetch, fetched, out_of_memory, step_failed, read_row, fetch_loop, column_names, result_of,
  finish_query, query,
}
use corm.Sqlite.Rows.{AllTyped, FetchTyped, FetchOutcome, spent, came, fetch_loop-Typed, Step-cases}

-- The flags of `n` numbers from `i` on.
abbrev pub flags : (ℕ → Bool) → ℕ → ℕ → List Bool
flags named i zero = []
flags named i (suc n) = named i ∷ flags named (i + 1) n

abbrev pub is_some {ℓ} : {A : Type ℓ} → Option A → Bool
is_some o = not (is_null o)

-- Each row of a result has the types of its columns, and the columns have names exactly where those could
-- be copied.
abbrev pub ResultTyped : (ℕ → Bool) → Option Result → Type 0
ResultTyped named none = Unit
ResultTyped named (some r) =
    AllTyped r.column_types r.rows
    × (map is_some r.column_names ≡ flags named 0 (length r.column_types))

abbrev Ends {ℓ} : {A : Type ℓ} → Option A → Type 0
Ends none = ⊥
Ends (some _) = Unit

Ends-if {ℓ} : {A : Type ℓ} (b : Bool) (x y : Option A) → Ends x → Ends y → Ends (if b then x else y)
Ends-if true x y p q = p
Ends-if false x y p q = q

module _ {H : Type 0} (L : Library H) where
  column_names-flags :
      (named : ℕ → Bool) (stmt : Stmt) (i n : ℕ) (h : H)
      → map is_some (column_names L named stmt i n h) ≡ flags named i n
  unfolding column_names
  column_names-flags named stmt i zero h = refl
  column_names-flags named stmt i (suc n) h = elim (Bool-cases (named i)) [
    | inl e ↦ rw e (ap (◌∷◌ true) (column_names-flags named stmt (i + 1) n h))
    | inr e ↦ rw e (ap (◌∷◌ false) (column_names-flags named stmt (i + 1) n h))
  ]

  -- Each step that gives a row leaves fewer.
  abbrev pub Shrinks : (Stmt → H → ℕ) → Type 0
  Shrinks left =
      (stmt : Stmt) (h : H)
      → (L.step stmt h).0 ≡ step_row
      → left stmt (L.step stmt h).1 < left stmt h

  fetch_loop-Ends :
      (left : Stmt → H → ℕ)
      → Shrinks left
      → (grown row_served : ℕ → Bool) (fuel : ℕ) (stmt : Stmt) (row_cap : ℕ)
        (types : List FieldType) (rows : List (List Value)) (h : H)
      → left stmt h < fuel
      → Ends (fetch_loop L grown row_served fuel stmt row_cap types rows h)
  unfolding fetch_loop
  fetch_loop-Ends left shrinks grown row_served zero stmt row_cap types rows h n =
      absurd (omega arith)
  fetch_loop-Ends left shrinks grown row_served (suc fuel) stmt row_cap types rows h n =
      elim (Step-cases (L.step stmt h).0) [
        | inl e ↦
            let rest =
              fetch_loop-Ends left shrinks grown row_served fuel stmt
                (if full then row_cap * 2 else row_cap) (read_row L stmt 0 types h').0
                (rows ++ ((read_row L stmt 0 types h').1 ∷ [])) h'
                (omega (arith, shrinks stmt h e, n)) in
            rw (e, fetch_loop)
              (Ends-if (full && not (grown (length rows))) stop
                (if row_served (length rows) then next else stop) tt
                (Ends-if (row_served (length rows)) next stop rest tt))
        | inr (inl e) ↦ rw (e, fetch_loop) tt
        | inr (inr e) ↦ rw (e, fetch_loop) tt
      ]
    where
      h' : H
      h' = (L.step stmt h).1

      full : Bool
      full = leb row_cap (length rows)

      next : Option (Fetch × H)
      next =
          fetch_loop L grown row_served fuel stmt (if full then row_cap * 2 else row_cap)
            (read_row L stmt 0 types h').0 (rows ++ ((read_row L stmt 0 types h').1 ∷ [])) h'

      stop : Option (Fetch × H)
      stop = some (out_of_memory, h')

  -- An error with no result, or CORM_OK and a typed one.
  abbrev pub Answer : (ℕ → Bool) → Err × Option Result × Db (Conn H) → Type 0
  Answer named r = (is_null r.1 ≡ not (is_ok r.0)) × ResultTyped named r.1

  finish_query-Answer :
      (named allocations : ℕ → Bool) (sql : Text) (stmt : Stmt) (db : Db (Conn H)) (n : ℕ)
      (f : Fetch)
      → FetchTyped L n f
      → Answer named (finish_query L named allocations sql stmt db f)
  unfolding finish_query result_of
  finish_query-Answer named allocations sql stmt db n out_of_memory t = (refl, tt)
  finish_query-Answer named allocations sql stmt db n step_failed t = (refl, tt)
  finish_query-Answer named allocations sql stmt db n (fetched types rows) t =
      elim (Option-cases (Result.new allocations (length types) 0)) [
        | inl e ↦ rw (e, finish_query) (refl, tt)
        | inr (res, e) ↦
            rw (e, finish_query)
              (refl, (t.0, column_names-flags named stmt 0 (length types) db.world.handle))
      ]

  -- A loop that ends gives what the other lemma says.
  fetch_some :
      (n : ℕ) (o : Option (Fetch × H))
      → FetchOutcome L n o
      → Ends o
      → (f : Fetch) × (h : H) × (o ≡ some (f, h)) × FetchTyped L n f
  fetch_some n _ spent ends = elim ends [ ]
  fetch_some n _ (came f h t) ends = (f, h, refl, t)

  -- The part of a query behind the statement.
  abbrev run_stmt :
      (buffers : Bool) (grown row_served named allocations : ℕ → Bool)
      → ℕ
      → Text
      → List Value
      → Stmt
      → Db (Conn H)
      → Option (Err × Option Result × Db (Conn H))
  run_stmt buffers grown row_served named allocations fuel sql params stmt db₁ =
      let h = bind_params L stmt 0 params db₁.world.handle in
      if buffers
      then elim (fetch_loop L grown row_served fuel stmt 16 (replicate (L.column_count stmt h) int)
          [] h) [
            | none ↦ none
            | some (outcome, h') ↦
                some (finish_query L named allocations sql stmt (with_handle L db₁ h') outcome)
          ]
      else some (err_nomem, none, cleanup_stmt L (with_handle L db₁ h) sql)

  run_stmt-Answer :
      (left : Stmt → H → ℕ)
      → Shrinks left
      → (buffers : Bool) (grown row_served named allocations : ℕ → Bool) (fuel : ℕ) (sql : Text)
        (params : List Value) (stmt : Stmt) (db₁ : Db (Conn H))
      → left stmt (bind_params L stmt 0 params db₁.world.handle) < fuel
      → (answer : Err × Option Result × Db (Conn H)) × (run_stmt buffers grown row_served named
            allocations fuel sql params stmt db₁
          ≡ some answer)
        × Answer named answer
  run_stmt-Answer left shrinks false grown row_served named allocations fuel sql params stmt db₁
        enough =
      (_, refl, (refl, tt))
  run_stmt-Answer left shrinks true grown row_served named allocations fuel sql params stmt db₁
        enough =
      let h = bind_params L stmt 0 params db₁.world.handle in
      let types = replicate (L.column_count stmt h) int in
      let (f, h', e, t) =
        fetch_some (length types) (fetch_loop L grown row_served fuel stmt 16 types [] h)
          (fetch_loop-Typed L grown row_served fuel stmt 16 types [] h tt)
          (fetch_loop-Ends left shrinks grown row_served fuel stmt 16 types [] h enough) in
      (
        finish_query L named allocations sql stmt (with_handle L db₁ h') f,
        rw e refl,
        finish_query-Answer named allocations sql stmt (with_handle L db₁ h') (length types) f t,
      )

  -- Where each step of a statement that gives a row leaves fewer, on fuel for those that the prepared and bound
  -- statement has and one round more: a query ends; it gives a result if and only if it returns CORM_OK; and
  -- then every row has one cell for each column, of the column's type, and the names are as many as the
  -- columns, NULL exactly where the copy of a name is not allocated. The allocations of the statement's node,
  -- of the arrays, the rows, the names and the result may fail anywhere; the copies of cells are served.
  pub query-Answer :
      (left : Stmt → H → ℕ)
      → Shrinks left
      → (served buffers : Bool) (grown row_served named allocations : ℕ → Bool) (fuel : ℕ)
        (sql : Text) (params : List Value) (db : Db (Conn H))
      → ((stmt : Stmt) (db₁ : Db (Conn H))
          → get_stmt L served db sql ≡ (some stmt, db₁)
          → left stmt (bind_params L stmt 0 params db₁.world.handle) < fuel)
      → (answer : Err × Option Result × Db (Conn H)) × (query L served buffers grown row_served
            named allocations fuel sql params db
          ≡ some answer)
        × Answer named answer
  unfolding query
  query-Answer left shrinks served buffers grown row_served named allocations fuel sql params db
        enough =
      let db₁ = (get_stmt L served db sql).1 in
      elim (Option-cases (get_stmt L served db sql).0) [
        | inl e ↦ ((err_backend, none, db₁), rw (e, query) refl, (refl, tt))
        | inr (stmt, e) ↦
            let whole : get_stmt L served db sql ≡ (some stmt, db₁) =
              ap (λ (o : Option Stmt). let p : Option Stmt × Db (Conn H) = (o, db₁) in p) e in
            let (answer, same, a) =
              run_stmt-Answer left shrinks buffers grown row_served named allocations fuel sql
                params stmt db₁ (enough stmt db₁ whole) in
            (answer, rw (e, query) same, a)
      ]
