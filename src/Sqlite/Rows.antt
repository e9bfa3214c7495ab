-- ===== src/Sqlite/Rows.antt =====
-- The rows that the driver for SQLite reads.
use corm.Base.{
  ℕ, zero, suc, ◌+◌, ◌*◌, ◌≡◌, refl, sym, ap, inl, inr, subst, ◌⊎◌, Bool, true, false, not, ◌&&◌,
  List, [], ◌∷◌, ◌++◌, Option, none, some, map, All, if◌then◌else◌, leb, length,
}
use corm.Dialect.{FieldType, int, int64, float, double, string, text, blob, bool}
use corm.Value.{Value}
use corm.Sqlite.{
  Stmt, ColumnType, sqlite_integer, sqlite_float, sqlite_text, sqlite_blob, sqlite_null, Step,
  step_row, step_done, step_error, Library,
}
use corm.Sqlite.Reading.{
  infer_type, Fetch, fetched, out_of_memory, step_failed, read_cell, read_row, fetch_loop,
}

pub Step-cases : (s : Step) → (s ≡ step_row) ⊎ ((s ≡ step_done) ⊎ (s ≡ step_error))
Step-cases step_row = inl refl
Step-cases step_done = inr (inl refl)
Step-cases step_error = inr (inr refl)

-- A type that the first row leaves: not the mark of a column without one.
abbrev pub Settled : FieldType → Type 0
Settled t = (c : ColumnType) → infer_type t c ≡ t

infer_type-Settled : (t : FieldType) (c : ColumnType) → Settled (infer_type t c)
unfolding infer_type
infer_type-Settled int sqlite_integer d = refl
infer_type-Settled int sqlite_float d = refl
infer_type-Settled int sqlite_text d = refl
infer_type-Settled int sqlite_blob d = refl
infer_type-Settled int sqlite_null d = refl
infer_type-Settled int64 c d = refl
infer_type-Settled float c d = refl
infer_type-Settled double c d = refl
infer_type-Settled string c d = refl
infer_type-Settled text c d = refl
infer_type-Settled blob c d = refl
infer_type-Settled bool c d = refl

abbrev pub types_of : List Value → List FieldType
types_of cells = map (λ (v : Value). v.type) cells

-- Each row has the types.
abbrev pub AllTyped : List FieldType → List (List Value) → Type 0
AllTyped types rows = All (λ cells. types_of cells ≡ types) rows

-- What holds in the loop: no row yet, or the types are settled and each row has them.
abbrev pub Typed : List FieldType → List (List Value) → Type 0
Typed types [] = Unit
Typed types (cells ∷ rows) = All Settled types × AllTyped types (cells ∷ rows)

AllTyped-append :
    (types : List FieldType) (rows : List (List Value)) (cells : List Value)
    → AllTyped types rows
    → types_of cells ≡ types
    → AllTyped types (rows ++ (cells ∷ []))
AllTyped-append types [] cells h e = (e, tt)
AllTyped-append types (x ∷ rows) cells h e = (h.0, AllTyped-append types rows cells h.1 e)

Typed-AllTyped :
    (types : List FieldType) (rows : List (List Value)) → Typed types rows → AllTyped types rows
Typed-AllTyped types [] h = tt
Typed-AllTyped types (cells ∷ rows) h = h.1

Typed-make :
    (types : List FieldType) (rows : List (List Value))
    → All Settled types
    → AllTyped types rows
    → Typed types rows
Typed-make types [] s h = tt
Typed-make types (cells ∷ rows) s h = (s, h)

module _ {H : Type 0} (L : Library H) where
  -- A row settles the types, has them, and is as long.
  pub read_row-Settled :
      (stmt : Stmt) (i : ℕ) (types : List FieldType) (h : H)
      → All Settled (read_row L stmt i types h).0
        × (types_of (read_row L stmt i types h).1 ≡ (read_row L stmt i types h).0)
        × (length (read_row L stmt i types h).0 ≡ length types)
  unfolding read_row read_cell
  read_row-Settled stmt i [] h = (tt, refl, refl)
  read_row-Settled stmt i (t ∷ types) h =
      let (settled, typed, long) = read_row-Settled stmt (i + 1) types h in
      (
        (infer_type-Settled t (L.column_type stmt i h), settled),
        ap (◌∷◌ (infer_type t (L.column_type stmt i h))) typed,
        ap suc long,
      )

  -- A row does not change types that are settled.
  read_row-kept :
      (stmt : Stmt) (i : ℕ) (types : List FieldType) (h : H)
      → All Settled types
      → (read_row L stmt i types h).0 ≡ types
  unfolding read_row
  read_row-kept stmt i [] h s = refl
  read_row-kept stmt i (t ∷ types) h s =
      rw (s.0 (L.column_type stmt i h)) (ap (◌∷◌ t) (read_row-kept stmt (i + 1) types h s.1))

  Typed-row :
      (stmt : Stmt) (types : List FieldType) (rows : List (List Value)) (h : H)
      → Typed types rows
      → AllTyped (read_row L stmt 0 types h).0 rows
  Typed-row stmt types [] h t = tt
  Typed-row stmt types (cells ∷ rows) h t =
      subst (λ (ts : List FieldType). AllTyped ts (cells ∷ rows))
        (sym (read_row-kept stmt 0 types h t.0)) t.1

  -- What the loop may give: failures, or typed rows.
  abbrev pub FetchTyped : ℕ → Fetch → Type 0
  FetchTyped n (fetched types rows) = AllTyped types rows × (length types ≡ n)
  FetchTyped n out_of_memory = Unit
  FetchTyped n step_failed = Unit

  pub data FetchOutcome (n : ℕ) : Option (Fetch × H) → Type 0 where
    spent : FetchOutcome n none
    came : (f : Fetch) (h : H) → FetchTyped n f → FetchOutcome n (some (f, h))

  FetchOutcome-if :
      (n : ℕ) (b : Bool) (x y : Option (Fetch × H))
      → FetchOutcome n x
      → FetchOutcome n y
      → FetchOutcome n (if b then x else y)
  FetchOutcome-if n true x y p q = p
  FetchOutcome-if n false x y p q = q

  pub fetch_loop-Typed :
      (grown row_served : ℕ → Bool) (fuel : ℕ) (stmt : Stmt) (row_cap : ℕ) (types : List FieldType)
      (rows : List (List Value)) (h : H)
      → Typed types rows
      → FetchOutcome (length types) (fetch_loop L grown row_served fuel stmt row_cap types rows h)
  unfolding fetch_loop
  fetch_loop-Typed grown row_served zero stmt row_cap types rows h t = spent
  fetch_loop-Typed grown row_served (suc fuel) stmt row_cap types rows h t =
      let types' = (read_row L stmt 0 types h').0 in
      let (settled, typed, long) = read_row-Settled stmt 0 types h' in
      let now = AllTyped-append types' rows cells (Typed-row stmt types rows h' t) typed in
      let rest =
        fetch_loop-Typed grown row_served fuel stmt cap' types' (rows ++ (cells ∷ [])) h'
          (Typed-make types' (rows ++ (cells ∷ [])) settled now) in
      let later = subst (λ (n : ℕ). FetchOutcome n next) long rest in
      elim (Step-cases (L.step stmt h).0) [
        | inl e ↦
            rw (e, fetch_loop)
              (FetchOutcome-if (length types) (full && not (grown (length rows))) stop
                (if row_served (length rows) then next else stop) ended
                (FetchOutcome-if (length types) (row_served (length rows)) next stop later ended))
        | inr (inl e) ↦
            rw (e, fetch_loop) (came (fetched types rows) h' (Typed-AllTyped types rows t, refl))
        | inr (inr e) ↦ rw (e, fetch_loop) (came step_failed h' tt)
      ]
    where
      h' : H
      h' = (L.step stmt h).1

      cells : List Value
      cells = (read_row L stmt 0 types h').1

      full : Bool
      full = leb row_cap (length rows)

      cap' : ℕ
      cap' = if full then row_cap * 2 else row_cap

      next : Option (Fetch × H)
      next =
          fetch_loop L grown row_served fuel stmt cap' (read_row L stmt 0 types h').0
            (rows ++ (cells ∷ [])) h'

      stop : Option (Fetch × H)
      stop = some (out_of_memory, h')

      ended : FetchOutcome (length types) stop
      ended = came out_of_memory h' tt
