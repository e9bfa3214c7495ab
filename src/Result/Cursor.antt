-- ===== src/Result/Cursor.antt =====
-- Iterating over a result: `while (corm_result_next(r))` sees each row once, in order.
use corm.Base.{
  ℕ, zero, suc, ◌+◌, ◌<◌, ◌≡◌, refl, ap, ap₂, Bool, true, false, List, [], ◌∷◌, some, ltb→lt, arith,
  length, ℤ, pos, negsuc, in_range, get_elem?, to_index, ◌↔◌,
}
use corm.Value.{Value}
use corm.Result.{Result, next, reset, below, succ, row_count, col_count, value}

-- The loop with fuel: the numbers of the rows at which it stops, and whether it came to its end.
abbrev pub visit : ℕ → Result → List ℤ × Bool
visit zero r = ([], false)
visit (suc fuel) r =
    let step = next r in
    elim step.0 [
      | true ↦ (let rest = visit fuel step.1 in (step.1.current_row ∷ rest.0, rest.1))
      | false ↦ ([], true)
    ]

-- The numbers from `i` on, `n` of them.
abbrev pub range : ℕ → ℕ → List ℤ
range i zero = []
range i (suc n) = pos i ∷ range (i + 1) n

visit_from :
    (n i fuel : ℕ) (r : Result)
    → succ r.current_row ≡ pos i
    → i + n ≡ row_count r
    → n < fuel
    → visit fuel r ≡ (range i n, true)
unfolding next
visit_from n i zero r at sum h = absurd (omega arith)
visit_from zero i (suc fuel) r at sum h =
    let e : below (succ r.current_row) (row_count r) ≡ false = rw at (ground arith) in rw (e, visit)
visit_from (suc n) i (suc fuel) r at sum h =
    let e : below (succ r.current_row) (row_count r) ≡ true = rw at (ground arith) in
    let rest = visit_from n (i + 1) fuel (next r).1 (ap succ at) (omega arith) (omega arith) in
    rw (e, visit)
      (ap₂ (λ (z : ℤ) (p : List ℤ × Bool). let out : List ℤ × Bool = (z ∷ p.0, p.1) in out) at rest)

-- With fuel for one round more than there are rows, after a reset the loop visits the rows 0, 1, … up to the
-- last and then ends, whatever the cursor was before.
pub visit-reset :
    (r : Result) (fuel : ℕ)
    → row_count r < fuel
    → visit fuel (reset r) ≡ (range 0 (row_count r), true)
unfolding reset
visit-reset r fuel h = visit_from (row_count r) 0 fuel _ refl (omega arith) h

get_elem?-lt {ℓ} :
    {A : Type ℓ} (xs : List A) (i : ℕ) → i < length xs → (a : A) × (get_elem? xs i ≡ some a)
get_elem?-lt [] i h = absurd (omega arith)
get_elem?-lt (x ∷ xs) zero h = (x, refl)
get_elem?-lt (x ∷ xs) (suc i) h = get_elem?-lt xs i (omega arith)

lt_of_in_range : (z : ℤ) (n : ℕ) → in_range z n ≡ true → to_index z < n
lt_of_in_range (pos i) n h = ltb→lt i n h
lt_of_in_range (negsuc i) n h = cc

value_in_range :
    (r : Result) (row col : ℤ)
    → ((cells : List Value) (i : ℕ) → get_elem? r.rows i ≡ some cells → length cells ≡ col_count r)
    → in_range row (row_count r) ≡ true
    → in_range col (col_count r) ≡ true
    → (v : Value) × (value r row col ≡ some v)
unfolding value
value_in_range r row col full hr hc =
    let (cells, er) = get_elem?-lt r.rows (to_index row) (lt_of_in_range row _ hr) in
    let (v, ec) =
      get_elem?-lt cells (to_index col)
        (rw (full cells (to_index row) er) (lt_of_in_range col _ hc)) in
    (v, rw (hr, hc, er) ec)

-- A value is there exactly when the row and the column are in range, in a result whose rows all have
-- a cell for each column.
pub value_iff :
    (r : Result) (row col : ℤ)
    → ((cells : List Value) (i : ℕ) → get_elem? r.rows i ≡ some cells → length cells ≡ col_count r)
    → ((v : Value) × (value r row col ≡ some v))
      ↔ ((in_range row (row_count r) ≡ true) × (in_range col (col_count r) ≡ true))
unfolding value
value_iff r row col full = (
  λ found. (ground (arith, found.1), ground (arith, found.1)),
  λ h. value_in_range r row col full h.0 h.1,
)
