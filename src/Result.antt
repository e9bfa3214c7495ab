-- ===== src/Result.antt =====
-- src/result.c: result sets. `rows` holds `row_count` rows of `column_count` values; an `int` index
-- is an integer. A NULL pointer is `none`. The five allocations of `corm_result_new` are an argument,
-- a test of the number of the call.
pub mod Cells
pub mod Cursor
mod Tests
use corm.Base.{
  ℕ, zero, suc, ◌+◌, ◌-◌, Bool, true, false, not, ◌&&◌, ◌||◌, List, [], ◌∷◌, Option, none, some,
  ltb, leb, if◌then◌else◌, length, get_elem?, replicate, Text, ℤ, pos, negsuc, in_range, to_index,
}
use corm.Dialect.{FieldType, int, text}
use corm.Value.{Value, Payload, of_int}

-- `corm_result_t`. `current_row` counts from -1; a released result is `none`.
pub record Result : Type 0 where
  pub column_names : List (Option Text)
  pub column_types : List FieldType
  pub rows : List (List Value)
  pub current_row : ℤ
  pub refcount : ℕ

abbrev pub row_count : Result → ℕ
row_count r = length r.rows

abbrev pub col_count : Result → ℕ
col_count r = length r.column_names

-- What `calloc` leaves in a value: type CORM_INT, not null, zero.
abbrev pub zero_value : Value
zero_value = record { type = int; is_null = false; v = of_int (pos 0) }

-- The row allocations, from number `i` on.
unfoldable pub all_rows : (ℕ → Bool) → ℕ → ℕ → Bool
all_rows calloc i zero = true
all_rows calloc i (suc n) = calloc i && all_rows calloc (i + 1) n

-- `corm_result_new`: what was allocated is freed again when a later allocation fails.
unfoldable pub new : (ℕ → Bool) → ℕ → ℕ → Option Result
unfolding all_rows
new calloc column_count row_count =
    if calloc 0
      && calloc 1
      && calloc 2
      && (not (ltb 0 row_count) || calloc 3)
      && all_rows calloc 4 row_count
    then some (record {
      column_names = replicate column_count none;
      column_types = replicate column_count int;
      rows = replicate row_count (replicate column_count zero_value);
      current_row = negsuc 0;
      refcount = 1;
    })
    else none

unfoldable pub retain : Option Result → Option Result
retain none = none
retain (some r) = some (record r { refcount = r.refcount + 1 })

-- `if (--r->refcount > 0) return;`, else everything is freed.
unfoldable pub release : Option Result → Option Result
release none = none
release (some r) = if ltb 1 r.refcount then some (record r { refcount = r.refcount - 1 }) else none

unfoldable pub col_name : Result → ℤ → Option Text
col_name r col =
    if in_range col (col_count r)
    then elim (get_elem? r.column_names (to_index col)) [ none ↦ none | some name ↦ name ]
    else none

unfoldable pub col_type : Result → ℤ → FieldType
col_type r col =
    if in_range col (col_count r)
    then elim (get_elem? r.column_types (to_index col)) [ none ↦ text | some type ↦ type ]
    else text

-- `&r->rows[row][col]`, NULL out of range.
unfoldable pub value : Result → ℤ → ℤ → Option Value
value r row col =
    if in_range row (row_count r)
    then (if in_range col (col_count r)
        then elim (get_elem? r.rows (to_index row)) [
          | none ↦ none
          | some cells ↦ get_elem? cells (to_index col)
        ]
        else none)
    else none

-- One more than an integer.
abbrev pub succ : ℤ → ℤ
succ (pos n) = pos (n + 1)
succ (negsuc zero) = pos 0
succ (negsuc (suc n)) = negsuc n

abbrev pub below : ℤ → ℕ → Bool
below (pos n) k = ltb n k
below (negsuc n) k = true

-- `corm_result_next`
unfoldable pub next : Result → Bool × Result
next r =
    let r' = record r { current_row = succ r.current_row } in
    (below r'.current_row (row_count r'), r')

unfoldable pub reset : Result → Result
reset r = record r { current_row = negsuc 0 }

-- The scalar helpers read one member of a value that is there and not null.
abbrev pub scalar {ℓ} : {A : Type ℓ} → A → (Payload → A) → Option Value → A
scalar d read none = d
scalar d read (some v) = if v.is_null then d else read v.v

unfoldable pub is_null : Result → ℤ → ℤ → Bool
unfolding value
is_null r row col = elim (value r row col) [ none ↦ true | some v ↦ v.is_null ]
