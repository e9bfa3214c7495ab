-- ===== src/Result/Tests.antt =====
-- The result set at two rows of one column.
use corm.Base.{ℕ, zero, suc, ◌≡◌, true, List, some, length, arith, get_elem?}
use corm.Result.{reset}
use corm.Result.Cursor.{visit, range, visit-reset}
use corm.Value.{Value}
use corm.Samples.{two_rows}

visit-reset_example : visit 3 (reset two_rows) ≡ (range 0 2, true)
visit-reset_example = visit-reset two_rows 3 (omega arith)

two_rows_full :
    (cells : List Value) (i : ℕ) → get_elem? two_rows.rows i ≡ some cells → length cells ≡ 1
two_rows_full cells zero e = ground arith
two_rows_full cells (suc zero) e = ground arith
two_rows_full cells (suc (suc i)) e = cc
