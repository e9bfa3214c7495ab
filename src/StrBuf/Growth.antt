-- ===== src/StrBuf/Growth.antt =====
-- The growth loop of `corm_strbuf_grow`: it ends, and gives room enough.
use native.Mathlib.Nat.{pow-suc}
use corm.Base.{
  ℕ, zero, suc, ◌+◌, ◌*◌, ◌^◌, ◌%◌, ◌≤◌, ◌<◌, ◌≡◌, inl, inr, Bool, some, arith, ltb, leb,
  Bool-cases, ltb→lt, leb→le, lt_of_leb-false, if◌then◌else◌, Err, ok, err_nomem,
}
use corm.StrBuf.{StrBuf, double_until, grow, resized}

doubled :
    (c need fuel : ℕ) → c * 2 < 2 ^ 64 → need ≤ c * 2 ^ suc fuel → need ≤ c * 2 % 2 ^ 64 * 2 ^ fuel
doubled c need fuel small e =
    let w : c * 2 % 2 ^ 64 ≡ c * 2 = omega arith in
    let e' : need ≤ c * (2 ^ fuel * 2) = rw (pow-suc 2 fuel) at e in rw w (omega arith)

-- With fuel for the doublings that `need` takes, the loop ends at a capacity that holds `need`.
double_until_ends :
    (fuel need c : ℕ)
    → 0 < c
    → c < 2 ^ 64
    → need ≤ 2 ^ 63
    → need ≤ c * 2 ^ fuel
    → (r : ℕ) × (double_until (suc fuel) need c ≡ some r) × (need ≤ r)
unfolding double_until
double_until_ends zero need c p q h e = (c, ground arith, omega arith)
double_until_ends (suc fuel) need c p q h e = elim (Bool-cases (ltb c need)) [
  | inl more ↦
      let small : c * 2 < 2 ^ 64 = omega (arith, ltb→lt c need more) in
      let (r, run, enough) =
        double_until_ends fuel need (c * 2 % 2 ^ 64) (omega arith) (omega arith) h
          (doubled c need fuel small e) in
      (r, rw more run, enough)
  | inr done ↦ (c, rw done, ground arith)
]

-- `grow` ends: it leaves the buffer alone when there is room, and otherwise either gets a block
-- with room for the text and its NUL or reports ERR_NOMEM on an unchanged buffer.
pub data Grown (sb : StrBuf) (need : ℕ) : Err → StrBuf → Type 0 where
  roomy : need ≤ sb.cap → Grown sb need ok sb
  moved :
      (n : ℕ)
      → sb.cap < need
      → need ≤ n
      → Grown sb need ok (record sb { buf = some (resized sb.buf n); cap = n })
  refused : sb.cap < need → Grown sb need err_nomem sb

module _ (realloc : ℕ → Bool) (sb : StrBuf) (extra : ℕ) where
  first : ℕ
  first = if ltb 0 sb.cap then sb.cap * 2 % 2 ^ 64 else 64

  -- Both starting capacities are positive and reach any need below 2 ^ 62 in 64 doublings.
  first_ends :
      (need : ℕ)
      → need ≤ 2 ^ 62
      → sb.cap < need
      → (n : ℕ) × (double_until 65 need first ≡ some n) × (need ≤ n)
  unfolding first
  first_ends need h full =
      double_until_ends 64 need first (ground arith) (ground arith) (omega arith) (ground arith)

  pub grow-Grown :
      sb.len + extra + 1 ≤ 2 ^ 62
      → (e : Err) × (sb' : StrBuf) × (grow realloc sb extra ≡ some (e, sb'))
        × Grown sb (sb.len + extra + 1) e sb'
  unfolding grow first
  grow-Grown h =
      let need = sb.len + extra + 1 in
      let w : need % 2 ^ 64 ≡ need = omega arith in
      elim (Bool-cases (leb need sb.cap)) [
        | inl room ↦ (ok, sb, rw (w, room), roomy (leb→le _ _ room))
        | inr full ↦
            let short = lt_of_leb-false need sb.cap full in
            let (n, run, enough) = first_ends need h short in
            elim (Bool-cases (realloc n)) [
              | inl given ↦ (ok, _, rw (w, full, run, grow, given), moved n short enough)
              | inr denied ↦ (err_nomem, sb, rw (w, full, run, grow, denied), refused short)
            ]
      ]
