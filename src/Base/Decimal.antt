-- ===== src/Base/Decimal.antt =====
-- `%d` and `%zu`: numbers in decimal, and a reader that undoes them.
use Prim.Native.Nat.{ℕ, zero, suc, ◌+◌, ◌-◌, ◌*◌, ◌/◌, ◌%◌, ◌^◌, ◌≤◌, ◌<◌}
use mathlib.Core.Path.{◌≡◌, refl, ap, ◌∙◌, sym}
use mathlib.Core.Logic.{inl, inr}
use mathlib.Core.List.{[], ◌∷◌}
use native.Mathlib.Omega.{arith}
use native.Mathlib.Nat.{pow-suc}
use corm.Base.Tests.{ltb, if◌then◌else◌, Bool-cases}
use corm.Base.Lists.{length}
use corm.Base.Codes.{Text, codes}
use corm.Base.Signed.{ℤ, pos, negsuc}

-- The fuel bounds the digits: a number below `10 ^ f` needs at most `f`.
digits : ℕ → ℕ → Text → Text
digits zero n out = out
digits (suc f) n out =
    let rest = digits f (n / 10) ((48 + n % 10) ∷ out) in if ltb n 10 then (48 + n) ∷ out else rest

-- The number itself is fuel enough.
unfoldable pub show : ℕ → Text
unfolding digits
show n = digits (suc n) n []

unfoldable pub show_int : ℤ → Text
unfolding show
show_int (pos n) = show n
show_int (negsuc n) = b'-' ∷ show (n + 1)

-- The value of a run of digits, after `acc`.
pub read : ℕ → Text → ℕ
read acc [] = acc
read acc (c ∷ cs) = read (acc * 10 + (c - 48)) cs

read-digits : (f n : ℕ) (out : Text) → n < f → read 0 (digits f n out) ≡ read n out
unfolding digits read
read-digits zero n out h = absurd (omega arith)
read-digits (suc f) n out h = elim (Bool-cases (ltb n 10)) [
  | inl e ↦ rw e (ap (λ k. read k out) (omega arith))
  | inr e ↦ rw e (
      read-digits f (n / 10) ((48 + n % 10) ∷ out) (ground arith)
      ∙ ap (λ k. read k out) (omega arith))
]

pub read-show : (n : ℕ) → read 0 (show n) ≡ n
unfolding show read
read-show n = read-digits (suc n) n [] (omega arith)

-- Different numbers are written differently.
pub show-injective : (m n : ℕ) → show m ≡ show n → m ≡ n
show-injective m n e = sym (read-show m) ∙ ap (read 0) e ∙ read-show n

length-digits :
    (f n k : ℕ) (out : Text) → n < 10 ^ suc k → length (digits f n out) ≤ length out + suc k
unfolding digits
length-digits zero n k out h = omega arith
length-digits (suc f) n zero out h = ground arith
length-digits (suc f) n (suc k) out h = elim (Bool-cases (ltb n 10)) [
  | inl e ↦ rw e (omega arith)
  | inr e ↦ rw e (omega (arith, length-digits f (n / 10) k ((48 + n % 10) ∷ out) (below k h)))
]
  where
    below : (k : ℕ) → n < 10 ^ suc (suc k) → n / 10 < 10 ^ suc k
    below k h = omega (arith, pow-suc 10 (suc k))

-- A number below `10 ^ (k + 1)` has at most `k + 1` digits.
pub length-show : (n k : ℕ) → n < 10 ^ suc k → length (show n) ≤ suc k
unfolding show
length-show n k h = omega (arith, length-digits (suc n) n k [] h)

-- Every character of a decimal number is a digit.
abbrev pub IsDigits : Text → Type 0
IsDigits [] = Unit {0}
IsDigits (c ∷ cs) = (48 ≤ c) × (c ≤ 57) × IsDigits cs

digits-IsDigits : (f n : ℕ) (out : Text) → IsDigits out → IsDigits (digits f n out)
unfolding digits
digits-IsDigits zero n out h = h
digits-IsDigits (suc f) n out h = elim (Bool-cases (ltb n 10)) [
  | inl e ↦ rw e (ground arith)
  | inr e ↦ rw e (digits-IsDigits f (n / 10) ((48 + n % 10) ∷ out) (omega arith, omega arith, h))
]

pub show-IsDigits : (n : ℕ) → IsDigits (show n)
unfolding show
show-IsDigits n = digits-IsDigits (suc n) n [] tt

show_test : show 2_147_483_647 ≡ codes "2147483647"
unfolding show
show_test = refl

show_zero : show_int (negsuc 11) ≡ codes "-12"
unfolding show_int
show_zero = refl
