-- ===== src/Base/Codes.antt =====
-- C strings as lists of character codes, without their NUL.
use Prim.Native.Nat.{ℕ, ◌+◌}
use Prim.Native.Char.{code}
use Prim.Native.String.{String}
use mathlib.Core.Path.{◌≡◌, refl, ap, sym}
use mathlib.Core.Logic.{◌↔◌}
use mathlib.Core.Bool.{Bool, true, false, ◌&&◌}
use mathlib.Core.List.{List, [], ◌∷◌, ◌++◌, append-nil}
use native.Mathlib.Omega.{arith}
use corm.Base.Tests.{◌==◌}

abbrev pub Text : Type 0
Text = List ℕ

abbrev pub codes : String → Text
codes String.[] = []
codes (String.◌∷◌ c s) = code c ∷ codes s

-- `strcmp(a, b) == 0`
abbrev pub text_eq : Text → Text → Bool
text_eq [] [] = true
text_eq [] (y ∷ ys) = false
text_eq (x ∷ xs) [] = false
text_eq (x ∷ xs) (y ∷ ys) = x == y && text_eq xs ys

pub text_eq_refl : (a : Text) → text_eq a a ≡ true
text_eq_refl [] = refl
text_eq_refl (x ∷ xs) = ground (arith, text_eq_refl xs)

pub eq_of_text_eq : (a b : Text) → text_eq a b ≡ true → a ≡ b
eq_of_text_eq [] [] h = refl
eq_of_text_eq [] (y ∷ ys) h = cc
eq_of_text_eq (x ∷ xs) [] h = cc
eq_of_text_eq (x ∷ xs) (y ∷ ys) h = ground (arith, eq_of_text_eq xs ys)

pub text_eq_iff : (a b : Text) → (text_eq a b ≡ true) ↔ (a ≡ b)
text_eq_iff a b = (eq_of_text_eq a b, λ e. subst_eq e)
  where
    subst_eq : a ≡ b → text_eq a b ≡ true
    subst_eq e = rw e (text_eq_refl b)

-- `*s != '\0'`, and `len > 0` of a buffer
abbrev pub nonempty : Text → Bool
nonempty [] = false
nonempty (_ ∷ _) = true

-- The texts one after the other, with `sep` between two neighbours.
abbrev pub join : Text → List Text → Text
join sep [] = []
join sep (x ∷ []) = x
join sep (x ∷ y ∷ xs) = x ++ (sep ++ join sep (y ∷ xs))

-- The texts with `sep` in front of each.
unfoldable pub after_first : Text → List Text → Text
after_first sep [] = []
after_first sep (x ∷ xs) = sep ++ (x ++ after_first sep xs)

pub join-cons : (sep x : Text) (xs : List Text) → join sep (x ∷ xs) ≡ x ++ after_first sep xs
unfolding after_first
join-cons sep x [] = sym (append-nil x)
join-cons sep x (y ∷ xs) = ap (λ t. x ++ (sep ++ t)) (join-cons sep y xs)

-- How often a character stands in a text.
abbrev pub count_char : ℕ → Text → ℕ
count_char c [] = 0
count_char c (x ∷ xs) = (elim (x == c) [ true ↦ 1 | false ↦ 0 ]) + count_char c xs

pub count_char-append :
    (c : ℕ) (xs ys : Text) → count_char c (xs ++ ys) ≡ count_char c xs + count_char c ys
count_char-append c [] ys = omega arith
count_char-append c (x ∷ xs) ys = ground (arith, count_char-append c xs ys)
