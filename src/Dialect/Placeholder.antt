-- ===== src/Dialect/Placeholder.antt =====
-- Placeholders: none is cut by the 16-byte buffers of the builder, and those of PostgreSQL differ.
use corm.Base.{
  ℕ, zero, suc, ◌++◌, ◌+◌, ◌^◌, ◌<◌, ◌≡◌, ◌∙◌, sym, [], ◌∷◌, List, arith, take_all, Text, show,
  show-injective, length-show, BackendType, postgres,
}
use corm.Dialect.{placeholder_str, quote}

-- The builder's `ph_buf[16]`.
abbrev pub placeholder : BackendType → ℕ → Text
placeholder bt i = placeholder_str bt i 16

-- A quoted name on its own.
abbrev pub ident : BackendType → Text → Text
ident bt name = quote bt name ++ (name ++ quote bt name)

-- The placeholders of `n` parameters from index `i`.
abbrev pub marks : BackendType → ℕ → ℕ → List Text
marks bt i zero = []
marks bt i (suc n) = placeholder bt i ∷ marks bt (i + 1) n

-- An index of an `int` leaves its placeholder whole.
pub placeholder-postgres : (i : ℕ) → i < 2 ^ 31 → placeholder postgres i ≡ b'$' ∷ show (i + 1)
unfolding placeholder_str
placeholder-postgres i h = take_all 15 _ (omega (arith, length-show (i + 1) 9 (omega arith)))

-- Two indices of an `int` never share a placeholder.
pub placeholder-injective :
    (i j : ℕ) → i < 2 ^ 31 → j < 2 ^ 31 → placeholder postgres i ≡ placeholder postgres j → i ≡ j
placeholder-injective i j hi hj e =
    let whole : ◌≡◌ {A = Text} (b'$' ∷ show (i + 1)) (b'$' ∷ show (j + 1)) =
      sym (placeholder-postgres i hi) ∙ e ∙ placeholder-postgres j hj in
    omega (arith, show-injective (i + 1) (j + 1) (tail_eq whole))
  where
    tail_eq :
        ◌≡◌ {A = Text} (b'$' ∷ show (i + 1)) (b'$' ∷ show (j + 1)) → show (i + 1) ≡ show (j + 1)
    tail_eq p = cc
