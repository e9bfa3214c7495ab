-- ===== src/Sqlite/Escape.antt =====
-- `sqlite_escape`: what a quoted literal reads back.
use corm.Base.{
  ℕ, zero, suc, ◌+◌, ◌≤◌, ◌≡◌, refl, ap, ◌∙◌, true, false, [], ◌∷◌, ◌==◌, if◌then◌else◌, length,
  arith, inl, inr, Bool-cases, Text, count_char,
}
use corm.Sqlite.{escape_loop}

-- How SQL reads the inside of a literal: two quotes stand for one, and a single one ends it.
abbrev pub unquote : Text → Text
unquote [] = []
unquote (c ∷ []) = if c == b'\'' then [] else c ∷ []
unquote (c ∷ d ∷ s) =
    if c == b'\'' then (if d == b'\'' then c ∷ unquote s else []) else c ∷ unquote (d ∷ s)

unquote-plain : (c : ℕ) (s : Text) → (c == b'\'') ≡ false → unquote (c ∷ s) ≡ c ∷ unquote s
unquote-plain c [] h = rw (h, unquote) refl
unquote-plain c (d ∷ s) h = rw (h, unquote) refl

unquote-doubled :
    (c : ℕ) (s : Text) → (c == b'\'') ≡ true → unquote (b'\'' ∷ (c ∷ s)) ≡ c ∷ unquote s
unquote-doubled c s h =
    let same : b'\'' ≡ c = ground (arith, h) in rw (h, unquote) (ap (λ d. d ∷ unquote s) same)

-- Of a source whose NUL stands within the length: SQL reads the escaped text back as the source, and it is
-- longer by one character for each quote.
pub escape_round_trip :
    (len : ℕ) (src : Text)
    → length src ≤ len
    → (unquote (escape_loop len src) ≡ src)
      × (length (escape_loop len src) ≡ length src + count_char b'\'' src)
unfolding escape_loop
escape_round_trip zero [] h = (refl, omega arith)
escape_round_trip zero (c ∷ src) h = absurd (omega (arith, h))
escape_round_trip (suc len) [] h = (refl, omega arith)
escape_round_trip (suc len) (c ∷ src) h =
    let (back, long) = escape_round_trip len src (omega (arith, h)) in
    elim (Bool-cases (c == b'\'')) [
      | inl e ↦ (
        rw (e, escape_loop) (unquote-doubled c (escape_loop len src) e ∙ ap (◌∷◌ c) back),
        rw (e, escape_loop) (omega (arith, long)),
      )
      | inr e ↦ (
        rw (e, escape_loop) (unquote-plain c (escape_loop len src) e ∙ ap (◌∷◌ c) back),
        rw (e, escape_loop) (omega (arith, long)),
      )
    ]
