-- ===== src/Builder/Marks.antt =====
-- `append_with_placeholders` against the plain substitution of every `?` from left to right.
use corm.Base.{
  ℕ, zero, suc, ◌+◌, ◌<◌, ◌≡◌, refl, sym, ap, ap₂, ◌∙◌, true, false, [], ◌∷◌, ◌++◌, none, some, inl,
  inr, arith, ◌==◌, Bool-cases, Option-cases, append_assoc, append-nil, length, Text, count_char,
  BackendType, sqlite, mysql, codes,
}
use corm.Dialect.{placeholder_str}
use corm.Dialect.Placeholder.{placeholder}
use corm.Builder.{split_at, placeholder_loop, append_with_placeholders}

-- Each `?` of the text replaced by the placeholder of its index, counted from `i`.
unfoldable pub subst_marks : BackendType → ℕ → Text → Text
subst_marks bt i [] = []
subst_marks bt i (c ∷ cs) = elim (c == b'?') [
  | true ↦ placeholder bt i ++ subst_marks bt (i + 1) cs
  | false ↦ c ∷ subst_marks bt i cs
]

-- The cases of `strchr(text, '?')`.
split_at-none :
    (bt : BackendType) (i : ℕ) (text : Text)
    → split_at b'?' text ≡ none
    → (subst_marks bt i text ≡ text) × (count_char b'?' text ≡ 0)
unfolding split_at subst_marks
split_at-none bt i [] e = (refl, omega arith)
split_at-none bt i (c ∷ cs) e = ground (arith, split_at-none bt i cs)

-- The parts of a split behind a character that is no `?`.
split_at_later :
    (c : ℕ) (cs before behind : Text)
    → (c == b'?') ≡ false
    → split_at b'?' (c ∷ cs) ≡ some (before, behind)
    → (b : Text) × (before ≡ c ∷ b) × (split_at b'?' cs ≡ some (b, behind))
unfolding split_at
split_at_later c cs before behind miss e = elim (Option-cases (split_at b'?' cs)) [
  | inl e' ↦ absurd (ground arith)
  | inr ((b, r), e') ↦ (b, ground arith, ground arith)
]

split_at-some :
    (bt : BackendType) (i : ℕ) (text before behind : Text)
    → split_at b'?' text ≡ some (before, behind)
    → (subst_marks bt i text ≡ before ++ (placeholder bt i ++ subst_marks bt (i + 1) behind))
      × (count_char b'?' text ≡ count_char b'?' behind + 1)
      × (length behind < length text)
unfolding split_at subst_marks
split_at-some bt i [] before behind e = cc
split_at-some bt i (c ∷ cs) before behind e = elim (Bool-cases (c == b'?')) [
  | inl hit ↦
      let first : before ≡ [] = ground arith in
      let rest : behind ≡ cs = ground arith in
      (rw (hit, subst_marks, first, rest), rw (hit, rest) (omega arith), rw rest (omega arith))
  | inr miss ↦
      let (b, first, e') = split_at_later c cs before behind miss e in
      let (text, count, short) = split_at-some bt i cs b behind e' in
      (rw (miss, subst_marks, first) (ap (◌∷◌ c) text), rw miss (omega arith), omega arith)
]

-- Fuel for one round more than there are characters is never used up.
placeholder_loop_lem :
    (fuel : ℕ) (sql : Text) (bt : BackendType) (text : Text) (pi : ℕ)
    → length text < fuel
    → placeholder_loop fuel sql bt text pi
      ≡ (sql ++ subst_marks bt pi text, pi + count_char b'?' text)
unfolding placeholder_loop subst_marks
placeholder_loop_lem zero sql bt text pi h = absurd (omega arith)
placeholder_loop_lem (suc fuel) sql bt [] pi h =
    ap₂ (λ (a : Text) (b : ℕ). (a, b)) (sym (append-nil sql)) (omega arith)
placeholder_loop_lem (suc fuel) sql bt (c ∷ cs) pi h =
    elim (Option-cases (split_at b'?' (c ∷ cs))) [
      | inl e ↦
          let (text, count) = split_at-none bt pi (c ∷ cs) e in
          rw (e, placeholder_loop)
            (ap₂ (λ (a : Text) (b : ℕ). (a, b)) (ap (◌++◌ sql) (sym text)) (omega arith))
      | inr ((before, behind), e) ↦
          let (text, count, short) = split_at-some bt pi (c ∷ cs) before behind e in
          rw (e, placeholder_loop)
            (placeholder_loop_lem fuel _ bt behind (pi + 1) (omega arith)
              ∙ ap₂ (λ (a : Text) (b : ℕ). (a, b))
                  (append_assoc sql _ _ ∙ ap (◌++◌ sql) (append_assoc before _ _ ∙ sym text))
                  (omega arith))
    ]

-- The routine appends the text with every `?` replaced, numbered on from `start`, and returns how
-- many it met.
pub append_with_placeholders_lem :
    (sql : Text) (bt : BackendType) (text : Text) (start : ℕ)
    → append_with_placeholders sql bt text start
      ≡ (sql ++ subst_marks bt start text, count_char b'?' text)
unfolding append_with_placeholders
append_with_placeholders_lem sql bt text start =
    let run = placeholder_loop_lem (length text + 1) sql bt text start (omega arith) in
    rw run (ap (λ (n : ℕ). (sql ++ subst_marks bt start text, n)) (omega arith))

-- Two texts one after the other: the second goes on with the numbers of the first.
pub subst_marks-append :
    (bt : BackendType) (i : ℕ) (xs ys : Text)
    → subst_marks bt i (xs ++ ys)
      ≡ subst_marks bt i xs ++ subst_marks bt (i + count_char b'?' xs) ys
unfolding subst_marks
subst_marks-append bt i [] ys = ap (λ n. subst_marks bt n ys) (omega arith)
subst_marks-append bt i (c ∷ xs) ys = elim (Bool-cases (c == b'?')) [
  | inl hit ↦
      rw (hit, subst_marks)
        (ap (◌++◌ (placeholder bt i)) (subst_marks-append bt (i + 1) xs ys)
          ∙ sym (append_assoc (placeholder bt i) _ _)
          ∙ ap (λ (n : ℕ). (placeholder bt i ++ subst_marks bt (i + 1) xs) ++ subst_marks bt n ys)
              (omega arith))
  | inr miss ↦
      rw (miss, subst_marks)
        (ap (◌∷◌ c) (subst_marks-append bt i xs ys)
          ∙ ap (λ (n : ℕ). (c ∷ subst_marks bt i xs) ++ subst_marks bt n ys) (omega arith))
]

-- A text with no `?` is left as it is.
pub subst_marks_none :
    (bt : BackendType) (i : ℕ) (text : Text)
    → count_char b'?' text ≡ 0
    → subst_marks bt i text ≡ text
unfolding subst_marks
subst_marks_none bt i [] e = refl
subst_marks_none bt i (c ∷ cs) e = ground (arith, subst_marks_none bt i cs)

-- The backends that bind by a bare `?` keep the text as the caller wrote it.
abbrev pub BareMark : BackendType → Type 0
BareMark bt = (i : ℕ) → placeholder bt i ≡ codes "?"

pub sqlite-BareMark : BareMark sqlite
unfolding placeholder_str
sqlite-BareMark i = refl

pub mysql-BareMark : BareMark mysql
unfolding placeholder_str
mysql-BareMark i = refl

pub subst_marks_bare :
    (bt : BackendType) → BareMark bt → (i : ℕ) (text : Text) → subst_marks bt i text ≡ text
unfolding subst_marks
subst_marks_bare bt bare i [] = refl
subst_marks_bare bt bare i (c ∷ cs) =
    ground (arith, bare i, subst_marks_bare bt bare (i + 1) cs, subst_marks_bare bt bare i cs)
