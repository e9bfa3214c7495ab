-- ===== src/StmtCache/Lru.antt =====
-- What the cache of src/internal/stmt_cache.c is meant to be: a list of texts and statements, the one used
-- last in front.
use corm.Base.{
  ℕ, suc, ◌-◌, ◌≤◌, ◌<◌, ◌≡◌, refl, ap, arith, inl, inr, Bool-cases, Option-cases, List, [], ◌∷◌,
  Option, none, some, if◌then◌else◌, leb, length, Text, text_eq,
}

module _ {ℓ} {V : Type ℓ} where
  -- The statement of the first entry with the text.
  abbrev pub lookup : Text → List (Text × V) → Option V
  lookup key [] = none
  lookup key ((k, v) ∷ xs) = if text_eq k key then some v else lookup key xs

  -- The list without it.
  abbrev pub without : Text → List (Text × V) → List (Text × V)
  without key [] = []
  without key ((k, v) ∷ xs) = if text_eq k key then xs else (k, v) ∷ without key xs

  -- The list with it in front.
  abbrev pub used : Text → List (Text × V) → List (Text × V)
  used key xs = elim (lookup key xs) [ none ↦ xs | some v ↦ (key, v) ∷ without key xs ]

  -- The list without its last entry, and that entry's statement.
  abbrev pub all_but_last : List (Text × V) → List (Text × V)
  all_but_last [] = []
  all_but_last (x ∷ []) = []
  all_but_last (x ∷ y ∷ xs) = x ∷ all_but_last (y ∷ xs)

  abbrev pub last_stmt : List (Text × V) → List V
  last_stmt [] = []
  last_stmt ((k, v) ∷ []) = v ∷ []
  last_stmt (x ∷ y ∷ xs) = last_stmt (y ∷ xs)

  -- What is left when one more is to come into a cache of the capacity, and what is destroyed for it.
  abbrev pub roomy : ℕ → List (Text × V) → List (Text × V)
  roomy capacity xs = if leb capacity (length xs) then all_but_last xs else xs

  abbrev pub evicted : ℕ → List (Text × V) → List V
  evicted capacity xs = if leb capacity (length xs) then last_stmt xs else []

  -- A put: the entry is used if it is there; if not, it comes in front of what there is room for.
  abbrev pub stored : ℕ → Text → V → List (Text × V) → List (Text × V)
  stored capacity key v xs = elim (lookup key xs) [
    | some _ ↦ used key xs
    | none ↦ (key, v) ∷ roomy capacity xs
  ]

  -- What a put destroys.
  abbrev pub dropped : ℕ → Text → List (Text × V) → List V
  dropped capacity key xs = elim (lookup key xs) [ some _ ↦ [] | none ↦ evicted capacity xs ]

  length-without :
      (key : Text) (xs : List (Text × V)) (v : V)
      → lookup key xs ≡ some v
      → suc (length (without key xs)) ≡ length xs
  length-without key [] v e = cc
  length-without key ((k, w) ∷ xs) v e = elim (Bool-cases (text_eq k key)) [
    | inl h ↦ rw (h, without) refl
    | inr h ↦
        let later : lookup key xs ≡ some v = ground (arith, e, h) in
        rw (h, without) (ap suc (length-without key xs v later))
  ]

  pub length-used : (key : Text) (xs : List (Text × V)) → length (used key xs) ≡ length xs
  length-used key xs = elim (Option-cases (lookup key xs)) [
    | inl e ↦ rw (e, used) refl
    | inr (v, e) ↦ rw (e, used) (length-without key xs v e)
  ]

  pub length-without_le : (key : Text) (xs : List (Text × V)) → length (without key xs) ≤ length xs
  length-without_le key [] = omega arith
  length-without_le key ((k, v) ∷ xs) = elim (Bool-cases (text_eq k key)) [
    | inl h ↦ rw h (omega arith)
    | inr h ↦ rw h (omega (arith, length-without_le key xs))
  ]

  length-all_but_last : (xs : List (Text × V)) → length (all_but_last xs) ≡ length xs - 1
  length-all_but_last [] = refl
  length-all_but_last (x ∷ []) = refl
  length-all_but_last (x ∷ y ∷ xs) = omega (arith, length-all_but_last (y ∷ xs))

  -- A put keeps a list within its capacity.
  pub length-stored :
      (capacity : ℕ) (key : Text) (v : V) (xs : List (Text × V))
      → 0 < capacity
      → length xs ≤ capacity
      → length (stored capacity key v xs) ≤ capacity
  length-stored capacity key v xs pos h = elim (Option-cases (lookup key xs)) [
    | inr (w, e) ↦ rw (e, stored) (omega (arith, length-used key xs, h))
    | inl e ↦ elim (Bool-cases (leb capacity (length xs))) [
      | inl f ↦ rw (e, f, stored, roomy) (omega (arith, length-all_but_last xs))
      | inr f ↦ rw (e, f, stored, roomy) (ground (arith, f))
    ]
  ]
