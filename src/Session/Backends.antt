-- ===== src/Session/Backends.antt =====
-- src/backend/backend.c: the registry of backends, an array of at most 8. It is changed under a lock; a
-- registered backend stands for a value of any type.
use corm.Base.{
  ℕ, suc, ◌+◌, ◌≡◌, ◌≤◌, refl, sym, ap, ◌∙◌, Bool, true, false, List, [], ◌∷◌, Option, none, some,
  if◌then◌else◌, inl, inr, Bool-cases, length, max, leb, arith, Err, ok, err_generic, BackendType,
  sqlite, mysql, postgres,
}

abbrev pub same_type : BackendType → BackendType → Bool
same_type sqlite sqlite = true
same_type mysql mysql = true
same_type postgres postgres = true
same_type _ _ = false

same_type-eq : (s t : BackendType) → same_type s t ≡ true → s ≡ t
same_type-eq sqlite sqlite h = refl
same_type-eq mysql mysql h = refl
same_type-eq postgres postgres h = refl
same_type-eq sqlite mysql h = cc
same_type-eq sqlite postgres h = cc
same_type-eq mysql sqlite h = cc
same_type-eq mysql postgres h = cc
same_type-eq postgres sqlite h = cc
same_type-eq postgres mysql h = cc

same_type_refl : (t : BackendType) → same_type t t ≡ true
same_type_refl sqlite = refl
same_type_refl mysql = refl
same_type_refl postgres = refl

same_type-other :
    (t type other : BackendType)
    → same_type t type ≡ false
    → same_type t other ≡ true
    → same_type type other ≡ false
same_type-other t type other h k = elim (Bool-cases (same_type type other)) [
  | inr apart ↦ apart
  | inl both ↦
      let e : t ≡ type = same_type-eq t other k ∙ sym (same_type-eq type other both) in
      let same : same_type t type ≡ true =
        ap (λ (u : BackendType). same_type u type) e ∙ same_type_refl type in
      absurd cc
]

abbrev pub max_backends : ℕ
max_backends = 8

module _ {ℓ} {V : Type ℓ} where
  -- The loop over the entries: the first of the type is replaced, or a new one stands at the end.
  unfoldable pub replace : BackendType → V → List (BackendType × V) → List (BackendType × V)
  replace type backend [] = (type, backend) ∷ []
  replace type backend ((t, b) ∷ rest) =
      if same_type t type then (t, backend) ∷ rest else (t, b) ∷ replace type backend rest

  -- The type is the one in the backend's own field `type`, which the source reads.
  unfoldable pub register_backend :
      BackendType → V → List (BackendType × V) → Err × List (BackendType × V)
  unfolding replace
  register_backend type backend entries =
      if leb max_backends (length entries)
      then (err_generic, entries)
      else (ok, replace type backend entries)

  unfoldable pub get_backend : BackendType → List (BackendType × V) → Option V
  get_backend type [] = none
  get_backend type ((t, b) ∷ rest) = if same_type t type then some b else get_backend type rest

  abbrev pub count_type : BackendType → List (BackendType × V) → ℕ
  count_type type [] = 0
  count_type type ((t, b) ∷ rest) =
      if same_type t type then suc (count_type type rest) else count_type type rest

  -- No type is there twice.
  abbrev pub OnePerType : List (BackendType × V) → Type 0
  OnePerType entries = (type : BackendType) → count_type type entries ≤ 1

  length-count_type :
      (entries : List (BackendType × V))
      → length entries
        ≡ count_type sqlite entries + count_type mysql entries + count_type postgres entries
  length-count_type [] = omega arith
  length-count_type ((sqlite, b) ∷ rest) = omega (arith, length-count_type rest)
  length-count_type ((mysql, b) ∷ rest) = omega (arith, length-count_type rest)
  length-count_type ((postgres, b) ∷ rest) = omega (arith, length-count_type rest)

  get_backend-replace :
      (type other : BackendType) (backend : V) (entries : List (BackendType × V))
      → get_backend other (replace type backend entries)
        ≡ (if same_type type other then some backend else get_backend other entries)
  unfolding replace get_backend
  get_backend-replace type other backend [] = refl
  get_backend-replace type other backend ((t, b) ∷ rest) = elim (Bool-cases (same_type t type)) [
    | inl h ↦
        let e : same_type t other ≡ same_type type other =
          ap (λ (u : BackendType). same_type u other) (same_type-eq t type h) in
        elim (Bool-cases (same_type type other)) [
          | inl k ↦ rw (h, replace, e, k) refl
          | inr k ↦ rw (h, replace, e, k) refl
        ]
    | inr h ↦ elim (Bool-cases (same_type t other)) [
      | inl k ↦ rw (h, replace, k, same_type-other t type other h k) refl
      | inr k ↦ rw (h, replace, k) (get_backend-replace type other backend rest)
    ]
  ]

  count_type-replace :
      (type other : BackendType) (backend : V) (entries : List (BackendType × V))
      → count_type other (replace type backend entries) ≡ (
          if same_type type other
          then max 1 (count_type other entries)
          else count_type other entries)
  unfolding replace
  count_type-replace type other backend [] = ground arith
  count_type-replace type other backend ((t, b) ∷ rest) = elim (Bool-cases (same_type t type)) [
    | inl h ↦
        let e : same_type t other ≡ same_type type other =
          ap (λ (u : BackendType). same_type u other) (same_type-eq t type h) in
        elim (Bool-cases (same_type type other)) [
          | inl k ↦ rw (h, replace, e, k) (omega arith)
          | inr k ↦ rw (h, replace, e, k) refl
        ]
    | inr h ↦ elim (Bool-cases (same_type t other)) [
      | inl k ↦
          rw (h, replace, k, same_type-other t type other h k)
            (ap suc (
              count_type-replace type other backend rest
              ∙ rw (same_type-other t type other h k) refl))
      | inr k ↦ rw (h, replace, k) (count_type-replace type other backend rest)
    ]
  ]

  -- In a registry that has no type twice there is always room: the backend is registered, it is what its
  -- type gives from then on, every other type gives what it gave, and still no type is there twice.
  pub register_backend-OnePerType :
      (type other : BackendType) (backend : V) (entries : List (BackendType × V))
      → OnePerType entries
      → ((register_backend type backend entries).0 ≡ ok)
        × (get_backend other (register_backend type backend entries).1
            ≡ (if same_type type other then some backend else get_backend other entries))
        × OnePerType (register_backend type backend entries).1
  unfolding register_backend
  register_backend-OnePerType type other backend entries one =
      let few : length entries ≤ 3 =
        omega (arith, length-count_type entries, one sqlite, one mysql, one postgres) in
      let room : leb max_backends (length entries) ≡ false = ground arith in
      (
        rw room refl,
        rw room (get_backend-replace type other backend entries),
        rw room (λ (t : BackendType).
            rw (count_type-replace type t backend entries) (ground (arith, one t))),
      )
