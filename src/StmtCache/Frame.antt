-- ===== src/StmtCache/Frame.antt =====
-- What the calls of src/internal/stmt_cache.c leave alone besides the nodes.
use corm.Base.{
  ◌+◌, ◌≡◌, refl, subst, ◌∙◌, true, not, ◌&&◌, Option, none, some, inl, inr, ◌⊎◌, Bool-cases,
  Option-cases, Text, ◌==◌, leb,
}
use corm.StmtCache.{
  Ptr, null, Cache, Walk, found, absent, spent, walk, detach, move_tail, link_front, move_front,
  get, evict, make_room, add_front, put, remove,
}

Walk-cases : (w : Walk) → (w ≡ spent) ⊎ ((w ≡ absent) ⊎ ((p : Ptr) × (w ≡ found p)))
Walk-cases spent = inl refl
Walk-cases absent = inr (inl refl)
Walk-cases (found p) = inr (inr (p, refl))

module _ {ℓ} {V : Type ℓ} where
  -- What a call leaves alone besides its nodes.
  abbrev pub Keeps {κ} : {A : Type κ} → Cache V → Option (A × Cache V) → Type 0
  Keeps c none = Unit
  Keeps c (some (a, c')) = (c'.capacity ≡ c.capacity) × (c'.has_destroy_fn ≡ c.has_destroy_fn)

  abbrev pub Spares {κ} : {A : Type κ} → Cache V → Option (A × Cache V) → Type ℓ
  Spares c none = Unit
  Spares c (some (a, c')) = c'.destroyed ≡ c.destroyed

  move_front-Keeps :
      (c : Cache V) (p : Ptr)
      → ((move_front c p).capacity ≡ c.capacity)
        × ((move_front c p).has_destroy_fn ≡ c.has_destroy_fn)
        × ((move_front c p).destroyed ≡ c.destroyed)
  unfolding move_front move_tail detach link_front
  move_front-Keeps c p = elim (Bool-cases (p == c.head)) [
    | inl e ↦ rw e (refl, refl, refl)
    | inr e ↦ rw e (refl, refl, refl)
  ]

  pub get-Keeps : (c : Cache V) (key : Text) → Keeps c (get c key) × Spares c (get c key)
  unfolding get
  get-Keeps c key = elim (Walk-cases (walk (c.size + 1) c c.head key)) [
    | inl e ↦ rw (e, get) (tt, tt)
    | inr (inl e) ↦ rw (e, get) ((refl, refl), refl)
    | inr (inr (p, e)) ↦
        let (capacity, flag, destroyed) = move_front-Keeps c p in
        rw (e, get) ((capacity, flag), destroyed)
  ]

  pub remove-Keeps : (c : Cache V) (key : Text) → Keeps c (remove c key) × Spares c (remove c key)
  unfolding remove move_tail detach
  remove-Keeps c key = elim (Walk-cases (walk (c.size + 1) c c.head key)) [
    | inl e ↦ rw (e, remove) (tt, tt)
    | inr (inl e) ↦ rw (e, remove) ((refl, refl), refl)
    | inr (inr (p, e)) ↦ rw (e, remove) ((refl, refl), refl)
  ]

  make_room-Keeps :
      (c : Cache V)
      → ((make_room c).capacity ≡ c.capacity) × ((make_room c).has_destroy_fn ≡ c.has_destroy_fn)
  unfolding evict
  make_room-Keeps c = elim (Bool-cases (leb c.capacity c.size && not (c.tail == null))) [
    | inl e ↦ rw e (refl, refl)
    | inr e ↦ rw e (refl, refl)
  ]

  pub put-Keeps : (p : Ptr) (c : Cache V) (key : Text) (v : V) → Keeps c (put p true c key v)
  unfolding put add_front
  put-Keeps p c key v = elim (Option-cases (get c key)) [
    | inl e ↦ rw (e, put) tt
    | inr ((some w, c'), e) ↦
        rw (e, put) (subst (λ (o : Option (Option V × Cache V)). Keeps c o) e (get-Keeps c key).0)
    | inr ((none, c'), e) ↦
        let (capacity, flag) =
          subst (λ (o : Option (Option V × Cache V)). Keeps c o) e (get-Keeps c key).0 in
        let (capacity', flag') = make_room-Keeps c' in
        elim (Bool-cases (p == null)) [
          | inl n ↦ rw (e, put, n) (capacity' ∙ capacity, flag' ∙ flag)
          | inr n ↦ rw (e, put, n) (capacity' ∙ capacity, flag' ∙ flag)
        ]
  ]
