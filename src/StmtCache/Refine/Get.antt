-- ===== src/StmtCache/Refine/Get.antt =====
-- `corm_stmt_cache_get` on nodes and on the list.
use corm.Base.{
  suc, ◌+◌, ◌≡◌, refl, sym, ap, ap₂, subst, ◌∙◌, List, [], ◌∷◌, ◌++◌, arith, length, Text,
  text_eq_iff, none, some, ◌==◌, inl, inr, Bool-cases,
}
use corm.StmtCache.{
  Ptr, Cache, Walk, found, absent, spent, walk, detach, move_tail, link_front, move_front, get,
}
use corm.StmtCache.Links.{NoDup-middle, Fwd-middle}
use corm.StmtCache.Lru.{lookup, without, used}
use corm.StmtCache.Refine.{
  Linked, entries, Search, miss, hit, walk-Search, lookup-miss, lookup-hit, Represents, ==_ne,
  ==_eq,
}
use corm.StmtCache.Refine.Unlink.{detach-Linked, link_front-Linked}

pub length-middle :
    (xs : List Ptr) (a : Ptr) (ys : List Ptr) → length (xs ++ (a ∷ ys)) ≡ suc (length (xs ++ ys))
length-middle [] a ys = refl
length-middle (x ∷ xs) a ys = ap suc (length-middle xs a ys)

module _ {ℓ} {V : Type ℓ} where
  -- Relinking moves no text and no statement.
  abbrev pub SameHeld : Cache V → Cache V → Type ℓ
  SameHeld c c' = (c'.sql ≡ c.sql) × (c'.stmt ≡ c.stmt)

  pub entries-SameHeld :
      (c c' : Cache V) (nodes : List Ptr) → SameHeld c c' → entries c' nodes ≡ entries c nodes
  entries-SameHeld c c' [] s = refl
  entries-SameHeld c c' (a ∷ nodes) s =
      ap₂ (λ (e : Text × V) (es : List (Text × V)). e ∷ es)
        (ap₂ (λ (f : Ptr → Text) (g : Ptr → V). let e : Text × V = (f a, g a) in e) s.0 s.1)
        (entries-SameHeld c c' nodes s)

  -- Any node moves to the front.
  pub move_front-Linked :
      (c : Cache V) (xs : List Ptr) (a : Ptr) (ys : List Ptr)
      → Linked c (xs ++ (a ∷ ys))
      → Linked (move_front c a) (a ∷ (xs ++ ys))
  unfolding move_front
  move_front-Linked c [] a ys k = rw (==_eq a c.head (sym k.fwd.0)) k
  move_front-Linked c (x ∷ xs) a ys k =
      let (out, rest) = NoDup-middle (x ∷ xs) a ys k.apart in
      let (solid, _) = Fwd-middle c.next c.head (x ∷ xs) a ys k.fwd in
      rw (==_ne a c.head (λ e. out.0 (e ∙ k.fwd.0))) (
        link_front-Linked (move_tail (detach c a) a) a x (xs ++ ys) solid out
          (detach-Linked c x xs a ys k))

  pub move_front-SameHeld : (c : Cache V) (a : Ptr) → SameHeld c (move_front c a)
  unfolding move_front move_tail detach link_front
  move_front-SameHeld c a = elim (Bool-cases (a == c.head)) [
    | inl e ↦ rw e (refl, refl)
    | inr e ↦ rw e (refl, refl)
  ]

  pub move_front-rest :
      (c : Cache V) (a : Ptr)
      → ((move_front c a).size ≡ c.size)
        × ((move_front c a).capacity ≡ c.capacity)
        × ((move_front c a).destroyed ≡ c.destroyed)
  unfolding move_front move_tail detach link_front
  move_front-rest c a = elim (Bool-cases (a == c.head)) [
    | inl e ↦ rw e (refl, refl, refl)
    | inr e ↦ rw e (refl, refl, refl)
  ]

  -- What a get does, by how its walk ends.
  pub data GetOutcome (c : Cache V) (nodes : List Ptr) (xs : List (Text × V)) (key : Text)
      : Type ℓ where
    missed : get c key ≡ some (none, c) → lookup key xs ≡ none → GetOutcome c nodes xs key
    moved :
        (c' : Cache V) (nodes' : List Ptr) (v : V)
        → get c key ≡ some (some v, c')
        → lookup key xs ≡ some v
        → Represents c' nodes' (used key xs)
        → (c'.capacity ≡ c.capacity) × (c'.destroyed ≡ c.destroyed)
        → GetOutcome c nodes xs key

  used_hit :
      (key : Text) (xs : List (Text × V)) (v : V)
      → lookup key xs ≡ some v
      → used key xs ≡ (key, v) ∷ without key xs
  used_hit key xs v e = rw (e, used) refl

  get_by :
      (c : Cache V) (nodes : List Ptr) (key : Text) (w : Walk)
      → walk (c.size + 1) c c.head key ≡ w
      → Search key c nodes w
      → Linked c nodes
      → c.size ≡ length nodes
      → GetOutcome c nodes (entries c nodes) key
  unfolding get
  get_by c nodes key spent e s k n = elim s [ ]
  get_by c nodes key absent e (miss _ m) k n = missed (rw (e, get) refl) (lookup-miss key c nodes m)
  get_by c _ key (found a) e (hit xs _ ys m h) k n =
      let (looked, left) = lookup-hit key c xs a ys m h in
      let (size, capacity, destroyed) = move_front-rest c a in
      let same : c.sql a ≡ key = (text_eq_iff (c.sql a) key).0 h in
      moved (move_front c a) (a ∷ (xs ++ ys)) (c.stmt a) (rw (e, get) refl) looked
        (record {
          linked = move_front-Linked c xs a ys k;
          held =
              entries-SameHeld c (move_front c a) (a ∷ (xs ++ ys)) (move_front-SameHeld c a)
              ∙ (ap₂ (λ (t : Text) (es : List (Text × V)). (t, c.stmt a) ∷ es) same (sym left)
                  ∙ sym (used_hit key _ (c.stmt a) looked));
          counted = size ∙ (n ∙ length-middle xs a ys);
        })
        (capacity, destroyed)

  pub get-GetOutcome :
      (c : Cache V) (nodes : List Ptr) (xs : List (Text × V)) (key : Text)
      → Represents c nodes xs
      → GetOutcome c nodes xs key
  get-GetOutcome c nodes xs key r =
      subst (λ (l : List (Text × V)). GetOutcome c nodes l key) r.held
        (get_by c nodes key (walk (c.size + 1) c c.head key) refl
          (walk-Search (c.size + 1) c c.head key nodes r.linked.fwd (omega (arith, r.counted)))
          r.linked r.counted)

  -- On a cache that stands for a list, a get ends, gives what the list has for the text, and leaves a cache
  -- that stands for the list with that entry in front.
  pub get-Represents :
      (c : Cache V) (nodes : List Ptr) (xs : List (Text × V)) (key : Text)
      → Represents c nodes xs
      → (c' : Cache V) × (nodes' : List Ptr) × (get c key ≡ some (lookup key xs, c'))
        × Represents c' nodes' (used key xs)
  get-Represents c nodes xs key r = elim (get-GetOutcome c nodes xs key r) [
    | missed e l ↦ (c, nodes, rw l e, rw (l, used) r)
    | moved c' nodes' v e l r' _ ↦ (c', nodes', rw l e, r')
  ]
