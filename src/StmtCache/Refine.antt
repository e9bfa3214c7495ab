-- ===== src/StmtCache/Refine.antt =====
-- The linked nodes of src/internal/stmt_cache.c implement the list of Lru.
pub mod Unlink
pub mod Get
pub mod Evict
pub mod Put
pub mod Remove
pub mod Destroy
use corm.Base.{
  ℕ, zero, suc, ◌+◌, ◌-◌, ◌<◌, ◌≤◌, ◌≡◌, ◌≢◌, refl, sym, ap, ◌∙◌, Bool, true, false, List, [], ◌∷◌,
  ◌++◌, ◌==◌, if◌then◌else◌, All, arith, length, append-nil, ◌⊎◌, inl, inr, Bool-cases, Text,
  text_eq, text_eq_iff, Option, none, some, leb,
}
use corm.StmtCache.{
  Ptr, null, put_at, Cache, Walk, found, absent, spent, walk, detach, move_tail, link_front,
  move_front, get, evict, make_room, add_front, put, remove,
}
use corm.StmtCache.Links.{Fwd, Bwd, Out, NoDup, Fwd-middle}
use corm.StmtCache.Lru.{lookup, without, used, all_but_last, last_stmt, roomy, evicted}

-- The fields of the cache link the nodes of the list.
pub record Linked {ℓ} {V : Type ℓ} (c : Cache V) (nodes : List Ptr) : Type 0 where
  pub fwd : Fwd c.next c.head nodes
  pub bwd : Bwd c.prev null c.tail nodes
  pub apart : NoDup nodes

pub ==_ne : (p q : Ptr) → p ≢ q → (p == q) ≡ false
==_ne p q h = ground arith

pub ==_eq : (p q : Ptr) → p ≡ q → (p == q) ≡ true
==_eq p q h = ground arith

module _ {ℓ} {V : Type ℓ} where
  -- What the nodes hold.
  abbrev pub entries : Cache V → List Ptr → List (Text × V)
  entries c [] = []
  entries c (a ∷ nodes) = (c.sql a, c.stmt a) ∷ entries c nodes

  -- How a walk ends: without a hit, or at the first node with the text.
  pub data Search (key : Text) (c : Cache V) : List Ptr → Walk → Type ℓ where
    miss :
        (nodes : List Ptr)
        → All (λ a. text_eq (c.sql a) key ≡ false) nodes
        → Search key c nodes absent
    hit :
        (xs : List Ptr) (a : Ptr) (ys : List Ptr)
        → All (λ a. text_eq (c.sql a) key ≡ false) xs
        → text_eq (c.sql a) key ≡ true
        → Search key c (xs ++ (a ∷ ys)) (found a)

  Search-cons :
      (key : Text) (c : Cache V) (b : Ptr) (nodes : List Ptr) (w : Walk)
      → text_eq (c.sql b) key ≡ false
      → Search key c nodes w
      → Search key c (b ∷ nodes) w
  Search-cons key c b nodes spent h s = elim s [ ]
  Search-cons key c b nodes absent h (miss _ m) = miss (b ∷ nodes) (h, m)
  Search-cons key c b _ (found a) h (hit xs _ ys m e) = hit (b ∷ xs) a ys (h, m) e

  -- With fuel for each node and one more a walk ends.
  pub walk-Search :
      (fuel : ℕ) (c : Cache V) (p : Ptr) (key : Text) (nodes : List Ptr)
      → Fwd c.next p nodes
      → length nodes < fuel
      → Search key c nodes (walk fuel c p key)
  unfolding walk
  walk-Search zero c p key nodes h n = absurd (omega arith)
  walk-Search (suc fuel) c p key [] h n = rw h (miss [] tt)
  walk-Search (suc fuel) c p key (a ∷ nodes) h n = elim (Bool-cases (text_eq (c.sql a) key)) [
    | inl k ↦ rw (h.0, (==_ne a null h.1), k, walk) (hit [] a nodes tt k)
    | inr k ↦
        rw (h.0, (==_ne a null h.1), k, walk)
          (Search-cons key c a nodes _ k
            (walk-Search fuel c (c.next a) key nodes h.2 (omega arith)))
  ]

  lookup-miss :
      (key : Text) (c : Cache V) (nodes : List Ptr)
      → All (λ a. text_eq (c.sql a) key ≡ false) nodes
      → lookup key (entries c nodes) ≡ none
  lookup-miss key c [] m = refl
  lookup-miss key c (a ∷ nodes) m = rw m.0 (lookup-miss key c nodes m.1)

  lookup-hit :
      (key : Text) (c : Cache V) (xs : List Ptr) (a : Ptr) (ys : List Ptr)
      → All (λ a. text_eq (c.sql a) key ≡ false) xs
      → text_eq (c.sql a) key ≡ true
      → (lookup key (entries c (xs ++ (a ∷ ys))) ≡ some (c.stmt a))
        × (without key (entries c (xs ++ (a ∷ ys))) ≡ entries c (xs ++ ys))
  lookup-hit key c [] a ys m e = (rw e refl, rw e refl)
  lookup-hit key c (x ∷ xs) a ys m e =
      let (found_it, left) = lookup-hit key c xs a ys m.1 e in
      (rw m.0 found_it, rw m.0 (ap (◌∷◌ (c.sql x, c.stmt x)) left))

-- A cache in memory stands for a list: its fields link distinct nodes, which hold the entries in order, and
-- `size` counts them.
pub record Represents {ℓ} {V : Type ℓ} (c : Cache V) (nodes : List Ptr) (xs : List (Text × V))
    : Type ℓ where
  pub linked : Linked c nodes
  pub held : entries c nodes ≡ xs
  pub counted : c.size ≡ length nodes
