-- ===== src/StmtCache/Refine/Remove.antt =====
-- `corm_stmt_cache_remove` on nodes and on the list.
use corm.Base.{
  ℕ, ◌+◌, ◌-◌, ◌≡◌, ◌≢◌, refl, sym, ap, subst, ◌∙◌, false, List, [], ◌∷◌, ◌++◌, All, arith, length,
  Text, text_eq, none, some, ◌==◌, if◌then◌else◌,
}
use corm.StmtCache.{Ptr, Cache, Walk, found, absent, spent, walk, detach, move_tail, remove}
use corm.StmtCache.Links.{NoDup-middle}
use corm.StmtCache.Lru.{lookup, without}
use corm.StmtCache.Refine.{
  Linked, entries, Search, miss, hit, walk-Search, lookup-miss, lookup-hit, Represents, ==_ne,
  ==_eq,
}
use corm.StmtCache.Refine.Get.{SameHeld, entries-SameHeld, length-middle}
use corm.StmtCache.Refine.Unlink.{detach-Linked, detach_head-Linked}

module _ {ℓ} {V : Type ℓ} where
  -- The lines of the call that unlink a node.
  abbrev unlinked : Cache V → Ptr → Cache V
  unlinked c p =
      let c' = detach c p in
      move_tail (record c' { head = (if p == c'.head then c'.next p else c'.head) }) p

  head_moved :
      (c : Cache V) (p : Ptr)
      → p ≡ c.head
      → unlinked c p ≡ move_tail (record (detach c p) { head = (detach c p).next p }) p
  unfolding detach
  head_moved c p e = rw (==_eq p c.head e) refl

  head_kept : (c : Cache V) (p : Ptr) → p ≢ c.head → unlinked c p ≡ move_tail (detach c p) p
  unfolding detach
  head_kept c p h = rw (==_ne p c.head h) refl

  unlinked-Linked :
      (c : Cache V) (xs : List Ptr) (a : Ptr) (ys : List Ptr)
      → Linked c (xs ++ (a ∷ ys))
      → Linked (unlinked c a) (xs ++ ys)
  unlinked-Linked c [] a ys k =
      subst (λ (d : Cache V). Linked d ys) (sym (head_moved c a (sym k.fwd.0)))
        (detach_head-Linked c a ys k)
  unlinked-Linked c (x ∷ xs) a ys k =
      let (out, _) = NoDup-middle (x ∷ xs) a ys k.apart in
      subst (λ (d : Cache V). Linked d (x ∷ (xs ++ ys)))
        (sym (head_kept c a (λ e. out.0 (e ∙ k.fwd.0)))) (detach-Linked c x xs a ys k)

  unlinked-SameHeld : (c : Cache V) (a : Ptr) → SameHeld c (unlinked c a)
  unfolding move_tail detach
  unlinked-SameHeld c a = (refl, refl)

  fewer :
      (c : Cache V) (nodes : List Ptr)
      → Linked c nodes
      → Linked (record c { size = c.size - 1 }) nodes
  fewer c nodes k = record { fwd = k.fwd; bwd = k.bwd; apart = k.apart }

  unlinked-size : (c : Cache V) (a : Ptr) → (unlinked c a).size ≡ c.size
  unfolding move_tail detach
  unlinked-size c a = refl

  -- What a removal does, by how its walk ends.
  data RemoveOutcome (c : Cache V) (nodes : List Ptr) (xs : List (Text × V)) (key : Text)
      : Type ℓ where
    kept_all :
        remove c key ≡ some (none, c)
        → lookup key xs ≡ none
        → without key xs ≡ xs
        → RemoveOutcome c nodes xs key
    took :
        (c' : Cache V) (nodes' : List Ptr) (v : V)
        → remove c key ≡ some (some v, c')
        → lookup key xs ≡ some v
        → Represents c' nodes' (without key xs)
        → RemoveOutcome c nodes xs key

  without-miss :
      (key : Text) (c : Cache V) (nodes : List Ptr)
      → All (λ a. text_eq (c.sql a) key ≡ false) nodes
      → without key (entries c nodes) ≡ entries c nodes
  without-miss key c [] m = refl
  without-miss key c (a ∷ nodes) m =
      rw m.0 (ap (◌∷◌ (c.sql a, c.stmt a)) (without-miss key c nodes m.1))

  remove_by :
      (c : Cache V) (nodes : List Ptr) (key : Text) (w : Walk)
      → walk (c.size + 1) c c.head key ≡ w
      → Search key c nodes w
      → Linked c nodes
      → c.size ≡ length nodes
      → RemoveOutcome c nodes (entries c nodes) key
  unfolding remove
  remove_by c nodes key spent e s k n = elim s [ ]
  remove_by c nodes key absent e (miss _ m) k n =
      kept_all (rw (e, remove) refl) (lookup-miss key c nodes m) (without-miss key c nodes m)
  remove_by c _ key (found a) e (hit xs _ ys m h) k n =
      let (looked, left) = lookup-hit key c xs a ys m h in
      let made : Cache V = record (unlinked c a) { size = c.size - 1 } in
      took made (xs ++ ys) (c.stmt a) (rw (e, remove) refl) looked (record {
        linked =
            subst (λ (q : ℕ). Linked (record (unlinked c a) { size = q - 1 }) (xs ++ ys))
              (unlinked-size c a) (fewer (unlinked c a) (xs ++ ys) (unlinked-Linked c xs a ys k));
        held = entries-SameHeld c made (xs ++ ys) (unlinked-SameHeld c a) ∙ sym left;
        counted = omega (arith, n, length-middle xs a ys);
      })

  -- On a cache that stands for a list, a removal ends, gives what the list has for the text, and leaves a
  -- cache that stands for the list without that entry.
  pub remove-Represents :
      (c : Cache V) (nodes : List Ptr) (xs : List (Text × V)) (key : Text)
      → Represents c nodes xs
      → (c' : Cache V) × (nodes' : List Ptr) × (remove c key ≡ some (lookup key xs, c'))
        × Represents c' nodes' (without key xs)
  remove-Represents c nodes xs key r =
      let outcome : RemoveOutcome c nodes xs key =
        subst (λ (l : List (Text × V)). RemoveOutcome c nodes l key) r.held
          (remove_by c nodes key (walk (c.size + 1) c c.head key) refl
            (walk-Search (c.size + 1) c c.head key nodes r.linked.fwd (omega (arith, r.counted)))
            r.linked r.counted) in
      elim outcome [
        | kept_all e l same ↦ (c, nodes, rw l e, rw same r)
        | took c' nodes' v e l r' ↦ (c', nodes', rw l e, r')
      ]
