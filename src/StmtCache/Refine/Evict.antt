-- ===== src/StmtCache/Refine/Evict.antt =====
-- The lines of `corm_stmt_cache_put` in src/internal/stmt_cache.c that evict the tail of a full cache.
use corm.Base.{
  ℕ, suc, ◌-◌, ◌<◌, ◌≡◌, ◌≢◌, refl, sym, ap, subst, ◌∙◌, Bool, true, false, List, [], ◌∷◌, ◌++◌,
  arith, length, append-nil, leb, Text, if◌then◌else◌, inl, inr, Bool-cases,
}
use corm.StmtCache.{Ptr, null, put_at, Cache, evict, make_room}
use corm.StmtCache.Links.{
  Fwd, Bwd, Out, NoDup, NoDup-middle, Fwd-middle, Fwd-last_of, Fwd-unlink, Bwd-middle, Bwd-left,
  Bwd-right, last_of, Out-left,
}
use corm.StmtCache.Lru.{all_but_last, last_stmt, roomy, evicted}
use corm.StmtCache.Refine.{Linked, entries, Represents, ==_ne, ==_eq}
use corm.StmtCache.Refine.Get.{length-middle}

-- A list that is not empty is its front and its last.
split_last :
    (x : Ptr) (nodes : List Ptr) → (xs : List Ptr) × (a : Ptr) × (x ∷ nodes ≡ xs ++ (a ∷ []))
split_last x [] = ([], x, refl)
split_last x (y ∷ nodes) = let (xs, a, e) = split_last y nodes in (x ∷ xs, a, ap (◌∷◌ x) e)

module _ {ℓ} {V : Type ℓ} where
  evict_next :
      (c : Cache V) → c.prev c.tail ≢ null → (evict c).next ≡ put_at c.next (c.prev c.tail) null
  unfolding evict
  evict_next c h = rw (==_ne (c.prev c.tail) null h)

  evict_head : (c : Cache V) → c.head ≢ c.tail → (evict c).head ≡ c.head
  unfolding evict
  evict_head c h = rw (==_ne c.head c.tail h) refl

  -- The tail taken off.
  evict-Linked :
      (c : Cache V) (xs : List Ptr) (a : Ptr) → Linked c (xs ++ (a ∷ [])) → Linked (evict c) xs
  unfolding evict
  evict-Linked c [] a k =
      let at_tail : c.tail ≡ a = k.bwd.1 in
      let alone : c.prev c.tail ≡ null = ap c.prev at_tail ∙ k.bwd.0 in
      record {
        fwd = rw (==_eq c.head c.tail (k.fwd.0 ∙ sym at_tail)) refl;
        bwd = alone;
        apart = tt;
      }
  evict-Linked c (x ∷ xs) a k =
      let at_tail : c.tail ≡ a = (Bwd-right c.prev null c.tail (x ∷ xs) (a ∷ []) k.bwd).1 in
      let before : c.prev c.tail ≡ last_of x xs =
        ap c.prev at_tail ∙ Bwd-middle c.prev null c.tail (x ∷ xs) a [] k.bwd in
      let over : c.next a ≡ null = (Fwd-middle c.next c.head (x ∷ xs) a [] k.fwd).1 in
      let (out, rest) = NoDup-middle (x ∷ xs) a [] k.apart in
      let solid : c.prev c.tail ≢ null =
        λ e. Fwd-last_of c.next c.head x xs (a ∷ []) k.fwd (sym before ∙ e) in
      let shorter : Fwd (put_at c.next (last_of x xs) null) c.head (x ∷ xs) =
        subst (λ (l : List Ptr). Fwd (put_at c.next (last_of x xs) null) c.head l)
          (append-nil (x ∷ xs))
          (subst (λ (q : Ptr). Fwd (put_at c.next (last_of x xs) q) c.head (x ∷ (xs ++ []))) over
            (Fwd-unlink c.next c.head x xs a [] k.apart k.fwd)) in
      record {
        fwd =
            subst (λ (n : Ptr → Ptr). Fwd n (evict c).head (x ∷ xs))
              (sym (evict_next c solid ∙ ap (λ (q : Ptr). put_at c.next q null) before))
              (subst (λ (h : Ptr). Fwd (put_at c.next (last_of x xs) null) h (x ∷ xs))
                (sym (evict_head c (λ e. out.0 (sym at_tail ∙ (sym e ∙ k.fwd.0))))) shorter);
        bwd =
            subst (λ (l : Ptr). Bwd c.prev null l (x ∷ xs)) (sym before)
              (Bwd-left c.prev null c.tail (x ∷ xs) (a ∷ []) k.bwd);
        apart = subst (λ (l : List Ptr). NoDup l) (append-nil (x ∷ xs)) rest;
      }

  entries-all_but_last :
      (c : Cache V) (xs : List Ptr) (a : Ptr)
      → (all_but_last (entries c (xs ++ (a ∷ []))) ≡ entries c xs)
        × (last_stmt (entries c (xs ++ (a ∷ []))) ≡ c.stmt a ∷ [])
  entries-all_but_last c [] a = (refl, refl)
  entries-all_but_last c (x ∷ []) a = (refl, refl)
  entries-all_but_last c (x ∷ y ∷ xs) a =
      let (front, last) = entries-all_but_last c (y ∷ xs) a in
      (ap (◌∷◌ (c.sql x, c.stmt x)) front, last)

  -- Room made for one more.
  pub data RoomOutcome (c : Cache V) (nodes : List Ptr) (xs : List (Text × V)) : Type ℓ where
    room :
        (nodes' : List Ptr)
        → Represents (make_room c) nodes' (roomy c.capacity xs)
        → ((make_room c).destroyed
            ≡ (if c.has_destroy_fn then evicted c.capacity xs ++ c.destroyed else c.destroyed))
        → ((p : Ptr) → Out p nodes → Out p nodes')
        → RoomOutcome c nodes xs

  pub same_if : (b : Bool) (l : List V) → l ≡ (if b then l else l)
  same_if true l = refl
  same_if false l = refl

  pub length-entries : (c : Cache V) (nodes : List Ptr) → length (entries c nodes) ≡ length nodes
  length-entries c [] = refl
  length-entries c (a ∷ nodes) = ap suc (length-entries c nodes)

  roomy_free :
      (capacity : ℕ) (xs : List (Text × V))
      → leb capacity (length xs) ≡ false
      → (roomy capacity xs ≡ xs) × (evicted capacity xs ≡ [])
  roomy_free capacity xs h = (rw (h, roomy) refl, rw (h, evicted) refl)

  roomy_full :
      (capacity : ℕ) (xs : List (Text × V))
      → leb capacity (length xs) ≡ true
      → (roomy capacity xs ≡ all_but_last xs) × (evicted capacity xs ≡ last_stmt xs)
  roomy_full capacity xs h = (rw (h, roomy) refl, rw (h, evicted) refl)

  entries-evict : (c : Cache V) (nodes : List Ptr) → entries (evict c) nodes ≡ entries c nodes
  unfolding evict
  entries-evict c [] = refl
  entries-evict c (a ∷ nodes) = ap (◌∷◌ (c.sql a, c.stmt a)) (entries-evict c nodes)

  evict_rest :
      (c : Cache V) (a : Ptr)
      → c.tail ≡ a
      → ((evict c).size ≡ c.size - 1)
        × ((evict c).destroyed ≡ (if c.has_destroy_fn then c.stmt a ∷ c.destroyed else c.destroyed))
  unfolding evict
  evict_rest c a e =
      (refl, ap (λ (q : Ptr). if c.has_destroy_fn then c.stmt q ∷ c.destroyed else c.destroyed) e)

  evict-Represents :
      (c : Cache V) (xs : List Ptr) (a : Ptr)
      → Linked c (xs ++ (a ∷ []))
      → c.size ≡ length (xs ++ (a ∷ []))
      → Represents (evict c) xs (all_but_last (entries c (xs ++ (a ∷ []))))
  evict-Represents c xs a k n =
      let size = (evict_rest c c.tail refl).0 in
      record {
        linked = evict-Linked c xs a k;
        held = entries-evict c xs ∙ sym (entries-all_but_last c xs a).0;
        counted =
            size
            ∙ omega
                (arith, n, length-middle xs a [], ap (λ (l : List Ptr). length l) (append-nil xs));
      }

  evict-RoomOutcome :
      (c : Cache V) (xs : List Ptr) (a : Ptr)
      → leb c.capacity c.size ≡ true
      → Linked c (xs ++ (a ∷ []))
      → c.size ≡ length (xs ++ (a ∷ []))
      → RoomOutcome c (xs ++ (a ∷ [])) (entries c (xs ++ (a ∷ [])))
  evict-RoomOutcome c xs a full k n =
      let at_tail : c.tail ≡ a = (Bwd-right c.prev null c.tail xs (a ∷ []) k.bwd).1 in
      let solid : c.tail ≢ null =
        λ e. (Fwd-middle c.next c.head xs a [] k.fwd).0 (sym at_tail ∙ e) in
      let (left, gone) =
        roomy_full c.capacity (entries c (xs ++ (a ∷ [])))
          (rw (length-entries c (xs ++ (a ∷ [])), ← n) full) in
      let taken : make_room c ≡ evict c = rw (full, (==_ne c.tail null solid), make_room) refl in
      room xs
        (subst (λ (d : Cache V). Represents d xs (roomy c.capacity (entries c (xs ++ (a ∷ [])))))
          (sym taken)
          (subst (λ (l : List (Text × V)). Represents (evict c) xs l) (sym left)
            (evict-Represents c xs a k n)))
        (ap (λ (d : Cache V). d.destroyed) taken
          ∙ ((evict_rest c a at_tail).1
              ∙ ap (λ (l : List V). if c.has_destroy_fn then l ++ c.destroyed else c.destroyed)
                  (sym (gone ∙ (entries-all_but_last c xs a).1))))
        (λ p out. Out-left p xs (a ∷ []) out)

  pub make_room-RoomOutcome :
      (c : Cache V) (nodes : List Ptr)
      → 0 < c.capacity
      → Linked c nodes
      → c.size ≡ length nodes
      → RoomOutcome c nodes (entries c nodes)
  make_room-RoomOutcome c nodes pos k n = elim (Bool-cases (leb c.capacity c.size)) [
    | inr h ↦
        let (left, gone) =
          roomy_free c.capacity (entries c nodes) (rw (length-entries c nodes, ← n) h) in
        let kept : make_room c ≡ c = rw (h, make_room) refl in
        room nodes
          (subst (λ (d : Cache V). Represents d nodes (roomy c.capacity (entries c nodes)))
            (sym kept) (record { linked = k; held = sym left; counted = n }))
          (ap (λ (d : Cache V). d.destroyed) kept
            ∙ (same_if c.has_destroy_fn c.destroyed
                ∙ ap (λ (l : List V). if c.has_destroy_fn then l ++ c.destroyed else c.destroyed)
                    (sym gone)))
          (λ p out. out)
    | inl h ↦
        elim nodes as (λ l. Linked c l → c.size ≡ length l → RoomOutcome c l (entries c l)) [
          | [] ↦ λ k' n'. absurd (ground (arith, n', pos, h))
          | x ∷ rest ↦ λ k' n'.
              let (xs, a, e) = split_last x rest in
              subst (λ (l : List Ptr). RoomOutcome c l (entries c l)) (sym e)
                (evict-RoomOutcome c xs a h (subst (λ (l : List Ptr). Linked c l) e k')
                  (n' ∙ ap (λ (l : List Ptr). length l) e))
        ]
          k n
  ]
