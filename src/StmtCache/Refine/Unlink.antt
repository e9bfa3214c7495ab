-- ===== src/StmtCache/Refine/Unlink.antt =====
-- Taking a node out of the list and putting one in front.
use corm.Base.{◌≡◌, ◌≢◌, refl, sym, ap, subst, ◌∙◌, List, [], ◌∷◌, ◌++◌, append-nil}
use corm.StmtCache.{Ptr, null, put_at, Cache, detach, move_tail, link_front}
use corm.StmtCache.Links.{
  Fwd, Bwd, Out, NoDup-middle, last_of, Fwd-middle, Fwd-last_of, Fwd-unlink, Bwd-middle, Bwd-left,
  Bwd-right, Bwd-unlink, Bwd-last_of, last_of-middle, front-Fwd, front-Bwd,
}
use corm.StmtCache.Refine.{Linked, ==_ne, ==_eq}

module _ {ℓ} {V : Type ℓ} where
  prev_last : (c : Cache V) (a : Ptr) → c.next a ≡ null → (detach c a).prev ≡ c.prev
  unfolding detach
  prev_last c a e = rw (==_eq (c.next a) null e)

  prev_inner :
      (c : Cache V) (a : Ptr)
      → c.next a ≢ null
      → (detach c a).prev ≡ put_at c.prev (c.next a) (c.prev a)
  unfolding detach
  prev_inner c a h = rw (==_ne (c.next a) null h)

  next_first : (c : Cache V) (a : Ptr) → c.prev a ≡ null → (detach c a).next ≡ c.next
  unfolding detach
  next_first c a e = rw (==_eq (c.prev a) null e)

  next_inner :
      (c : Cache V) (a : Ptr)
      → c.prev a ≢ null
      → (detach c a).next ≡ put_at c.next (c.prev a) (c.next a)
  unfolding detach
  next_inner c a h = rw (==_ne (c.prev a) null h)

  tail_moved :
      (c : Cache V) (a : Ptr) → a ≡ c.tail → (move_tail (detach c a) a).tail ≡ (detach c a).prev a
  unfolding move_tail detach
  tail_moved c a e = rw (==_eq a c.tail e) refl

  tail_kept : (c : Cache V) (a : Ptr) → a ≢ c.tail → (move_tail (detach c a) a).tail ≡ c.tail
  unfolding move_tail detach
  tail_kept c a h = rw (==_ne a c.tail h) refl

  -- The `prev` fields and the tail when a node has been detached.
  detach-Bwd :
      (c : Cache V) (xs : List Ptr) (a : Ptr) (ys : List Ptr)
      → Linked c (xs ++ (a ∷ ys))
      → Bwd (detach c a).prev null (move_tail (detach c a) a).tail (xs ++ ys)
  detach-Bwd c xs a [] k =
      let (solid, over) = Fwd-middle c.next c.head xs a [] k.fwd in
      let at_end = Bwd-right c.prev null c.tail xs (a ∷ []) k.bwd in
      rw (tail_moved c a (sym at_end.1), prev_last c a over, append-nil xs, at_end.0)
        (Bwd-left c.prev null c.tail xs (a ∷ []) k.bwd)
  detach-Bwd c xs a (b ∷ ys) k =
      let (solid, (e, b_solid, behind)) = Fwd-middle c.next c.head xs a (b ∷ ys) k.fwd in
      let (_, (_, rest)) = Bwd-right c.prev null c.tail xs (a ∷ b ∷ ys) k.bwd in
      let far : a ≢ c.tail =
        λ h. last_of-middle xs a b ys k.apart (h ∙ Bwd-last_of c.prev b c.tail ys rest) in
      rw (tail_kept c a far, prev_inner c a (λ h. b_solid (sym e ∙ h)), e)
        (Bwd-unlink c.prev null c.tail xs a b ys k.apart k.bwd)

  detach-Fwd :
      (c : Cache V) (x : Ptr) (xs : List Ptr) (a : Ptr) (ys : List Ptr)
      → Linked c (x ∷ (xs ++ (a ∷ ys)))
      → Fwd (detach c a).next c.head (x ∷ (xs ++ ys))
  detach-Fwd c x xs a ys k =
      let before : c.prev a ≡ last_of x xs = Bwd-middle c.prev null c.tail (x ∷ xs) a ys k.bwd in
      let inner =
        next_inner c a (λ e. Fwd-last_of c.next c.head x xs (a ∷ ys) k.fwd (sym before ∙ e)) in
      subst (λ (n : Ptr → Ptr). Fwd n c.head (x ∷ (xs ++ ys)))
        (sym (inner ∙ ap (λ (q : Ptr). put_at c.next q (c.next a)) before))
        (Fwd-unlink c.next c.head x xs a ys k.apart k.fwd)

  -- Detaching a node that is not the head leaves the other nodes linked.
  pub detach-Linked :
      (c : Cache V) (x : Ptr) (xs : List Ptr) (a : Ptr) (ys : List Ptr)
      → Linked c (x ∷ (xs ++ (a ∷ ys)))
      → Linked (move_tail (detach c a) a) (x ∷ (xs ++ ys))
  unfolding move_tail detach
  detach-Linked c x xs a ys k = record {
    fwd = detach-Fwd c x xs a ys k;
    bwd = detach-Bwd c (x ∷ xs) a ys k;
    apart = (NoDup-middle (x ∷ xs) a ys k.apart).1;
  }

  -- Detaching the head, with the head moved on, does so too.
  pub detach_head-Linked :
      (c : Cache V) (a : Ptr) (ys : List Ptr)
      → Linked c (a ∷ ys)
      → Linked (move_tail (record (detach c a) { head = (detach c a).next a }) a) ys
  unfolding move_tail
  detach_head-Linked c a ys k = record {
    fwd = rw (next_first c a k.bwd.0) k.fwd.2;
    bwd = detach-Bwd c [] a ys k;
    apart = k.apart.1;
  }

  -- A node that is not in the list, put in front of it.
  pub link_front-Linked :
      (c : Cache V) (a : Ptr) (x : Ptr) (nodes : List Ptr)
      → a ≢ null
      → Out a (x ∷ nodes)
      → Linked c (x ∷ nodes)
      → Linked (link_front c a) (a ∷ x ∷ nodes)
  unfolding link_front
  link_front-Linked c a x nodes solid out k = record {
    fwd = front-Fwd c.next c.head a (x ∷ nodes) solid out k.fwd;
    bwd = front-Bwd c.prev c.next c.head c.tail a (x ∷ nodes) k.apart out k.fwd k.bwd;
    apart = (out, k.apart);
  }
