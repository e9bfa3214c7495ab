-- ===== src/StmtCache/Refine/Put.antt =====
-- `corm_stmt_cache_put` on nodes and on the list.
use corm.Base.{
  ◌<◌, ◌≤◌, ◌≡◌, ◌≢◌, refl, sym, ap, ap₂, subst, ◌∙◌, true, List, [], ◌∷◌, ◌++◌, arith, length,
  append-nil, Text, some, ◌==◌, if◌then◌else◌, ok,
}
use corm.StmtCache.{Ptr, null, Cache, make_room, add_front, put}
use corm.StmtCache.Links.{
  Fwd, Bwd, Out, Fwd-last_of, Bwd-last_of, put_at_self, put_at_ne, front-Fwd, front-Bwd, fronted,
  tail_after,
}
use corm.StmtCache.Lru.{stored, dropped, length-stored}
use corm.StmtCache.Refine.Evict.{same_if, length-entries, RoomOutcome, room, make_room-RoomOutcome}
use corm.StmtCache.Refine.{Linked, entries, Represents, ==_ne, ==_eq}
use corm.StmtCache.Refine.Get.{get-GetOutcome, missed, moved}

module _ {ℓ} {V : Type ℓ} where
  tail_added :
      (c : Cache V) (nodes : List Ptr) (p : Ptr)
      → Linked c nodes
      → (if c.tail == null then p else c.tail) ≡ tail_after p c.tail nodes
  tail_added c [] p k = rw (==_eq c.tail null k.bwd) refl
  tail_added c (x ∷ nodes) p k =
      let long : Fwd c.next c.head (x ∷ (nodes ++ [])) =
        subst (λ (l : List Ptr). Fwd c.next c.head l) (sym (append-nil (x ∷ nodes))) k.fwd in
      let solid : c.tail ≢ null = λ e.
        Fwd-last_of c.next c.head x nodes [] long
          (sym (Bwd-last_of c.prev null c.tail (x ∷ nodes) k.bwd) ∙ e) in
      rw (==_ne c.tail null solid) refl

  entries-Out :
      (c : Cache V) (p : Ptr) (key : Text) (v : V) (nodes : List Ptr)
      → Out p nodes
      → entries (add_front c p key v) nodes ≡ entries c nodes
  unfolding add_front
  entries-Out c p key v [] out = refl
  entries-Out c p key v (a ∷ nodes) out =
      ap₂ (λ (e : Text × V) (es : List (Text × V)). e ∷ es)
        (ap₂ (λ (t : Text) (w : V). let e : Text × V = (t, w) in e) (put_at_ne c.sql p a key out.0)
          (put_at_ne c.stmt p a v out.0))
        (entries-Out c p key v nodes out.1)

  -- A new node in front.
  add_front-Represents :
      (c : Cache V) (nodes : List Ptr) (xs : List (Text × V)) (p : Ptr) (key : Text) (v : V)
      → p ≢ null
      → Out p nodes
      → Represents c nodes xs
      → Represents (add_front c p key v) (p ∷ nodes) ((key, v) ∷ xs)
  unfolding add_front
  add_front-Represents c nodes xs p key v solid out r = record {
    linked = record {
      fwd = front-Fwd c.next c.head p nodes solid out r.linked.fwd;
      bwd =
          subst (λ (l : Ptr). Bwd (fronted c.prev c.head p) null l (p ∷ nodes))
            (sym (tail_added c nodes p r.linked))
            (front-Bwd c.prev c.next c.head c.tail p nodes r.linked.apart out r.linked.fwd
              r.linked.bwd);
      apart = (out, r.linked.apart);
    };
    held =
        ap₂ (λ (e : Text × V) (es : List (Text × V)). e ∷ es)
          (ap₂ (λ (t : Text) (w : V). let e : Text × V = (t, w) in e) (put_at_self c.sql p key)
            (put_at_self c.stmt p v))
          (entries-Out c p key v nodes out ∙ r.held);
    counted = omega (arith, r.counted);
  }

  added :
      (c : Cache V) (p : Ptr) (key : Text) (v : V)
      → (add_front (make_room c) p key v).destroyed ≡ (make_room c).destroyed
  unfolding add_front
  added c p key v = refl

  -- On a cache of at least one place that stands for a list within its capacity, and with a fresh node at
  -- hand: a put ends with success, leaves a cache that stands for the list with the entry in front, still
  -- within the capacity, and destroys at most the entry that was used least recently.
  pub put-Represents :
      (c : Cache V) (nodes : List Ptr) (xs : List (Text × V)) (p : Ptr) (key : Text) (v : V)
      → 0 < c.capacity
      → c.size ≤ c.capacity
      → p ≢ null
      → Out p nodes
      → Represents c nodes xs
      → (c' : Cache V) × (nodes' : List Ptr) × (put p true c key v ≡ some (ok, c'))
        × Represents c' nodes' (stored c.capacity key v xs)
        × (length (stored c.capacity key v xs) ≤ c.capacity)
        × (c'.destroyed
            ≡ (if c.has_destroy_fn then dropped c.capacity key xs ++ c.destroyed else c.destroyed))
  unfolding put add_front
  put-Represents c nodes xs p key v pos small solid out r =
      let fits : length xs ≤ c.capacity = omega (
        arith,
        r.counted,
        small,
        ap (λ (l : List (Text × V)). length l) r.held,
        length-entries c nodes,
      ) in
      let within = length-stored c.capacity key v xs pos fits in
      elim (get-GetOutcome c nodes xs key r) [
        | moved c' nodes' w e l r' (same_cap, same_destroyed) ↦ (
          c',
          nodes',
          rw (e, put) refl,
          rw (l, stored) r',
          within,
          same_destroyed ∙ rw (l, dropped) (same_if c.has_destroy_fn c.destroyed),
        )
        | missed e l ↦
            let made =
              subst (λ (s : List (Text × V)). RoomOutcome c nodes s) r.held
                (make_room-RoomOutcome c nodes pos r.linked r.counted) in
            elim made [
              | room nodes' r' d keep ↦ (
                add_front (make_room c) p key v,
                p ∷ nodes',
                rw (e, put, (==_ne p null solid)) refl,
                rw (l, stored)
                    (add_front-Represents (make_room c) nodes' _ p key v solid (keep p out) r'),
                within,
                added c p key v ∙ (d ∙ rw (l, dropped) refl),
              )
            ]
      ]
