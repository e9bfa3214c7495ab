-- ===== src/StmtCache/Client.antt =====
-- What the drivers can observe of src/internal/stmt_cache.c over any sequence of calls.
use corm.Base.{
  ℕ, ◌<◌, ◌≤◌, ◌≡◌, ◌≢◌, refl, ap, ap₂, subst, ◌∙◌, Bool, true, false, List, [], ◌∷◌, ◌++◌, length,
  Option, some, if◌then◌else◌, arith, ◌>>=◌, Text, Err, ok,
}
use corm.StmtCache.{Ptr, null, Cache, create, get, put, remove, set_destroy_fn, destroy}
use corm.StmtCache.Frame.{Keeps, Spares, get-Keeps, remove-Keeps, put-Keeps}
use corm.StmtCache.Links.{Out}
use corm.StmtCache.Lru.{lookup, without, used, stored, dropped, length-used, length-without_le}
use corm.StmtCache.Refine.{Represents, ==_ne}
use corm.StmtCache.Refine.Evict.{length-entries}
use corm.StmtCache.Refine.Destroy.{all_dropped, destroy-Represents}
use corm.StmtCache.Refine.Get.{get-Represents}
use corm.StmtCache.Refine.Put.{put-Represents}
use corm.StmtCache.Refine.Remove.{remove-Represents}

-- A call of the client.
pub data Op {ℓ} (V : Type ℓ) : Type ℓ where
  ask : Text → Op V
  keep : Text → V → Op V
  forget : Text → Op V

-- What one call returns: a statement, or the error of a put.
pub data Answer {ℓ} (V : Type ℓ) : Type ℓ where
  gave : Option V → Answer V
  said : Err → Answer V

module _ {ℓ} {V : Type ℓ} where
  -- The calls on a cache in memory; `alloc` is where calloc finds room for a node.
  unfoldable pub run : (Cache V → Ptr) → List (Op V) → Cache V → Option (List (Answer V) × Cache V)
  run alloc [] c = some ([], c)
  run alloc (ask key ∷ ops) c = do
    (v, c') ← get c key
    (answers, last) ← run alloc ops c'
    some (gave v ∷ answers, last)
  run alloc (keep key v ∷ ops) c = do
    (err, c') ← put (alloc c) true c key v
    (answers, last) ← run alloc ops c'
    some (said err ∷ answers, last)
  run alloc (forget key ∷ ops) c = do
    (v, c') ← remove c key
    (answers, last) ← run alloc ops c'
    some (gave v ∷ answers, last)

  -- The same calls on the list: what they return, what the list is then, and what it has dropped.
  unfoldable pub replay : ℕ → List (Op V) → List (Text × V) → List (Answer V)
  replay capacity [] xs = []
  replay capacity (ask key ∷ ops) xs = gave (lookup key xs) ∷ replay capacity ops (used key xs)
  replay capacity (keep key v ∷ ops) xs = said ok ∷ replay capacity ops (stored capacity key v xs)
  replay capacity (forget key ∷ ops) xs =
      gave (lookup key xs) ∷ replay capacity ops (without key xs)

  unfoldable pub held_after : ℕ → List (Op V) → List (Text × V) → List (Text × V)
  held_after capacity [] xs = xs
  held_after capacity (ask key ∷ ops) xs = held_after capacity ops (used key xs)
  held_after capacity (keep key v ∷ ops) xs = held_after capacity ops (stored capacity key v xs)
  held_after capacity (forget key ∷ ops) xs = held_after capacity ops (without key xs)

  unfoldable pub dropped_after : ℕ → List (Op V) → List (Text × V) → List V → List V
  dropped_after capacity [] xs done = done
  dropped_after capacity (ask key ∷ ops) xs done = dropped_after capacity ops (used key xs) done
  dropped_after capacity (keep key v ∷ ops) xs done =
      dropped_after capacity ops (stored capacity key v xs) (dropped capacity key xs ++ done)
  dropped_after capacity (forget key ∷ ops) xs done =
      dropped_after capacity ops (without key xs) done

  -- `calloc` gives an address that is not NULL and not one of a living node.
  abbrev pub Fresh : (Cache V → Ptr) → Type ℓ
  Fresh alloc =
      (c : Cache V) (nodes : List Ptr) (xs : List (Text × V))
      → Represents c nodes xs
      → (alloc c ≢ null) × Out (alloc c) nodes

  -- A cache that stands for a list within its capacity, that calls a destroy function.
  pub record Sound (capacity : ℕ) (c : Cache V) (xs : List (Text × V)) (done : List V)
      : Type ℓ where
    pub nodes : List Ptr
    pub stands : Represents c nodes xs
    pub same_capacity : c.capacity ≡ capacity
    pub destroys : c.has_destroy_fn ≡ true
    pub within : length xs ≤ capacity
    pub same_destroyed : c.destroyed ≡ done

  -- Each call on a sound cache: what it returns, and a sound cache again.
  get-Sound :
      (capacity : ℕ) (c : Cache V) (xs : List (Text × V)) (done : List V) (key : Text)
      → Sound capacity c xs done
      → (c' : Cache V) × (get c key ≡ some (lookup key xs, c'))
        × Sound capacity c' (used key xs) done
  get-Sound capacity c xs done key s =
      let (c', nodes', e, r) = get-Represents c s.nodes xs key s.stands in
      let ((same, flag), spared) =
        subst (λ (o : Option (Option V × Cache V)). Keeps c o × Spares c o) e (get-Keeps c key) in
      (
        c',
        e,
        record {
          nodes = nodes';
          stands = r;
          same_capacity = same ∙ s.same_capacity;
          destroys = flag ∙ s.destroys;
          within = omega (arith, s.within, length-used key xs);
          same_destroyed = spared ∙ s.same_destroyed;
        },
      )

  remove-Sound :
      (capacity : ℕ) (c : Cache V) (xs : List (Text × V)) (done : List V) (key : Text)
      → Sound capacity c xs done
      → (c' : Cache V) × (remove c key ≡ some (lookup key xs, c'))
        × Sound capacity c' (without key xs) done
  remove-Sound capacity c xs done key s =
      let (c', nodes', e, r) = remove-Represents c s.nodes xs key s.stands in
      let ((same, flag), spared) =
        subst (λ (o : Option (Option V × Cache V)). Keeps c o × Spares c o) e
          (remove-Keeps c key) in
      (
        c',
        e,
        record {
          nodes = nodes';
          stands = r;
          same_capacity = same ∙ s.same_capacity;
          destroys = flag ∙ s.destroys;
          within = omega (arith, s.within, length-without_le key xs);
          same_destroyed = spared ∙ s.same_destroyed;
        },
      )

  put-Sound :
      (capacity : ℕ) (c : Cache V) (xs : List (Text × V)) (done : List V) (p : Ptr) (key : Text)
      (v : V)
      → 0 < capacity
      → ((nodes : List Ptr) → Represents c nodes xs → (p ≢ null) × Out p nodes)
      → Sound capacity c xs done
      → (c' : Cache V) × (put p true c key v ≡ some (ok, c'))
        × Sound capacity c' (stored capacity key v xs) (dropped capacity key xs ++ done)
  put-Sound capacity c xs done p key v pos fresh s =
      let (solid, out) = fresh s.nodes s.stands in
      let n = ap (λ (l : List (Text × V)). length l) s.stands.held in
      let (c', nodes', e, r, within, destroyed) =
        put-Represents c s.nodes xs p key v (omega (arith, s.same_capacity, pos))
          (omega (arith, s.stands.counted, s.within, s.same_capacity, n, length-entries c s.nodes))
          solid out s.stands in
      let (same, flag) =
        subst (λ (o : Option (Err × Cache V)). Keeps c o) e (put-Keeps p c key v) in
      let stands = subst (λ (k : ℕ). Represents c' nodes' (stored k key v xs)) s.same_capacity r in
      let fits = subst (λ (k : ℕ). length (stored k key v xs) ≤ k) s.same_capacity within in
      (
        c',
        e,
        record {
          nodes = nodes';
          stands = stands;
          same_capacity = same ∙ s.same_capacity;
          destroys = flag ∙ s.destroys;
          within = fits;
          same_destroyed =
              destroyed
              ∙ (ap
                    (λ (b : Bool).
                      if b then dropped c.capacity key xs ++ c.destroyed else c.destroyed)
                    s.destroys
                  ∙ ap₂ (λ (k : ℕ) (l : List V). dropped k key xs ++ l) s.same_capacity
                      s.same_destroyed);
        },
      )

  -- The calls on a sound cache give what they give on the list, and leave a sound cache.
  run_refines :
      (capacity : ℕ) (alloc : Cache V → Ptr)
      → 0 < capacity
      → Fresh alloc
      → (ops : List (Op V)) (c : Cache V) (xs : List (Text × V)) (done : List V)
      → Sound capacity c xs done
      → (c' : Cache V) × (run alloc ops c ≡ some (replay capacity ops xs, c'))
        × Sound capacity c' (held_after capacity ops xs) (dropped_after capacity ops xs done)
  unfolding run replay held_after dropped_after
  run_refines capacity alloc pos fresh [] c xs done s = (c, refl, s)
  run_refines capacity alloc pos fresh (ask key ∷ ops) c xs done s =
      let (c₁, e, s₁) = get-Sound capacity c xs done key s in
      let (c', r, s') = run_refines capacity alloc pos fresh ops c₁ (used key xs) done s₁ in
      (c', rw e (rw r refl), s')
  run_refines capacity alloc pos fresh (keep key v ∷ ops) c xs done s =
      let (c₁, e, s₁) =
        put-Sound capacity c xs done (alloc c) key v pos (λ nodes r. fresh c nodes xs r) s in
      let (c', r, s') =
        run_refines capacity alloc pos fresh ops c₁ (stored capacity key v xs) _ s₁ in
      (c', rw e (rw r refl), s')
  run_refines capacity alloc pos fresh (forget key ∷ ops) c xs done s =
      let (c₁, e, s₁) = remove-Sound capacity c xs done key s in
      let (c', r, s') = run_refines capacity alloc pos fresh ops c₁ (without key xs) done s₁ in
      (c', rw e (rw r refl), s')

  new-Sound :
      (capacity : ℕ) (memory : Cache V)
      → 0 < capacity
      → (c : Cache V) × (create true capacity memory ≡ (ok, some c))
        × Sound capacity (set_destroy_fn c true) [] memory.destroyed
  unfolding create set_destroy_fn
  new-Sound capacity memory pos = (
    record memory {
      capacity = capacity;
      size = 0;
      head = null;
      tail = null;
      has_destroy_fn = false;
    },
    rw (==_ne capacity 0 (λ e. omega (arith, e, pos))) refl,
    record {
      nodes = [];
      stands = record {
        linked = record { fwd = refl; bwd = refl; apart = tt };
        held = refl;
        counted = refl;
      };
      same_capacity = refl;
      destroys = refl;
      within = omega arith;
      same_destroyed = refl;
    },
  )

  -- Where calloc and the copies of the statements' texts are always served, and calloc gives addresses that no
  -- living node has: a new cache of at least one place with a destroy
  -- function gives to every sequence of gets, puts and removals what the list of entries in order of use
  -- gives; and when the cache is destroyed behind them, the destroy function has been called in order with
  -- what the list has dropped and then with what it holds.
  pub run-create_refines :
      (capacity : ℕ) (memory : Cache V) (alloc : Cache V → Ptr) (ops : List (Op V))
      → 0 < capacity
      → Fresh alloc
      → (c : Cache V) × (c' : Cache V) × (create true capacity memory ≡ (ok, some c))
        × (run alloc ops (set_destroy_fn c true) ≡ some (replay capacity ops [], c'))
        × (destroy c'
            ≡ some (
                all_dropped
                  (held_after capacity ops [])
                  (dropped_after capacity ops [] memory.destroyed)))
  run-create_refines capacity memory alloc ops pos fresh =
      let (c, e, s) = new-Sound capacity memory pos in
      let (c', r, s') =
        run_refines capacity alloc pos fresh ops (set_destroy_fn c true) [] memory.destroyed s in
      (
        c,
        c',
        e,
        r,
        destroy-Represents c' s'.nodes _ s'.stands
            ∙ ap
                (λ (b : Bool). some (
                  if b
                  then all_dropped (held_after capacity ops []) c'.destroyed
                  else c'.destroyed))
                s'.destroys
            ∙ ap (λ (l : List V). some (all_dropped (held_after capacity ops []) l))
                s'.same_destroyed,
      )
