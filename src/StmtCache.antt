-- ===== src/StmtCache.antt =====
-- src/internal/stmt_cache.c: a least-recently-used cache of prepared statements, a doubly linked list of
-- nodes in memory. Each field of a node is a function from addresses; address 0 is NULL. `V` is what
-- `stmt` points at. The lock is held through each call and is left out; the results of malloc are
-- arguments. A walk runs on fuel.
pub mod Lru
pub mod Links
pub mod Refine
pub mod Client
pub mod Frame
mod Tests
use corm.Base.{
  ℕ, zero, suc, ◌+◌, ◌-◌, Bool, true, false, not, ◌&&◌, List, [], ◌∷◌, Option, none, some, ◌==◌,
  if◌then◌else◌, leb, Text, text_eq, Err, ok, err_null, err_nomem,
}

abbrev pub Ptr : Type 0
Ptr = ℕ

abbrev pub null : Ptr
null = 0

-- `f` with the value `v` at `p`.
abbrev pub put_at {ℓ} : {A : Type ℓ} → (Ptr → A) → Ptr → A → Ptr → A
put_at f p v q = if p == q then v else f q

-- `corm_stmt_cache_t` and the nodes that it reaches. `destroyed` lists what `entry_destroy_fn` has been
-- called with, newest first.
pub record Cache {ℓ} (V : Type ℓ) : Type ℓ where
  pub capacity : ℕ
  pub size : ℕ
  pub head : Ptr
  pub tail : Ptr
  pub has_destroy_fn : Bool
  pub sql : Ptr → Text
  pub stmt : Ptr → V
  pub prev : Ptr → Ptr
  pub next : Ptr → Ptr
  pub destroyed : List V

-- How a walk along `next` ends.
pub data Walk : Type 0 where
  found : Ptr → Walk
  absent : Walk
  spent : Walk

module _ {ℓ} {V : Type ℓ} where
  -- `corm_stmt_cache_create`, of zeroed memory; `memory` gives the nodes' fields, which nothing reaches yet.
  unfoldable pub create : Bool → ℕ → Cache V → Err × Option (Cache V)
  create calloc capacity memory =
      if capacity == 0
      then (err_null, none)
      else if calloc
      then (
        ok,
        some (record memory {
          capacity = capacity;
          size = 0;
          head = null;
          tail = null;
          has_destroy_fn = false;
        }),
      )
      else (err_nomem, none)

  -- The loop that looks for a node with the text.
  unfoldable pub walk : ℕ → Cache V → Ptr → Text → Walk
  walk zero c curr key = spent
  walk (suc fuel) c curr key =
      let rest = walk fuel c (c.next curr) key in
      if curr == null then absent else if text_eq (c.sql curr) key then found curr else rest

  -- `if (p->prev) p->prev->next = p->next; if (p->next) p->next->prev = p->prev;`
  unfoldable pub detach : Cache V → Ptr → Cache V
  detach c p = record c {
    next = (if c.prev p == null then c.next else put_at c.next (c.prev p) (c.next p));
    prev = (if c.next p == null then c.prev else put_at c.prev (c.next p) (c.prev p));
  }

  -- `if (p == tail) tail = p->prev;`
  unfoldable pub move_tail : Cache V → Ptr → Cache V
  move_tail c p = record c { tail = (if p == c.tail then c.prev p else c.tail) }

  -- `p->next = head; p->prev = NULL; if (head) head->prev = p; head = p;`
  unfoldable pub link_front : Cache V → Ptr → Cache V
  link_front c p = record c {
    next = put_at c.next p c.head;
    prev =
        (if c.head == null then put_at c.prev p null else put_at (put_at c.prev p null) c.head p);
    head = p;
  }

  -- The lines that move a found node to the head, unless it stands there.
  unfoldable pub move_front : Cache V → Ptr → Cache V
  unfolding detach move_tail link_front
  move_front c p = if p == c.head then c else link_front (move_tail (detach c p) p) p

  -- `corm_stmt_cache_get`, on fuel for each node and one more.
  unfoldable pub get : Cache V → Text → Option (Option V × Cache V)
  unfolding walk move_front
  get c key = elim (walk (c.size + 1) c c.head key) [
    | spent ↦ none
    | absent ↦ some (none, c)
    | found p ↦ some (some (c.stmt p), move_front c p)
  ]

  -- The lines that evict the tail of a full cache.
  unfoldable pub evict : Cache V → Cache V
  evict c =
      let p = c.tail in
      record c {
        next = (if c.prev p == null then c.next else put_at c.next (c.prev p) null);
        tail = c.prev p;
        head = (if c.head == p then null else c.head);
        destroyed = (if c.has_destroy_fn then c.stmt p ∷ c.destroyed else c.destroyed);
        size = c.size - 1;
      }

  abbrev pub make_room : Cache V → Cache V
  make_room c = if leb c.capacity c.size && not (c.tail == null) then evict c else c

  -- A new node at the head; `calloc` leaves its `prev` NULL.
  unfoldable pub add_front : Cache V → Ptr → Text → V → Cache V
  add_front c p key v = record c {
    sql = put_at c.sql p key;
    stmt = put_at c.stmt p v;
    next = put_at c.next p c.head;
    prev =
        (if c.head == null then put_at c.prev p null else put_at (put_at c.prev p null) c.head p);
    head = p;
    tail = (if c.tail == null then p else c.tail);
    size = c.size + 1;
  }

  -- `corm_stmt_cache_put`; `entry` is what calloc gives for the node, `strdup` whether the text is copied.
  unfoldable pub put : Ptr → Bool → Cache V → Text → V → Option (Err × Cache V)
  unfolding get evict add_front
  put entry strdup c key v = elim (get c key) [
    | none ↦ none
    | some (some _, c') ↦ some (ok, c')
    | some (none, c') ↦
        let c'' = make_room c' in
        if entry == null
        then some (err_nomem, c'')
        else if strdup
        then some (ok, add_front c'' entry key v)
        else some (err_nomem, c'')
  ]

  unfoldable pub set_destroy_fn : Cache V → Bool → Cache V
  set_destroy_fn c present = record c { has_destroy_fn = present }

  -- `corm_stmt_cache_remove`
  unfoldable pub remove : Cache V → Text → Option (Option V × Cache V)
  unfolding walk detach move_tail
  remove c key = elim (walk (c.size + 1) c c.head key) [
    | spent ↦ none
    | absent ↦ some (none, c)
    | found p ↦
        let c' = detach c p in
        let c'' = record c' { head = (if p == c'.head then c'.next p else c'.head) } in
        some (some (c.stmt p), record (move_tail c'' p) { size = c.size - 1 })
  ]

  -- The loop of `corm_stmt_cache_destroy`: what the destroy function is called with.
  unfoldable pub destroy_loop : ℕ → Cache V → Ptr → List V → Option (List V)
  destroy_loop zero c curr done = none
  destroy_loop (suc fuel) c curr done =
      let rest =
        destroy_loop fuel c (c.next curr) (if c.has_destroy_fn then c.stmt curr ∷ done else done) in
      if curr == null then some done else rest

  unfoldable pub destroy : Cache V → Option (List V)
  unfolding destroy_loop
  destroy c = destroy_loop (c.size + 1) c c.head c.destroyed
