-- ===== src/StmtCache/Tests.antt =====
-- Small caches, and the theorems of src/internal/stmt_cache.c at them.
use corm.Base.{
  zero, suc, ap, ◌+◌, ◌<◌, none, ℕ, ◌≡◌, ◌≤◌, refl, true, List, [], ◌∷◌, some, Text, codes, ok,
  arith, length,
}
use corm.StmtCache.{Ptr, put_at, Cache, get, put, remove, destroy}
use corm.StmtCache.Lru.{lookup, used, stored}
use corm.StmtCache.Refine.{Represents}
use corm.StmtCache.Refine.Get.{get-Represents}
use corm.StmtCache.Refine.Put.{put-Represents}
use corm.StmtCache.Refine.Remove.{remove-Represents}
use corm.StmtCache.{create, set_destroy_fn}
use corm.StmtCache.Links.{Fwd, Out}
use corm.StmtCache.Client.{
  Op, ask, keep, gave, said, run, replay, held_after, dropped_after, Fresh, run-create_refines,
}

-- A full cache of two statements, 20 for `b` in front and 10 for `a` at the tail.
abbrev two : Cache ℕ
two = record {
  capacity = 2;
  size = 2;
  head = 2;
  tail = 1;
  has_destroy_fn = true;
  sql = put_at (put_at (λ p. []) 1 (codes "a")) 2 (codes "b");
  stmt = put_at (put_at (λ p. 0) 1 10) 2 20;
  prev = put_at (λ p. 0) 1 2;
  next = put_at (λ p. 0) 2 1;
  destroyed = [];
}

abbrev two_nodes : List Ptr
two_nodes = 2 ∷ 1 ∷ []

abbrev two_entries : List (Text × ℕ)
two_entries = (codes "b", 20) ∷ (codes "a", 10) ∷ []

two-Represents : Represents two two_nodes two_entries
two-Represents = record {
  linked = record {
    fwd = (refl, (λ e. ground (arith, e)), (refl, (λ e. ground (arith, e)), refl));
    bwd = (refl, (refl, refl));
    apart = ((λ e. ground (arith, e), tt), (tt, tt));
  };
  held = refl;
  counted = refl;
}

get-Represents_example :
    (c' : Cache ℕ) × (nodes' : List Ptr) × (get two (codes "a")
      ≡ some (lookup (codes "a") two_entries, c'))
    × Represents c' nodes' (used (codes "a") two_entries)
get-Represents_example = get-Represents two two_nodes two_entries (codes "a") two-Represents

put-Represents_example :
    (c' : Cache ℕ) × (nodes' : List Ptr) × (put 3 true two (codes "c") 30 ≡ some (ok, c'))
    × Represents c' nodes' (stored 2 (codes "c") 30 two_entries)
    × (length (stored 2 (codes "c") 30 two_entries) ≤ 2)
    × (c'.destroyed ≡ 10 ∷ [])
put-Represents_example =
    put-Represents two two_nodes two_entries 3 (codes "c") 30 (omega arith) (omega arith)
      (λ e. ground (arith, e)) (λ e. ground (arith, e), (λ e. ground (arith, e), tt)) two-Represents

remove-Represents_example :
    (c' : Cache ℕ) × (nodes' : List Ptr) × (remove two (codes "a") ≡ some (some 10, c'))
    × Represents c' nodes' ((codes "b", 20) ∷ [])
remove-Represents_example = remove-Represents two two_nodes two_entries (codes "a") two-Represents

-- An allocator: one more than the sum of the living addresses.
abbrev sum_along : ℕ → Cache ℕ → Ptr → ℕ
sum_along zero c p = 0
sum_along (suc n) c p = p + sum_along n c (c.next p)

above_all :
    (c : Cache ℕ) (p q : Ptr) (nodes : List Ptr)
    → Fwd c.next p nodes
    → sum_along (length nodes) c p < q
    → Out q nodes
above_all c p q [] f h = tt
above_all c p q (a ∷ nodes) f h =
    let rest : sum_along (length nodes) c (c.next a) < q =
      omega (arith, h, ap (λ (b : Ptr). b + sum_along (length nodes) c (c.next b)) f.0) in
    (λ e. omega (arith, h, f.0, e), above_all c (c.next a) q nodes f.2 rest)

abbrev bump : Cache ℕ → Ptr
bump c = suc (sum_along c.size c c.head)

bump-Fresh : Fresh bump
bump-Fresh c nodes xs r = (
  λ e. omega (arith, e),
  above_all c c.head (bump c) nodes r.linked.fwd
      (omega (arith, ap (λ (n : ℕ). sum_along n c c.head) r.counted)),
)

abbrev calls : List (Op ℕ)
calls =
    keep (codes "a") 10
    ∷ keep (codes "b") 20
    ∷ ask (codes "a")
    ∷ keep (codes "c") 30
    ∷ ask (codes "b")
    ∷ []

-- With two places `b` is dropped for `c`, since `a` was used later.
run-create_refines_example :
    (c : Cache ℕ) × (c' : Cache ℕ) × (create true 2 two ≡ (ok, some c))
    × (run bump calls (set_destroy_fn c true)
        ≡ some (said ok ∷ said ok ∷ gave (some 10) ∷ said ok ∷ gave none ∷ [], c'))
    × (destroy c' ≡ some (10 ∷ 30 ∷ 20 ∷ []))
unfolding replay held_after dropped_after
run-create_refines_example = run-create_refines 2 two bump calls (omega arith) bump-Fresh
