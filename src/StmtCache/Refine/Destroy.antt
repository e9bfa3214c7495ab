-- ===== src/StmtCache/Refine/Destroy.antt =====
-- `corm_stmt_cache_destroy` on nodes and on the list.
use corm.Base.{
  ℕ, zero, suc, ◌+◌, ◌<◌, ◌≡◌, refl, ap, ◌∙◌, Bool, true, false, List, [], ◌∷◌, arith, length, Text,
  some, if◌then◌else◌,
}
use corm.StmtCache.{Ptr, null, Cache, destroy_loop, destroy}
use corm.StmtCache.Links.{Fwd}
use corm.StmtCache.Refine.{entries, Represents, ==_ne}

module _ {ℓ} {V : Type ℓ} where
  -- The statements of the list, the first deepest, on what was destroyed before.
  abbrev pub all_dropped : List (Text × V) → List V → List V
  all_dropped [] done = done
  all_dropped ((k, v) ∷ xs) done = all_dropped xs (v ∷ done)

  abbrev passed : Bool → List (Text × V) → List V → List V
  passed b [] done = done
  passed b ((k, v) ∷ xs) done = passed b xs (if b then v ∷ done else done)

  passed_lem :
      (b : Bool) (xs : List (Text × V)) (done : List V)
      → passed b xs done ≡ (if b then all_dropped xs done else done)
  passed_lem true [] done = refl
  passed_lem false [] done = refl
  passed_lem true ((k, v) ∷ xs) done = passed_lem true xs (v ∷ done)
  passed_lem false ((k, v) ∷ xs) done = passed_lem false xs done

  destroy_loop-Fwd :
      (fuel : ℕ) (c : Cache V) (p : Ptr) (nodes : List Ptr) (done : List V)
      → Fwd c.next p nodes
      → length nodes < fuel
      → destroy_loop fuel c p done ≡ some (passed c.has_destroy_fn (entries c nodes) done)
  unfolding destroy_loop
  destroy_loop-Fwd zero c p nodes done h n = absurd (omega arith)
  destroy_loop-Fwd (suc fuel) c p [] done h n = rw (h, destroy_loop) refl
  destroy_loop-Fwd (suc fuel) c p (a ∷ nodes) done h n =
      rw (h.0, (==_ne a null h.1), destroy_loop)
        (destroy_loop-Fwd fuel c (c.next a) nodes
          (if c.has_destroy_fn then c.stmt a ∷ done else done) h.2 (omega arith))

  -- Destroying a cache that stands for a list ends, and calls the destroy function, where one is set, on
  -- each statement of the list once and in order.
  pub destroy-Represents :
      (c : Cache V) (nodes : List Ptr) (xs : List (Text × V))
      → Represents c nodes xs
      → destroy c ≡ some (if c.has_destroy_fn then all_dropped xs c.destroyed else c.destroyed)
  unfolding destroy
  destroy-Represents c nodes xs r =
      destroy_loop-Fwd (c.size + 1) c c.head nodes c.destroyed r.linked.fwd
        (omega (arith, r.counted))
      ∙ (ap some (passed_lem c.has_destroy_fn (entries c nodes) c.destroyed)
          ∙ ap
              (λ (l : List (Text × V)).
                some (if c.has_destroy_fn then all_dropped l c.destroyed else c.destroyed))
              r.held)
