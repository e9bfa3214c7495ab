-- ===== src/Query/Params.antt =====
-- The memory of a query's parameters in src/query.c: deep copies, the growing array and what `corm_query_free`
-- frees. An address is a number; a value is seen as the pointer it holds. NULL is `none`.
use corm.Base.{
  ℕ, ◌*◌, ◌≡◌, refl, sym, ap, ◌∙◌, Bool, true, not, ◌&&◌, List, [], ◌∷◌, ◌++◌, append-nil,
  append_assoc, All, Option, none, some, Bool-cases, inl, inr, if◌then◌else◌, ltb, leb, length,
}

-- What a `corm_value_t` holds: no pointer, that of a text, or that of a blob with its length.
pub data Param : Type 0 where
  scalar : Param
  text_at : Option ℕ → Param
  blob_at : Option ℕ → ℕ → Param

-- `corm_param_deep_copy`; `fresh` is what strdup or malloc gives.
unfoldable pub deep_copy : (fresh : Option ℕ) → Param → Param
deep_copy fresh scalar = scalar
deep_copy fresh (text_at none) = text_at none
deep_copy fresh (text_at (some p)) = text_at fresh
deep_copy fresh (blob_at none len) = blob_at none len
deep_copy none (blob_at (some p) len) = blob_at (some p) len
deep_copy (some c) (blob_at (some p) len) = blob_at (some (if ltb 0 len then c else p)) len

-- The block that `corm_param_free` frees.
unfoldable pub param_free : Param → List ℕ
param_free scalar = []
param_free (text_at none) = []
param_free (text_at (some p)) = p ∷ []
param_free (blob_at none len) = []
param_free (blob_at (some p) len) = p ∷ []

-- `params` and `param_cap` of a query.
pub record Params : Type 0 where
  pub params : List Param
  pub param_cap : ℕ

-- As `corm_query_new` leaves them.
abbrev pub no_params : Params
no_params = record { params = []; param_cap = 0 }

-- `corm_query_bind`; `grown` says whether realloc serves a larger array. If not, the value is dropped.
unfoldable pub bind : (grown : Bool) (fresh : Option ℕ) → Params → Param → Params
bind grown fresh q val =
    let full = leb q.param_cap (length q.params) in
    if full && not grown then q else record {
      params = q.params ++ (deep_copy fresh val ∷ []);
      param_cap =
          (if full then (if ltb 0 q.param_cap then q.param_cap * 2 else 8) else q.param_cap);
    }

-- The loop of `corm_query_free` over the parameters: the blocks that it frees.
unfoldable pub free_loop : List Param → List ℕ
free_loop [] = []
free_loop (p ∷ ps) = param_free p ++ free_loop ps

unfoldable pub free : Params → List ℕ
unfolding free_loop
free q = free_loop q.params

-- A sequence of binds that are all served, each with the block that its copy gets.
unfoldable pub bind_all : Params → List (ℕ × Param) → Params
unfolding bind
bind_all q [] = q
bind_all q ((c, val) ∷ vals) = bind_all (bind true (some c) q val) vals

-- The blocks of the copies: of every value that holds a pointer.
abbrev pub copied : List (ℕ × Param) → List ℕ
copied [] = []
copied ((c, scalar) ∷ vals) = copied vals
copied ((c, text_at none) ∷ vals) = copied vals
copied ((c, text_at (some p)) ∷ vals) = c ∷ copied vals
copied ((c, blob_at none len) ∷ vals) = copied vals
copied ((c, blob_at (some p) len) ∷ vals) = c ∷ copied vals

-- A value that is no blob without bytes behind a pointer.
abbrev pub Copyable : Param → Type 0
Copyable scalar = Unit
Copyable (text_at p) = Unit
Copyable (blob_at none len) = Unit
Copyable (blob_at (some p) len) = ltb 0 len ≡ true

free_loop-append : (a b : List Param) → free_loop (a ++ b) ≡ free_loop a ++ free_loop b
unfolding free_loop
free_loop-append [] b = refl
free_loop-append (p ∷ a) b =
    ap (λ (t : List ℕ). param_free p ++ t) (free_loop-append a b)
    ∙ sym (append_assoc (param_free p) (free_loop a) (free_loop b))

-- What the copy of one value adds to what is freed.
copied-cons :
    (c : ℕ) (val : Param) (vals : List (ℕ × Param))
    → Copyable val
    → param_free (deep_copy (some c) val) ++ copied vals ≡ copied ((c, val) ∷ vals)
unfolding param_free deep_copy
copied-cons c scalar vals h = refl
copied-cons c (text_at none) vals h = refl
copied-cons c (text_at (some p)) vals h = refl
copied-cons c (blob_at none len) vals h = refl
copied-cons c (blob_at (some p) len) vals h = rw h refl

free_loop-one : (p : Param) → free_loop (p ∷ []) ≡ param_free p
unfolding free_loop
free_loop-one p = append-nil (param_free p)

bind-served :
    (c : ℕ) (q : Params) (val : Param)
    → (bind true (some c) q val).params ≡ q.params ++ (deep_copy (some c) val ∷ [])
unfolding bind
bind-served c q val = elim (Bool-cases (leb q.param_cap (length q.params))) [
  | inl e ↦ rw (e, bind) refl
  | inr e ↦ rw (e, bind) refl
]

-- When every realloc, strdup and malloc is served, and no bound value is a blob of length 0 behind a pointer:
-- freeing a query frees, after what its parameters held before, exactly the blocks of the copies, in the order
-- in which they were bound, and no block of the caller.
pub bind_all-free :
    (q : Params) (vals : List (ℕ × Param))
    → All (λ (v : ℕ × Param). Copyable v.1) vals
    → free (bind_all q vals) ≡ free q ++ copied vals
unfolding bind_all free
bind_all-free q [] h = sym (append-nil (free q))
bind_all-free q ((c, val) ∷ vals) h =
    bind_all-free (bind true (some c) q val) vals h.1
    ∙ ap (λ (ps : List Param). free_loop ps ++ copied vals) (bind-served c q val)
    ∙ ap (λ (t : List ℕ). t ++ copied vals) (free_loop-append q.params (d ∷ []))
    ∙ append_assoc (free q) (free_loop (d ∷ [])) (copied vals)
    ∙ ap (λ (t : List ℕ). free q ++ t)
        (ap (λ (t : List ℕ). t ++ copied vals) (free_loop-one d) ∙ copied-cons c val vals h.0)
  where
    d : Param
    d = deep_copy (some c) val
