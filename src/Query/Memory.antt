-- ===== src/Query/Memory.antt =====
-- Binding a value when memory is served.
use corm.Base.{
  ℕ, ◌*◌, ◌≡◌, refl, inl, inr, true, [], ◌∷◌, ◌++◌, Bool-cases, if◌then◌else◌, leb, ltb, length,
}
use corm.Query.{Query, bind, append_bound, next_placeholder}
use corm.Value.{Value}

-- The array of parameters can grow to any capacity.
abbrev pub Served : Query → Type 0
Served q = (n : ℕ) → q.realloc n ≡ true

-- The query with one more value.
abbrev pub bound : Query → Value → Query
bound q val = record q {
  param_cap =
      (if leb q.param_cap (length q.params)
        then (if ltb 0 q.param_cap then q.param_cap * 2 else 8)
        else q.param_cap);
  params = q.params ++ val ∷ [];
}

pub bind-bound : (q : Query) (val : Value) → Served q → bind q val ≡ bound q val
unfolding bind
bind-bound q val h = elim (Bool-cases (leb q.param_cap (length q.params))) [
  | inl e ↦ rw (e, bind, h (if ltb 0 q.param_cap then q.param_cap * 2 else 8)) refl
  | inr e ↦ rw (e, bind) refl
]

-- The next placeholder behind the condition, and its value bound.
abbrev pub appended : Query → Value → Query
appended q val = bound (record q { where_clause = q.where_clause ++ next_placeholder q }) val

pub append_bound-appended :
    (q : Query) (val : Value) → Served q → append_bound q val ≡ appended q val
unfolding append_bound
append_bound-appended q val h =
    bind-bound (record q { where_clause = q.where_clause ++ next_placeholder q }) val h
