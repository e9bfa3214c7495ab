-- ===== src/Query.antt =====
-- src/query.c, the query builder: its state and the calls that fill it in. Texts stand for the
-- string buffers (StrBuf.antt), whose memory is served; that of the parameters may be refused.
-- `backend` is `q->db ? q->db->backend->type : …` before the default. A NULL argument is `none`
-- where the code tests for it. Values are copied, so a bound value does not change afterwards.
pub mod Alignment
pub mod Chain
pub mod Conditions
pub mod Memory
pub mod Params
pub mod Reset
mod Tests
use corm.Base.{
  ℕ, zero, suc, ◌+◌, ◌*◌, Bool, true, false, not, ◌&&◌, ◌||◌, List, [], ◌∷◌, ◌++◌, Option, none,
  some, ltb, leb, if◌then◌else◌, length, take, Text, codes, nonempty, ℤ, pos, BackendType, sqlite,
}
use corm.Dialect.{quote, placeholder_str}
use corm.Model.{Model, Field, is_valid_identifier, is_nil}
use corm.Value.{Value}

-- `corm_query_op_t`
pub data QueryOp : Type 0 where
  op_select op_insert op_update op_delete : QueryOp

-- `corm_query_t`. `param_count` is the length of `params`. `realloc`, which is not of the source, says to
-- which capacities the array of parameters can grow.
pub record Query : Type 0 where
  pub backend : Option BackendType
  pub model : Model
  pub op : QueryOp
  pub select_cols : Text
  pub where_clause : Text
  pub order : Text
  pub group : Text
  pub having : Text
  pub joins : Text
  pub set_clause : Text
  pub realloc : ℕ → Bool
  pub params : List Value
  pub param_cap : ℕ
  pub limit : ℤ
  pub offset : ℤ
  pub unscoped : Bool
  pub distinct : Bool
  pub preload_rel : Text

-- `corm_query_new`
unfoldable pub new : (realloc : ℕ → Bool) → Option BackendType → Model → Query
new realloc backend model = record {
  backend = backend;
  model = model;
  op = op_select;
  select_cols = [];
  where_clause = [];
  order = [];
  group = [];
  having = [];
  joins = [];
  set_clause = [];
  realloc = realloc;
  params = [];
  param_cap = 0;
  limit = pos 0;
  offset = pos 0;
  unscoped = false;
  distinct = false;
  preload_rel = [];
}

-- `corm_query_reset`, which leaves `unscoped` and the capacity as they are.
unfoldable pub reset : Query → Query
reset q = record q {
  op = op_select;
  limit = pos 0;
  offset = pos 0;
  distinct = false;
  preload_rel = [];
  params = [];
  select_cols = [];
  where_clause = [];
  order = [];
  group = [];
  having = [];
  joins = [];
  set_clause = [];
}

unfoldable pub set_op : Query → QueryOp → Query
set_op q op = record q { op = op }

-- `q->db ? q->db->backend->type : CORM_BACKEND_SQLITE`
abbrev pub backend_type : Query → BackendType
backend_type q = elim q.backend [ none ↦ sqlite | some bt ↦ bt ]

-- `corm_query_bind`: the array doubles when it is full, from 8; when it cannot grow, the value is dropped.
unfoldable pub bind : Query → Value → Query
bind q val =
    let full = leb q.param_cap (length q.params) in
    let new_cap = if ltb 0 q.param_cap then q.param_cap * 2 else 8 in
    if full && not (q.realloc new_cap) then q else record q {
      param_cap = (if full then new_cap else q.param_cap);
      params = q.params ++ val ∷ [];
    }

unfoldable pub select : Query → Text → Query
select q columns = record q { select_cols = columns }

-- `if (q->where.len > 0) append(glue)`, then the condition.
abbrev pub glued : Text → Text → Text → Text
glued glue clause condition = if nonempty clause then clause ++ (glue ++ condition) else condition

abbrev pub and_glue : Text
and_glue = codes " AND "

-- `corm_query_where`: the variadic arguments are not read.
unfoldable pub and_where : Query → Text → Query
and_where q condition = record q { where_clause = glued and_glue q.where_clause condition }

unfoldable pub or_where : Query → Text → Query
or_where q condition = record q { where_clause = glued (codes " OR ") q.where_clause condition }

-- Runs `k` on a field that is a valid identifier, and otherwise leaves the query alone.
abbrev pub with_field : Query → Option Text → (Text → Query) → Query
with_field q none k = q
with_field q (some field) k = if is_valid_identifier (some field) then k field else q

unfoldable pub where_null : Query → Option Text → Query
where_null q field = with_field q field (λ f. and_where q (f ++ codes " IS NULL"))

unfoldable pub where_not_null : Query → Option Text → Query
where_not_null q field = with_field q field (λ f. and_where q (f ++ codes " IS NOT NULL"))

-- The placeholder of the next parameter, in the buffer `ph_buf[16]`.
abbrev pub next_placeholder : Query → Text
next_placeholder q = placeholder_str (backend_type q) (length q.params) 16

-- One placeholder is appended to the clause, then its value is bound.
unfoldable pub append_bound : Query → Value → Query
unfolding bind
append_bound q val = bind (record q { where_clause = q.where_clause ++ next_placeholder q }) val

-- The loop of `corm_query_where_in`; `first` is `i == 0`.
unfoldable pub in_loop : Bool → Query → List Value → Query
in_loop first q [] = q
in_loop first q (v ∷ vs) =
    let sep = if first then [] else codes ", " in
    in_loop false (append_bound (record q { where_clause = q.where_clause ++ sep }) v) vs

unfoldable pub where_in : Query → Option Text → List Value → Query
where_in q field vals =
    if is_nil vals
    then q
    else with_field q field (λ f.
      let q' = in_loop true (and_where q (f ++ codes " IN (")) vals in
      record q' { where_clause = q'.where_clause ++ codes ")" })

unfoldable pub where_between : Query → Option Text → Value → Value → Query
where_between q field min_val max_val = with_field q field (λ f.
    let q' = append_bound (and_where q (f ++ codes " BETWEEN ")) min_val in
    append_bound (record q' { where_clause = q'.where_clause ++ and_glue }) max_val)

-- Runs `k` on an argument that is not NULL.
abbrev pub with_text : Query → Option Text → (Text → Query) → Query
with_text q none k = q
with_text q (some s) k = k s

unfoldable pub join : Query → Option Text → Query
join q clause = with_text q clause (λ s. record q { joins = q.joins ++ s })

unfoldable pub order_by : Query → Option Text → Query
order_by q order = with_text q order (λ s. record q { order = s })

unfoldable pub group_by : Query → Option Text → Query
group_by q group = with_text q group (λ s. record q { group = s })

unfoldable pub set_having : Query → Option Text → Query
set_having q condition = with_text q condition (λ s. record q { having = s })

unfoldable pub set_limit : Query → ℤ → Query
set_limit q limit = record q { limit = limit }

unfoldable pub set_offset : Query → ℤ → Query
set_offset q offset = record q { offset = offset }

-- `corm_query_set`: `"field" = ` and the placeholder of the next parameter, which is then bound.
unfoldable pub set_field : Query → Option Text → Value → Query
set_field q field val = with_field q field (λ f.
    let mark = quote (backend_type q) f in
    let assignment = mark ++ (f ++ (mark ++ (codes " = " ++ next_placeholder q))) in
    record (bind (record q { set_clause = glued (codes ", ") q.set_clause assignment }) val) {
      op = op_update;
    })

unfoldable pub set_raw : Query → Text → Query
set_raw q clause = record q { set_clause = clause; op = op_update }

unfoldable pub set_unscoped : Query → Query
set_unscoped q = record q { unscoped = true }

unfoldable pub set_distinct : Query → Query
set_distinct q = record q { distinct = true }

-- `snprintf` into `preload_rel[64]`
unfoldable pub preload : Query → Option Text → Query
preload q relation = with_field q relation (λ r. record q { preload_rel = take 63 r })
