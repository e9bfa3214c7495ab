-- ===== src/Builder/Collision.antt =====
-- On PostgreSQL `corm_query_set` writes a numbered placeholder into the SET clause, where the builder
-- counts no `?`: the WHERE clause starts again at `$1`.
use corm.Base.{
  ℕ, Bool, ◌≡◌, refl, ap, ◌∙◌, true, [], ◌∷◌, ◌++◌, some, arith, append_assoc, Text, codes,
  nonempty, count_char, count_char-append, show, postgres, ok,
}
use corm.Dialect.{quote, placeholder_str}
use corm.Dialect.Placeholder.{ident}
use corm.Model.{Model, is_identifier_char, is_valid_identifier}
use corm.Model.Identifier.{count-is_valid_identifier}
use corm.Query.{Query, op_update, new, set_field, and_where, bind}
use corm.Value.{Value}
use corm.Builder.{build_sql}
use corm.Builder.Marks.{subst_marks}
use corm.Builder.Update.{update_prefix, update_sql_no_marks}

-- `"f" = $1`, as `corm_query_set` writes it for the first parameter.
abbrev pub first_assignment : Text → Text
first_assignment f = ident postgres f ++ codes " = $1"

mark-free :
    (f : Text) → is_valid_identifier (some f) ≡ true → count_char b'?' (first_assignment f) ≡ 0
unfolding quote is_identifier_char
mark-free f h = omega (
  arith,
  count-is_valid_identifier b'?' f refl h,
  count_char-append b'?' (f ++ b'"' ∷ []) (codes " = $1"),
  count_char-append b'?' f (b'"' ∷ []),
)

-- All memory is served.
abbrev served : ℕ → Bool
served _ = true

-- What `corm_query_set` leaves in a new query.
assigned : Model → Text → Value → Query
assigned m f v = record (new served (some postgres) m) {
  op = op_update;
  set_clause = first_assignment f;
  params = v ∷ [];
  param_cap = 8;
}

set_field-new :
    (m : Model) (f : Text) (v : Value)
    → is_valid_identifier (some f) ≡ true
    → set_field (new served (some postgres) m) (some f) v ≡ assigned m f v
unfolding set_field new assigned bind placeholder_str show
set_field-new m f v hf =
    rw hf (ap (λ (s : Text). record (assigned m f v) { set_clause = s }) (simp append_assoc))

-- `corm_query_set(q, f, v)`, then `corm_query_where(q, cond)` and `corm_query_bind(q, w)`.
abbrev pub set_then_where : Model → Text → Value → Text → Value → Query
set_then_where m f v cond w =
    bind (and_where (set_field (new served (some postgres) m) (some f) v) cond) w

-- On PostgreSQL, an update of a valid field by `corm_query_set`, then `corm_query_where` with a condition
-- that is not empty and one bind: two values are bound, and the SET clause and the condition are both
-- numbered from `$1`.
pub set_then_where_collides :
    (m : Model) (f : Text) (v : Value) (cond : Text) (w : Value)
    → is_valid_identifier (some f) ≡ true
    → nonempty cond ≡ true
    → let q = set_then_where m f v cond w in
      (q.params ≡ v ∷ w ∷ [])
      × (build_sql q [] postgres ≡ (
        ok,
        update_prefix q postgres
            ++ (first_assignment f ++ (codes " WHERE " ++ subst_marks postgres 0 cond)),
      ))
unfolding build_sql and_where bind new assigned quote
set_then_where_collides m f v cond w hf hc = rw (set_field-new m f v hf) (
  refl,
  ap (λ (s : Text). (ok, s))
      (update_sql_no_marks (bind (and_where (assigned m f v) cond) w) postgres refl (mark-free f hf)
        ∙ rw hc),
)
