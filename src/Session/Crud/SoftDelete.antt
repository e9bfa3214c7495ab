-- ===== src/Session/Crud/SoftDelete.antt =====
-- Soft deletion: the filter of a search, and the update that a delete becomes.
use corm.Base.{
  ℕ, Bool, ◌≡◌, refl, ap, ◌∙◌, true, false, [], ◌∷◌, ◌++◌, Option, none, some, append_assoc, Text,
  codes, nonempty, sqlite,
}
use corm.Dialect.{quote, placeholder_str}
use corm.Dialect.Placeholder.{ident}
use corm.Model.{Model, Field, is_valid_identifier}
use corm.Model.Memory.{Abi}
use corm.Query.{Query, new, bind, and_where, where_null, set_field, glued, and_glue, op_update}
use corm.Value.{Value, deleted_mark}
use corm.Builder.{update_sql}
use corm.Builder.Marks.{subst_marks_bare, sqlite-BareMark}
use corm.Builder.Update.{update_prefix, update_sql_one_numbering}
use corm.Session.{Db, Backend, Hooks}
use corm.Session.Crud.{scoped, soft_delete_field, delete, delete_internal, update_internal}

scoped_step :
    (q : Query) (f : Field)
    → q.unscoped ≡ false
    → soft_delete_field q ≡ some f
    → scoped q ≡ where_null q f.name
unfolding scoped
scoped_step q f hu hf = simp (hu, hf)

where_null_lem :
    (q : Query) (name : Text)
    → is_valid_identifier (some name) ≡ true
    → where_null q (some name)
      ≡ record q { where_clause = glued and_glue q.where_clause (name ++ codes " IS NULL") }
unfolding where_null and_where
where_null_lem q name hv = rw hv refl

-- A search on a model with a soft-delete field of a valid name, that is not unscoped, adds one condition: that
-- the soft-delete field is NULL. It stands behind the conditions of the caller, with AND and with no
-- parentheses around them.
pub scoped_filters :
    (q : Query) (f : Field) (name : Text)
    → q.unscoped ≡ false
    → soft_delete_field q ≡ some f
    → f.name ≡ some name
    → is_valid_identifier (some name) ≡ true
    → scoped q
      ≡ record q { where_clause = glued and_glue q.where_clause (name ++ codes " IS NULL") }
scoped_filters q f name hu hf hn hv =
    scoped_step q f hu hf ∙ (ap (where_null q) hn ∙ where_null_lem q name hv)

-- All memory is served.
abbrev served : ℕ → Bool
served _ = true

-- A condition with one bound value, as the caller of `corm_delete` writes it.
abbrev pub where_bound : Model → Text → Value → Query
where_bound m cond w = bind (and_where (new served (some sqlite) m) cond) w

-- What the update of a soft delete is built from.
marked : Model → Text → Value → Text → Query
marked m cond w name = record (where_bound m cond w) {
  op = op_update;
  set_clause = ident sqlite name ++ codes " = ?";
  params = w ∷ deleted_mark ∷ [];
}

set_field-where_bound :
    (m : Model) (cond : Text) (w : Value) (name : Text)
    → is_valid_identifier (some name) ≡ true
    → set_field (where_bound m cond w) (some name) deleted_mark ≡ marked m cond w name
unfolding set_field new marked bind and_where placeholder_str
set_field-where_bound m cond w name hv =
    rw hv (ap (λ (s : Text). record (marked m cond w name) { set_clause = s }) (simp append_assoc))

update_sql-marked :
    (m : Model) (cond : Text) (w : Value) (name : Text)
    → nonempty cond ≡ true
    → update_sql (marked m cond w name) [] sqlite
      ≡ update_prefix (marked m cond w name) sqlite
        ++ ((ident sqlite name ++ codes " = ?") ++ (codes " WHERE " ++ cond))
unfolding marked new and_where bind quote
update_sql-marked m cond w name hc =
    update_sql_one_numbering (marked m cond w name) sqlite refl hc
    ∙ ap (◌++◌ (update_prefix (marked m cond w name) sqlite))
        (subst_marks_bare sqlite sqlite-BareMark 0 _)

delete_step :
    {W : Type 0} (B : Backend W) (hooks : Hooks W) (abi : Abi) (q : Query) (db : Db W) (f : Field)
    → soft_delete_field q ≡ some f
    → delete B hooks abi q db
      ≡ update_internal B hooks abi (set_field q f.name deleted_mark) none db
unfolding delete delete_internal
delete_step B hooks abi q db f hf = rw (hf, delete_internal) refl

-- On SQLite, for a model with a soft-delete field of a valid name and a condition that is not empty: a delete
-- with one bound value is an update whose statement writes its mark at the first `?` and the caller's condition
-- at the later ones, but whose values are bound the other way round, the caller's first.
pub soft_delete_swaps :
    {W : Type 0} (B : Backend W) (hooks : Hooks W) (abi : Abi) (db : Db W) (m : Model) (cond : Text)
    (w : Value) (f : Field) (name : Text)
    → soft_delete_field (where_bound m cond w) ≡ some f
    → f.name ≡ some name
    → is_valid_identifier (some name) ≡ true
    → nonempty cond ≡ true
    → (q : Query) × (delete B hooks abi (where_bound m cond w) db
        ≡ update_internal B hooks abi q none db)
      × (update_sql q [] sqlite
          ≡ update_prefix q sqlite
            ++ ((ident sqlite name ++ codes " = ?") ++ (codes " WHERE " ++ cond)))
      × (q.params ≡ w ∷ deleted_mark ∷ [])
unfolding marked
soft_delete_swaps B hooks abi db m cond w f name hf hn hv hc = (
  marked m cond w name,
  delete_step B hooks abi (where_bound m cond w) db f hf
      ∙ ap (λ (q : Query). update_internal B hooks abi q none db)
          (ap (λ (n : Option Text). set_field (where_bound m cond w) n deleted_mark) hn
            ∙ set_field-where_bound m cond w name hv),
  update_sql-marked m cond w name hc,
  refl,
)
