-- ===== src/Builder/Update.antt =====
-- The UPDATE statement: its placeholders are numbered through the SET and the WHERE clause.
use native.Mathlib.Nat.{zero-add}
use corm.Base.{
  ℕ, ◌+◌, ◌≡◌, refl, sym, ap, ◌∙◌, true, false, not, List, [], ◌∷◌, ◌++◌, inl, inr, arith,
  Bool-cases, append_assoc, append-nil, map, length, select, join, Text, codes, nonempty,
  count_char, BackendType, if◌then◌else◌,
}
use corm.Dialect.Placeholder.{placeholder, ident}
use corm.Model.{Field, name_of, has_flag, flag_primary}
use corm.Query.{Query}
use corm.Builder.{qident, comma, update_columns, count_non_primary, update_sql, where_sql, table_of}
use corm.Builder.Marks.{
  subst_marks, subst_marks_none, append_with_placeholders_lem, subst_marks-append,
}
use corm.Builder.Insert.{comma_loop, comma_loop-join}

abbrev pub update_prefix : Query → BackendType → Text
update_prefix q bt = codes "UPDATE " ++ (ident bt (table_of q) ++ codes " SET ")

-- The WHERE clause with its placeholders numbered from `start`; nothing where there is none.
abbrev pub where_text : BackendType → ℕ → Text → Text
where_text bt start condition =
    if nonempty condition then codes " WHERE " ++ subst_marks bt start condition else []

pub where_sql_lem :
    (sql : Text) (bt : BackendType) (condition : Text) (start : ℕ)
    → where_sql sql bt condition start ≡ sql ++ where_text bt start condition
unfolding where_sql
where_sql_lem sql bt [] start = sym (append-nil sql)
where_sql_lem sql bt (c ∷ cs) start =
    ap (λ (r : Text × ℕ). r.0)
      (append_with_placeholders_lem (sql ++ codes " WHERE ") bt (c ∷ cs) start)
    ∙ append_assoc sql _ _

subst_marks-where :
    (bt : BackendType) (i : ℕ) (condition : Text)
    → subst_marks bt i (codes " WHERE " ++ condition)
      ≡ codes " WHERE " ++ subst_marks bt i condition
unfolding subst_marks
subst_marks-where bt i condition = refl

-- With a SET clause and a condition that are not empty, every `?` of the two is replaced in one numbering from 0.
pub update_sql_one_numbering :
    (q : Query) (bt : BackendType)
    → nonempty q.set_clause ≡ true
    → nonempty q.where_clause ≡ true
    → update_sql q [] bt
      ≡ update_prefix q bt ++ subst_marks bt 0 (q.set_clause ++ (codes " WHERE " ++ q.where_clause))
unfolding update_sql qident
update_sql_one_numbering q bt hs hw =
    rw (hs, where_sql_lem, hw, append_with_placeholders_lem, subst_marks-append, subst_marks-where)
      (simp (append_assoc, zero-add))

-- A SET clause with no `?` in it, as `corm_query_set` writes it on PostgreSQL, leaves the numbering
-- of the condition at 0.
pub update_sql_no_marks :
    (q : Query) (bt : BackendType)
    → nonempty q.set_clause ≡ true
    → count_char b'?' q.set_clause ≡ 0
    → update_sql q [] bt ≡ update_prefix q bt ++ (q.set_clause ++ where_text bt 0 q.where_clause)
unfolding update_sql qident
update_sql_no_marks q bt hs hc =
    rw (hs, where_sql_lem, append_with_placeholders_lem, hc, subst_marks_none bt 0 q.set_clause hc)
      (simp append_assoc)

-- The assignments of the fields, numbered from `i`.
abbrev pub assignments : BackendType → ℕ → List Text → List Text
assignments bt i [] = []
assignments bt i (name ∷ names) =
    (ident bt name ++ (codes " = " ++ placeholder bt i)) ∷ assignments bt (i + 1) names

abbrev pub update_names : List Field → List Text
update_names fs = map (λ f. name_of f.name) (select (λ f. not (has_flag flag_primary f)) fs)

update_columns-comma_loop :
    (sql : Text) (bt : BackendType) (n : ℕ) (fs : List Field)
    → update_columns sql bt n fs ≡ comma_loop sql n (assignments bt n (update_names fs))
unfolding update_columns comma_loop qident
update_columns-comma_loop sql bt n [] = refl
update_columns-comma_loop sql bt n (f ∷ fs) = elim (Bool-cases (has_flag flag_primary f)) [
  | inl skip ↦ rw (skip, update_columns) (update_columns-comma_loop sql bt n fs)
  | inr kept ↦
      rw (kept, update_columns)
        (update_columns-comma_loop
            (qident (comma sql n) bt (name_of f.name) ++ (codes " = " ++ placeholder bt n)) bt
            (n + 1) fs
          ∙ ap (λ (sql' : Text). comma_loop sql' (n + 1) (assignments bt (n + 1) (update_names fs)))
              (append_assoc (comma sql n) (ident bt (name_of f.name)) _))
]

count_non_primary-length : (fs : List Field) → count_non_primary fs ≡ length (update_names fs)
unfolding count_non_primary
count_non_primary-length [] = refl
count_non_primary-length (f ∷ fs) = ground (arith, count_non_primary-length fs)

-- With no SET clause every field that is not PRIMARY is assigned, the placeholders numbered from 0,
-- and the condition goes on with the number behind them.
pub update_sql_all_fields :
    (q : Query) (bt : BackendType)
    → nonempty q.set_clause ≡ false
    → let names = update_names q.model.fields in
      update_sql q [] bt
      ≡ update_prefix q bt
        ++ (join (codes ", ") (assignments bt 0 names)
            ++ where_text bt (length names) q.where_clause)
unfolding update_sql qident
update_sql_all_fields q bt hs =
    rw (hs, where_sql_lem, update_columns-comma_loop, comma_loop-join, count_non_primary-length)
      (simp append_assoc)
