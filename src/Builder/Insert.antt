-- ===== src/Builder/Insert.antt =====
-- The INSERT statement against its specification by lists: the columns, joined by commas, and one
-- placeholder for each, numbered from 0.
use corm.Base.{
  ℕ, ◌+◌, ◌≡◌, refl, sym, ap, ◌∙◌, not, List, [], ◌∷◌, ◌++◌, none, some, inl, inr, arith,
  Bool-cases, append_assoc, append-nil, map, length, select, join, after_first, join-cons, Text,
  codes, BackendType, sqlite, mysql, postgres, Option,
}
use corm.Dialect.Placeholder.{placeholder, ident, marks}
use corm.Model.{Field, name_of, has_flag, flag_autoinc}
use corm.Query.{Query}
use corm.Builder.{
  qident, comma, insert_columns, insert_placeholders, insert_sql, returning_sql, table_of,
}

-- The names of the columns that an INSERT gives.
abbrev pub insert_names : List Field → List Text
insert_names fs = map (λ f. name_of f.name) (select (λ f. not (has_flag flag_autoinc f)) fs)

-- The common shape of the loops: each text, with a comma before all but the first.
unfoldable pub comma_loop : Text → ℕ → List Text → Text
comma_loop sql n [] = sql
comma_loop sql n (x ∷ xs) = comma_loop (comma sql n ++ x) (n + 1) xs

comma-suc : (sql : Text) (n : ℕ) → comma sql (n + 1) ≡ sql ++ codes ", "
comma-suc sql n = ground arith

comma_loop-suc :
    (sql : Text) (n : ℕ) (xs : List Text)
    → comma_loop sql (n + 1) xs ≡ sql ++ after_first (codes ", ") xs
unfolding comma_loop after_first
comma_loop-suc sql n [] = sym (append-nil sql)
comma_loop-suc sql n (x ∷ xs) =
    comma_loop-suc (comma sql (n + 1) ++ x) (n + 1) xs ∙ rw (comma-suc sql n) (simp append_assoc)

pub comma_loop-join :
    (sql : Text) (xs : List Text) → comma_loop sql 0 xs ≡ sql ++ join (codes ", ") xs
unfolding comma_loop
comma_loop-join sql [] = sym (append-nil sql)
comma_loop-join sql (x ∷ xs) =
    comma_loop-suc (sql ++ x) 0 xs
    ∙ append_assoc sql x _
    ∙ ap (◌++◌ sql) (sym (join-cons (codes ", ") x xs))

insert_columns-comma_loop :
    (sql : Text) (bt : BackendType) (n : ℕ) (fs : List Field)
    → insert_columns sql bt n fs ≡ comma_loop sql n (map (ident bt) (insert_names fs))
unfolding insert_columns comma_loop qident
insert_columns-comma_loop sql bt n [] = refl
insert_columns-comma_loop sql bt n (f ∷ fs) = elim (Bool-cases (has_flag flag_autoinc f)) [
  | inl skip ↦ rw (skip, insert_columns) (insert_columns-comma_loop sql bt n fs)
  | inr kept ↦
      rw (kept, insert_columns)
        (insert_columns-comma_loop (qident (comma sql n) bt (name_of f.name)) bt (n + 1) fs)
]

insert_placeholders-comma_loop :
    (sql : Text) (bt : BackendType) (n : ℕ) (fs : List Field)
    → insert_placeholders sql bt n fs ≡ comma_loop sql n (marks bt n (length (insert_names fs)))
unfolding insert_placeholders comma_loop
insert_placeholders-comma_loop sql bt n [] = refl
insert_placeholders-comma_loop sql bt n (f ∷ fs) = elim (Bool-cases (has_flag flag_autoinc f)) [
  | inl skip ↦ rw (skip, insert_placeholders) (insert_placeholders-comma_loop sql bt n fs)
  | inr kept ↦
      rw (kept, insert_placeholders)
        (insert_placeholders-comma_loop (comma sql n ++ placeholder bt n) bt (n + 1) fs)
]

-- What PostgreSQL appends for a model with a primary key.
abbrev pub returning_text : BackendType → Option Field → Text
returning_text postgres (some pk) = codes " RETURNING " ++ ident postgres (name_of pk.name)
returning_text bt pk = []

returning_sql_lem :
    (sql : Text) (bt : BackendType) (pk : Option Field)
    → returning_sql sql bt pk ≡ sql ++ returning_text bt pk
unfolding returning_sql qident
returning_sql_lem sql sqlite pk = sym (append-nil sql)
returning_sql_lem sql mysql pk = sym (append-nil sql)
returning_sql_lem sql postgres none = sym (append-nil sql)
returning_sql_lem sql postgres (some pk) = simp append_assoc

-- An INSERT lists the columns that are not AUTOINC, in order, then one placeholder for each of them
-- numbered from 0, and on PostgreSQL asks for the primary key back.
pub insert_sql_lem :
    (q : Query) (bt : BackendType)
    → let names = insert_names q.model.fields in
      insert_sql q [] bt
      ≡ codes "INSERT INTO "
        ++ (ident bt (table_of q)
            ++ (codes " ("
                ++ (join (codes ", ") (map (ident bt) names)
                    ++ (codes ") VALUES ("
                        ++ (join (codes ", ") (marks bt 0 (length names))
                            ++ (codes ")" ++ returning_text bt q.model.primary_key))))))
unfolding insert_sql qident
insert_sql_lem q bt = simp (
  returning_sql_lem, insert_placeholders-comma_loop, insert_columns-comma_loop, comma_loop-join,
  append_assoc,
)
