-- ===== src/Builder/Tests.antt =====
-- The statements of the builder at concrete queries.
use corm.Base.{◌≡◌, refl, [], ◌++◌, codes, join, length, map, count_char, show, postgres}
use corm.Dialect.{placeholder_str}
use corm.Dialect.Placeholder.{ident, marks}
use corm.Query.{Query}
use corm.Builder.{
  append_with_placeholders, insert_sql, update_sql, table_of, split_at, placeholder_loop,
}
use corm.Builder.Marks.{subst_marks, append_with_placeholders_lem}
use corm.Builder.Insert.{insert_names, returning_text, insert_sql_lem}
use corm.Builder.Update.{
  update_prefix, where_text, assignments, update_names, update_sql_one_numbering,
  update_sql_all_fields,
}
use corm.Samples.{user_query}

two_marks :
    append_with_placeholders [] postgres (codes "a = ? OR b = ?") 3 ≡ (codes "a = $4 OR b = $5", 2)
unfolding append_with_placeholders placeholder_loop split_at placeholder_str show
two_marks = refl

append_with_placeholders_lem_example :
    append_with_placeholders (codes "x ") postgres (codes "a = ? OR b = ?") 3 ≡ (
      codes "x " ++ subst_marks postgres 3 (codes "a = ? OR b = ?"),
      count_char b'?' (codes "a = ? OR b = ?"),
    )
append_with_placeholders_lem_example =
    append_with_placeholders_lem (codes "x ") postgres (codes "a = ? OR b = ?") 3

insert_sql_lem_example :
    insert_sql user_query [] postgres
    ≡ codes "INSERT INTO "
      ++ (ident postgres (table_of user_query)
          ++ (codes " ("
              ++ (join (codes ", ") (map (ident postgres) (insert_names user_query.model.fields))
                  ++ (codes ") VALUES ("
                      ++ (join
                            (codes ", ")
                            (marks postgres 0 (length (insert_names user_query.model.fields)))
                          ++ (codes ")"
                              ++ returning_text postgres user_query.model.primary_key))))))
insert_sql_lem_example = insert_sql_lem user_query postgres

-- `SET age = ?` and `WHERE id = ?`.
abbrev raw_update : Query
raw_update = record user_query { set_clause = codes "age = ?"; where_clause = codes "id = ?" }

update_sql_one_numbering_example :
    update_sql raw_update [] postgres
    ≡ update_prefix raw_update postgres ++ subst_marks postgres 0 (codes "age = ? WHERE id = ?")
update_sql_one_numbering_example = update_sql_one_numbering raw_update postgres refl refl

abbrev whole_update : Query
whole_update = record user_query { set_clause = []; where_clause = codes "id = ?" }

update_sql_all_fields_example :
    update_sql whole_update [] postgres
    ≡ update_prefix whole_update postgres
      ++ (join (codes ", ") (assignments postgres 0 (update_names whole_update.model.fields))
          ++ where_text postgres (length (update_names whole_update.model.fields)) (codes "id = ?"))
update_sql_all_fields_example = update_sql_all_fields whole_update postgres refl
