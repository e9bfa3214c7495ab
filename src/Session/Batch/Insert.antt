-- ===== src/Session/Batch/Insert.antt =====
-- The statement of `corm_create_batch`: its rows of placeholders and the values bound for them.
use corm.Base.{
  ℕ, ◌+◌, ◌≡◌, refl, sym, ap, ◌∙◌, List, [], ◌∷◌, ◌++◌, inl, inr, arith, Bool-cases, append_assoc,
  append-nil, length, join, Text, codes, BackendType,
}
use corm.Dialect.Placeholder.{placeholder, marks}
use corm.Model.{Field, has_flag, flag_autoinc}
use corm.Model.Memory.{Memory, Abi}
use corm.Query.{Query}
use corm.Query.Memory.{Served}
use corm.Value.{Value}
use corm.Builder.{comma}
use corm.Builder.Insert.{insert_names, comma_loop, comma_loop-join}
use corm.Session.Crud.{bind_record}
use corm.Session.Crud.Create.{insert_values, bind_record-params}
use corm.Session.Batch.{row_placeholders, batch_rows}

-- The text of a row whose first field is given.
abbrev loop_text : Text → BackendType → ℕ → ℕ → List Field → Text
loop_text sql bt fi idx fs =
    comma_loop (comma sql fi ++ placeholder bt idx) (fi + 1)
      (marks bt (idx + 1) (length (insert_names fs)))

row_placeholders_lem :
    (sql : Text) (bt : BackendType) (fi idx : ℕ) (fs : List Field)
    → row_placeholders sql bt fi idx fs ≡ (
      comma_loop sql fi (marks bt idx (length (insert_names fs))),
      idx + length (insert_names fs),
    )
unfolding row_placeholders comma_loop
row_placeholders_lem sql bt fi idx [] =
    ap (λ (n : ℕ). let r : Text × ℕ = (sql, n) in r) (omega arith)
row_placeholders_lem sql bt fi idx (f ∷ fs) = elim (Bool-cases (has_flag flag_autoinc f)) [
  | inl skip ↦ rw (skip, row_placeholders) (row_placeholders_lem sql bt fi idx fs)
  | inr kept ↦
      rw (kept, row_placeholders)
        (row_placeholders_lem (comma sql fi ++ placeholder bt idx) bt (fi + 1) (idx + 1) fs
          ∙ ap (λ (n : ℕ). let out : Text × ℕ = (loop_text sql bt fi idx fs, n) in out)
              (omega arith))
]

-- One row of `k` placeholders for each record, numbered on from row to row.
abbrev pub tuples : BackendType → ℕ → ℕ → List Memory → List Text
tuples bt k idx [] = []
tuples bt k idx (m ∷ ms) =
    (codes "(" ++ (join (codes ", ") (marks bt idx k) ++ codes ")")) ∷ tuples bt k (idx + k) ms

-- The values of all records, in the order of the records and of their columns.
abbrev pub all_values : Abi → List Field → List Memory → List Value
all_values abi fs [] = []
all_values abi fs (m ∷ ms) = insert_values abi m fs ++ all_values abi fs ms

batch_rows-comma_loop :
    (abi : Abi) (sql : Text) (bt : BackendType) (r idx : ℕ) (q : Query) (fs : List Field)
    (ms : List Memory)
    → Served q
    → ((batch_rows abi sql bt r idx q fs ms).0
        ≡ comma_loop sql r (tuples bt (length (insert_names fs)) idx ms))
      × ((batch_rows abi sql bt r idx q fs ms).1.params ≡ q.params ++ all_values abi fs ms)
unfolding batch_rows comma_loop
batch_rows-comma_loop abi sql bt r idx q fs [] h = (refl, sym (append-nil q.params))
batch_rows-comma_loop abi sql bt r idx q fs (m ∷ ms) h =
    let row_text = join (codes ", ") (marks bt idx (length (insert_names fs))) in
    let row = row_placeholders_lem (comma sql r ++ codes "(") bt 0 idx fs in
    let (values, served) = bind_record-params abi q m fs h in
    let rest =
      batch_rows-comma_loop abi (((comma sql r ++ codes "(") ++ row_text) ++ codes ")") bt (r + 1)
        (idx + length (insert_names fs)) (bind_record abi q m fs) fs ms served in
    (
      rw (row, batch_rows, comma_loop-join)
          (rest.0
            ∙ ap
                (λ (s : Text).
                  comma_loop s (r + 1)
                    (tuples bt (length (insert_names fs)) (idx + length (insert_names fs)) ms))
                (simp append_assoc)),
      rw (row, batch_rows, comma_loop-join)
          (rest.1
            ∙ (ap (λ ps. ps ++ all_values abi fs ms) values
                ∙ append_assoc q.params (insert_values abi m fs) (all_values abi fs ms))),
    )

-- The rows of a batch, on a query without parameters whose array of parameters can grow to any capacity, with
-- memory for the texts served: for each record one list of placeholders for the columns that the statement
-- names, all numbered in one sequence from 0, and bound to them the values of those columns of the first
-- record, then of the second, and so on.
pub batch_rows_aligned :
    (abi : Abi) (sql : Text) (bt : BackendType) (q : Query) (fs : List Field) (ms : List Memory)
    → Served q
    → q.params ≡ []
    → ((batch_rows abi sql bt 0 0 q fs ms).0
        ≡ sql ++ join (codes ", ") (tuples bt (length (insert_names fs)) 0 ms))
      × ((batch_rows abi sql bt 0 0 q fs ms).1.params ≡ all_values abi fs ms)
batch_rows_aligned abi sql bt q fs ms h e =
    let (text, values) = batch_rows-comma_loop abi sql bt 0 0 q fs ms h in
    (text ∙ comma_loop-join sql _, values ∙ ap (λ ps. ps ++ all_values abi fs ms) e)
