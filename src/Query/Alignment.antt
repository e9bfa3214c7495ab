-- ===== src/Query/Alignment.antt =====
-- The calls that write placeholders themselves: each number is the position of the value bound with it.
use corm.Base.{
  ◌+◌, ◌≡◌, refl, sym, subst, ap, ◌∙◌, true, false, List, [], ◌∷◌, ◌++◌, some, append_assoc,
  append-nil, length, length-append, Text, codes, join, after_first, join-cons,
}
use corm.Dialect.Placeholder.{placeholder, marks}
use corm.Model.{is_valid_identifier}
use corm.Query.{Query, backend_type, in_loop, where_in, and_where, glued, and_glue}
use corm.Query.Memory.{Served, appended, append_bound-appended}
use corm.Value.{Value}

-- What a run of bound placeholders leaves: its text behind the clause, its values behind the others.
pub record Bound (q q' : Query) (text : Text) (vals : List Value) : Type 0 where
  pub clause : q'.where_clause ≡ q.where_clause ++ text
  pub values : q'.params ≡ q.params ++ vals
  pub backend : backend_type q' ≡ backend_type q

appended-Bound :
    (q : Query) (v : Value)
    → Bound q (appended q v) (placeholder (backend_type q) (length q.params)) (v ∷ [])
appended-Bound q v = record { clause = refl; values = refl; backend = refl }

Bound-trans :
    (q r s : Query) (t u : Text) (vs ws : List Value)
    → Bound q r t vs
    → Bound r s u ws
    → Bound q s (t ++ u) (vs ++ ws)
Bound-trans q r s t u vs ws a b = record {
  clause = b.clause ∙ ap (λ w. w ++ u) a.clause ∙ append_assoc q.where_clause t u;
  values = b.values ∙ ap (λ w. w ++ ws) a.values ∙ append_assoc q.params vs ws;
  backend = b.backend ∙ a.backend;
}

-- One round of the loop, with the rounds behind it.
round :
    (q : Query) (sep : Text) (v : Value) (vals : List Value)
    → let r = appended (record q { where_clause = q.where_clause ++ sep }) v in
      let bt = backend_type q in
      let n = length q.params in
      Bound r
        (in_loop false r vals)
        (after_first (codes ", ") (marks (backend_type r) (length r.params) (length vals)))
        vals
      → Bound q
          (in_loop false r vals)
          (sep ++ (placeholder bt n ++ after_first (codes ", ") (marks bt (n + 1) (length vals))))
          (v ∷ vals)
round q sep v vals rest =
    let r = record q { where_clause = q.where_clause ++ sep } in
    let s = appended r v in
    let glue : Bound q r sep [] = record {
      clause = refl;
      values = sym (append-nil _);
      backend = refl;
    } in
    let here = Bound-trans q r s _ _ _ _ glue (appended-Bound r v) in
    let all = Bound-trans q s (in_loop false s vals) _ _ _ _ here rest in
    let bt = backend_type q in
    let mark = placeholder bt (length q.params) in
    subst (λ text. Bound q (in_loop false s vals) text (v ∷ vals))
      (append_assoc sep mark _
        ∙ ap (λ n. sep ++ (mark ++ after_first (codes ", ") (marks bt n (length vals))))
            (length-append q.params (v ∷ [])))
      all

-- The rounds behind the first, each with its comma.
in_loop-Bound :
    (q : Query) (vals : List Value)
    → Served q
    → Bound q
        (in_loop false q vals)
        (after_first (codes ", ") (marks (backend_type q) (length q.params) (length vals)))
        vals
unfolding in_loop after_first
in_loop-Bound q [] h = record {
  clause = sym (append-nil _);
  values = sym (append-nil _);
  backend = refl;
}
in_loop-Bound q (v ∷ vals) h =
    let r = record q { where_clause = q.where_clause ++ codes ", " } in
    let mark = placeholder (backend_type q) (length q.params) in
    let text =
      codes ", "
      ++ (mark
          ++ after_first (codes ", ")
              (marks (backend_type q) (length q.params + 1) (length vals))) in
    subst (λ (s : Query). Bound q (in_loop false s vals) text (v ∷ vals))
      (sym (append_bound-appended r v h))
      (round q (codes ", ") v vals (in_loop-Bound (appended r v) vals h))

-- The whole list: its placeholders, joined by commas.
in_loop-join :
    (q : Query) (v : Value) (vals : List Value)
    → Served q
    → Bound q
        (in_loop true q (v ∷ vals))
        (join (codes ", ") (marks (backend_type q) (length q.params) (length (v ∷ vals))))
        (v ∷ vals)
unfolding in_loop
in_loop-join q v vals h =
    let r = record q { where_clause = q.where_clause ++ [] } in
    let text =
      placeholder (backend_type q) (length q.params)
      ++ after_first (codes ", ") (marks (backend_type q) (length q.params + 1) (length vals)) in
    rw (join-cons (codes ", ")) (
      subst (λ (s : Query). Bound q (in_loop false s vals) text (v ∷ vals))
        (sym (append_bound-appended r v h))
        (round q [] v vals (in_loop-Bound (appended r v) vals h)))

glued-append : (glue c x y : Text) → glued glue c x ++ y ≡ glued glue c (x ++ y)
glued-append glue [] x y = refl
glued-append glue (d ∷ c) x y = simp append_assoc

-- `corm_query_where_in` on a valid field and a list that is not empty, where the array of parameters can grow
-- to any capacity and memory for the texts is served: the condition has one placeholder for each value,
-- numbered from the values bound so far, and binds exactly those values.
pub where_in_aligned :
    (q : Query) (f : Text) (v : Value) (vs : List Value)
    → Served q
    → is_valid_identifier (some f) ≡ true
    → let list = join (codes ", ") (marks (backend_type q) (length q.params) (length (v ∷ vs))) in
      ((where_in q (some f) (v ∷ vs)).where_clause
        ≡ glued and_glue q.where_clause (f ++ (codes " IN (" ++ (list ++ codes ")"))))
      × ((where_in q (some f) (v ∷ vs)).params ≡ q.params ++ v ∷ vs)
unfolding where_in and_where
where_in_aligned q f v vs h hf =
    let b = in_loop-join (and_where q (f ++ codes " IN (")) v vs h in
    rw hf (
      ap (λ t. t ++ codes ")") b.clause
          ∙ append_assoc (glued and_glue q.where_clause (f ++ codes " IN (")) _ _
          ∙ glued-append and_glue q.where_clause (f ++ codes " IN (") _
          ∙ ap (glued and_glue q.where_clause) (append_assoc f _ _),
      b.values,
    )
