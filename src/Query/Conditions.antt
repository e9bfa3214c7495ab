-- ===== src/Query/Conditions.antt =====
-- A chain of conditions is one text: each behind its connective, in the order of the calls.
use corm.Base.{
  ◌≡◌, refl, sym, ap, ◌∙◌, true, List, [], ◌∷◌, ◌++◌, append_assoc, append-nil, Text, nonempty,
  join, after_first, join-cons,
}
use corm.Query.{Query, and_where, and_glue}

-- `corm_query_where` for each condition in turn.
abbrev pub where_all : Query → List Text → Query
where_all q [] = q
where_all q (c ∷ cs) = where_all (and_where q c) cs

nonempty-append : (a b : Text) → nonempty a ≡ true → nonempty (a ++ b) ≡ true
nonempty-append [] b h = cc
nonempty-append (x ∷ a) b h = refl

where_all_after :
    (q : Query) (cs : List Text)
    → nonempty q.where_clause ≡ true
    → (where_all q cs).where_clause ≡ q.where_clause ++ after_first and_glue cs
unfolding and_where after_first
where_all_after q [] h = sym (append-nil _)
where_all_after q (c ∷ cs) h =
    let glued_on : (and_where q c).where_clause ≡ q.where_clause ++ (and_glue ++ c) = rw h in
    where_all_after (and_where q c) cs (rw glued_on (nonempty-append q.where_clause _ h))
    ∙ ap (λ t. t ++ after_first and_glue cs) glued_on
    ∙ simp append_assoc

-- On a query with no condition yet, and with a first condition that is not empty, the clause is the conditions
-- joined by ` AND `.
pub where_all_lem :
    (q : Query) (c : Text) (cs : List Text)
    → q.where_clause ≡ []
    → nonempty c ≡ true
    → (where_all q (c ∷ cs)).where_clause ≡ join and_glue (c ∷ cs)
unfolding and_where
where_all_lem q c cs e h =
    let first : (and_where q c).where_clause ≡ c = rw e in
    where_all_after (and_where q c) cs (rw first h)
    ∙ ap (λ t. t ++ after_first and_glue cs) first
    ∙ sym (join-cons and_glue c cs)
