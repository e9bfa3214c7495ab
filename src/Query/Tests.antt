-- ===== src/Query/Tests.antt =====
-- The query builder at concrete queries.
use corm.Base.{ℕ, List, ◌≡◌, refl, sqlite, true, [], ◌∷◌, ◌++◌, some, codes, join, length}
use corm.Dialect.Placeholder.{marks}
use corm.Query.{Query, new, backend_type, where_in, glued, and_glue}
use corm.Query.Alignment.{where_in_aligned}
use corm.Query.Chain.{Call, both, between, assign, chain, Even, chain-Even, new-Even}
use corm.Query.Params.{
  Param, scalar, text_at, blob_at, no_params, free_loop, free, bind_all, bind_all-free,
}
use corm.Samples.{always, age, age_valid, users, user_query, number}

abbrev unscoped_query : Query
unscoped_query = record user_query {
  unscoped = true;
  where_clause = codes "id = ?";
  params = number 1 ∷ [];
  param_cap = 8;
}

where_in_aligned_example :
    let list =
      join (codes ", ") (marks (backend_type unscoped_query) (length unscoped_query.params) 2) in
    ((where_in unscoped_query (some age) (number 3 ∷ number 4 ∷ [])).where_clause
      ≡ glued and_glue unscoped_query.where_clause (age ++ (codes " IN (" ++ (list ++ codes ")"))))
    × ((where_in unscoped_query (some age) (number 3 ∷ number 4 ∷ [])).params
        ≡ unscoped_query.params ++ number 3 ∷ number 4 ∷ [])
unfolding new
where_in_aligned_example =
    where_in_aligned unscoped_query age (number 3) (number 4 ∷ []) (λ _. refl) age_valid

-- A text at 100, a number, and a blob of 3 bytes at 200; the copies stand at 7 and 9.
abbrev bound : List (ℕ × Param)
bound = (7, text_at (some 100)) ∷ ((8, scalar) ∷ ((9, blob_at (some 200) 3) ∷ []))

bind_all-free_example : free (bind_all no_params bound) ≡ 7 ∷ (9 ∷ [])
unfolding free free_loop
bind_all-free_example = bind_all-free no_params bound (tt, (tt, (refl, tt)))

-- Two values for a condition of the client, a range, and an assignment.
abbrev calls : List Call
calls =
    both (codes "a = ? OR b = ?") (number 1 ∷ (number 2 ∷ []))
    ∷ (between (some age) (number 3) (number 4) ∷ (assign (some age) (number 5) ∷ []))

chain-Even_example : Even (chain (new always (some sqlite) users) calls)
chain-Even_example =
    chain-Even (new always (some sqlite) users) calls (refl, (tt, (tt, tt)))
      (new-Even always users (λ _. refl))
