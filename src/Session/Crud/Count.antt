-- ===== src/Session/Crud/Count.antt =====
-- `corm_query_count` gives the query its own columns back.
use corm.Base.{◌≡◌, refl, inl, inr, Bool-cases, is_ok, codes}
use corm.Query.{Query, select}
use corm.Model.Memory.{Abi}
use corm.Session.{Db, Backend, Hooks}
use corm.Session.Crud.{query_count, find}

-- Whatever the search for the count does, the query's columns are the caller's after it, and all else
-- in the query is as the search leaves it.
pub query_count_restores :
    {W : Type 0} (B : Backend W) (hooks : Hooks W) (abi : Abi) (q : Query) (db : Db W)
    → (query_count B hooks abi q db).2
      ≡ record (find B hooks abi (select q (codes "COUNT(*)")) db).2 { select_cols = q.select_cols }
unfolding query_count select
query_count_restores B hooks abi q db =
    elim (Bool-cases (is_ok (find B hooks abi (select q (codes "COUNT(*)")) db).0)) [
      | inl e ↦ rw e refl
      | inr e ↦ rw e refl
    ]
