-- ===== src/Query/Reset.antt =====
-- `corm_query_reset` against a new query.
use corm.Base.{◌≡◌, refl}
use corm.Query.{Query, new, reset}

-- A reset query is a new one on the same session and model, but for two things: the capacity of the
-- parameter array, and `unscoped`, which stays set.
pub reset_lem :
    (q : Query)
    → reset q
      ≡ record (new q.realloc q.backend q.model) { param_cap = q.param_cap; unscoped = q.unscoped }
unfolding reset new
reset_lem q = refl
