-- ===== src/Session/Tests.antt =====
-- Sessions on a store that holds the number of its committed and of its pending changes. Its second
-- change in a transaction fails.
use corm.Session.Opening.{Driver, Agrees, open_with_config, open_with_config-held}
use corm.StmtCache.{Cache}
use corm.Base.{
  ◌⊎◌, ℕ, BackendType, mysql, first_that, join, ◌+◌, ◌≡◌, refl, sym, ◌∙◌, ◌≢◌, ◌==◌, Bool, true,
  false, List, [], ◌∷◌, ◌++◌, Option, some, none, if◌then◌else◌, length, Text, codes, pos, Err, ok,
  err_generic, err_backend, sqlite,
}
use corm.Model.{has_flag}
use corm.Model.Memory.{Memory}
use corm.Query.{new, set_op, and_where, bind}
use corm.Builder.{build_sql}
use corm.Builder.Insert.{insert_names}
use corm.Value.{Value}
use corm.Session.{Db, Backend, transaction}
use corm.Session.Crud.{update_internal, delete_internal, hard_delete}
use corm.Session.Batch.{update_batch, delete_batch, create_batch, batch_rows, is_inserted}
use corm.Session.Batch.Insert.{tuples, all_values, batch_rows_aligned}
use corm.Session.Batch.Progress.{Counted, create_batch-Counted}
use corm.Session.Batch.Atomic.{
  Keeps, Transactional, update_batch_atomic, delete_batch_atomic, transaction_atomic,
}
use corm.Samples.{always, age_field, users, user_query, plain_abi, user_memory, session, no_hooks}

record Store : Type 0 where
  committed : ℕ
  pending : ℕ
  in_tx : Bool

abbrev store_exec : Text → List Value → Db Store → Err × Db Store
store_exec sql params db =
    let w = db.world in
    (
      (if w.pending == 0 then ok else err_backend),
      record db { world = record w { pending = w.pending + 1 } },
    )

abbrev store : Backend Store
store = record {
  type = sqlite;
  ping = λ db. (ok, db);
  exec = store_exec;
  query = λ _ _ db. (ok, none, db);
  begin = λ db. (ok, record db { world = record db.world { pending = 0; in_tx = true } });
  commit = λ db. (
    ok,
    record db {
      world = record {
        committed = db.world.committed + db.world.pending;
        pending = 0;
        in_tx = false;
      };
    },
  );
  rollback = λ db. (ok, record db { world = record db.world { pending = 0; in_tx = false } });
  last_insert_id = λ _. pos 1;
  rows_affected = λ _. pos 1;
  describe_table = none;
}

abbrev idle : Db Store
idle = session (record { committed = 5; pending = 0; in_tx = false })

abbrev committed_of : Db Store → ℕ
committed_of db = db.world.committed

abbrev Opened : Db Store → Type 0
Opened db = db.world.in_tx ≡ true

abbrev Closed : Db Store → Type 0
Closed db = db.world.in_tx ≡ false

store-Transactional : Transactional committed_of Opened Closed store no_hooks
unfolding Keeps
store-Transactional = record {
  begin_opens = λ db e. (refl, refl);
  begin_fails = λ db free h. absurd (h refl);
  exec_keeps = λ q db op t. (t, refl);
  rollback_ends = λ db t. (refl, refl);
  commit_fails = λ db t h. absurd (h refl);
  before_update_keeps = λ db rec t. (t, refl);
  after_update_keeps = λ db rec t. (t, refl);
  before_delete_keeps = λ db rec t. (t, refl);
  after_delete_keeps = λ db rec t. (t, refl);
}

-- One change, and then an error.
abbrev one_then_fail : Db Store → Err × Db Store
one_then_fail db = (err_generic, (store_exec (codes "UPDATE") [] db).1)

one_then_fail-Keeps : (db : Db Store) → Keeps committed_of Opened Closed db (one_then_fail db).1
unfolding Keeps
one_then_fail-Keeps db t = (t, refl)

transaction_fails : (transaction store one_then_fail idle).0 ≢ ok
unfolding transaction
transaction_fails e = cc

transaction_atomic_example :
    ((transaction store one_then_fail idle).1.world.committed ≡ 5)
    × (((transaction store one_then_fail idle).1.world.in_tx ≡ false)
        ⊎ ((err_generic ≡ ok) × ((store.commit (one_then_fail (store.begin idle).1).1).0 ≢ ok)))
transaction_atomic_example =
    transaction_atomic committed_of Opened Closed store-Transactional plain_abi one_then_fail
      one_then_fail-Keeps idle refl transaction_fails

not_ok : err_backend ≢ ok
not_ok e = cc

abbrev two_records : List Memory
two_records = user_memory 1 ∷ user_memory 2 ∷ []

-- All memory is served.
abbrev every : ℕ → Option (ℕ → Bool)
every _ = some always

update_batch_error :
    ((update_batch store no_hooks plain_abi users every two_records idle).0) ≡ err_backend
unfolding update_batch update_internal build_sql has_flag set_op
update_batch_error = refl

update_batch_fails : (update_batch store no_hooks plain_abi users every two_records idle).0 ≢ ok
update_batch_fails e = absurd (not_ok (sym update_batch_error ∙ e))

delete_batch_error :
    ((delete_batch store no_hooks plain_abi users every two_records idle).0) ≡ err_backend
unfolding delete_batch delete_internal build_sql has_flag new bind and_where hard_delete set_op
delete_batch_error = refl

delete_batch_fails : (delete_batch store no_hooks plain_abi users every two_records idle).0 ≢ ok
delete_batch_fails e = absurd (not_ok (sym delete_batch_error ∙ e))

update_batch_atomic_example :
    ((update_batch store no_hooks plain_abi users every two_records idle).2.world.committed ≡ 5)
    × ((update_batch store no_hooks plain_abi users every two_records idle).2.world.in_tx ≡ false)
update_batch_atomic_example =
    update_batch_atomic committed_of Opened Closed store-Transactional plain_abi users every
      two_records idle refl refl update_batch_fails

delete_batch_atomic_example :
    ((delete_batch store no_hooks plain_abi users every two_records idle).2.world.committed ≡ 5)
    × ((delete_batch store no_hooks plain_abi users every two_records idle).2.world.in_tx ≡ false)
delete_batch_atomic_example =
    delete_batch_atomic committed_of Opened Closed store-Transactional plain_abi users every
      two_records idle refl refl delete_batch_fails

new_has_none : user_query.params ≡ []
unfolding new
new_has_none = refl

insertable : first_that is_inserted users.fields ≡ some age_field
unfolding has_flag
insertable = refl

create_batch-Counted_example :
    (n : ℕ) × ((create_batch store no_hooks plain_abi users every (pos 1) two_records idle).1
      ≡ some n)
    × Counted (create_batch store no_hooks plain_abi users every (pos 1) two_records idle).0 n 2
create_batch-Counted_example =
    create_batch-Counted store no_hooks plain_abi users every (pos 1) (user_memory 1)
      (user_memory 2 ∷ []) age_field idle insertable

batch_rows_aligned_example :
    ((batch_rows plain_abi (codes "VALUES ") sqlite 0 0 user_query users.fields two_records).0
      ≡ codes "VALUES "
        ++ join (codes ", ") (tuples sqlite (length (insert_names users.fields)) 0 two_records))
    × ((batch_rows plain_abi
          (codes "VALUES ")
          sqlite
          0
          0
          user_query
          users.fields
          two_records).1.params
        ≡ all_values plain_abi users.fields two_records)
unfolding new
batch_rows_aligned_example =
    batch_rows_aligned plain_abi (codes "VALUES ") sqlite user_query users.fields two_records
      (λ _. refl) new_has_none

-- SQLite is there as 1 and MySQL as 2.
abbrev two_backends : List (BackendType × ℕ)
two_backends = (sqlite, 1) ∷ (mysql, 2) ∷ []

-- A driver that refuses to open, and one that has no `open`.
abbrev drivers : List (BackendType × Driver)
drivers = (sqlite, some (λ _. err_generic)) ∷ (mysql, none) ∷ []

abbrev fresh_memory : Cache ℕ
fresh_memory = record {
  capacity = 0;
  size = 0;
  head = 0;
  tail = 0;
  has_destroy_fn = false;
  sql = λ _. [];
  stmt = λ _. 0;
  prev = λ _. 0;
  next = λ _. 0;
  destroyed = [];
}

open_with_config-held_example :
    Agrees true
      (open_with_config true ok true (pos 0) fresh_memory drivers (some (codes "sqlite3://a.db")))
open_with_config-held_example =
    open_with_config-held (pos 0) fresh_memory drivers (codes "sqlite3://a.db")
