-- ===== src/Migration/Tests.antt =====
-- Migrations of small models on a driver that runs only so many statements.
use corm.Base.{
  ℕ, ◌+◌, ◌-◌, ◌≡◌, refl, [], ◌∷◌, ◌++◌, List, Option, Text, ◌==◌, if◌then◌else◌, none, some, codes,
  ok, pos, err_backend, sqlite, map,
}
use corm.Model.{Model, Field, has_flag}
use corm.Samples.{users, session, age_field, id_field}
use corm.Dialect.{string}
use corm.Session.{Db, Backend, exec, note_outcome}
use corm.Migration.{
  create_table, describe, migrate_columns, auto_migrate, alter_sql, alter_loop, index_loop, skips,
  has_column,
}
use corm.Migration.Statements.{run_all}
use corm.Migration.Missing.{Missing, Described}
use corm.Migration.Run.{index_statements, migrate_columns_lem, auto_migrate_stops}

-- `Text` columns with every constraint, and a reference.
abbrev team_field : Field
team_field = record {
  name = some (codes "team");
  type = string;
  offset = 8;
  size = 20;
  flags = 4 + 32;
  default_value = some (codes "'x'");
  fk_ref = some (codes "teams.name");
}

abbrev players : Model
players = record users { fields = id_field ∷ age_field ∷ team_field ∷ [] }

-- The number is how many statements may still be run; the tables have the columns `id` and `age`.
abbrev counted : Backend ℕ
counted = record {
  type = sqlite;
  ping = λ db. (ok, db);
  exec = λ _ _ db.
      if db.world == 0 then (err_backend, db) else (ok, record db { world = db.world - 1 });
  query = λ _ _ db. (ok, none, db);
  begin = λ db. (ok, db);
  commit = λ db. (ok, db);
  rollback = λ db. (ok, db);
  last_insert_id = λ _. pos 0;
  rows_affected = λ _. pos 0;
  describe_table = some (λ _ db. (ok, some (codes "id" ∷ codes "age" ∷ []), db));
}

migrate_columns_lem_example :
    (existing : Option (List Text)) × (db₁ : Db ℕ) × (missing : List Field) × Described counted
      (session 5)
      (codes "users")
      existing
      db₁
    × Missing existing players.fields missing
    × (migrate_columns counted (session 5) players
        ≡ run_all counted db₁
            (map (alter_sql sqlite players) missing ++ index_statements counted players))
migrate_columns_lem_example = migrate_columns_lem counted (session 5) players

abbrev after_one : Db ℕ
after_one = (auto_migrate counted (session 1) (users ∷ [])).1

auto_migrate_stops_example :
    auto_migrate counted (session 1) (users ∷ players ∷ users ∷ [])
    ≡ (err_backend, (create_table counted after_one players).1)
unfolding auto_migrate create_table exec note_outcome migrate_columns index_loop has_flag alter_loop
    skips describe has_column
auto_migrate_stops_example =
    auto_migrate_stops counted (session 1) after_one (create_table counted after_one players).1
      err_backend (users ∷ []) players (users ∷ []) refl refl refl
