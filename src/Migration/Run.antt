-- ===== src/Migration/Run.antt =====
-- The statements that `corm_auto_migrate` runs, and where it stops.
use corm.Base.{
  ◌≡◌, refl, sym, ap, ◌∙◌, inl, inr, false, List, [], ◌∷◌, ◌++◌, Option, Bool-cases, map, select,
  if◌then◌else◌, Text, Err, ok, is_ok,
}
use corm.Model.{Field, Model, name_of, has_flag, flag_index}
use corm.Session.{Db, Backend, exec}
use corm.Migration.{alter_sql, index_sql, create_table, index_loop, migrate_columns, auto_migrate}
use corm.Migration.Statements.{run_all, run_all-append}
use corm.Migration.Missing.{Missing, Described, describe-Described, alter_loop-Missing}

module _ {W : Type 0} (B : Backend W) where
  index_loop-run_all :
      (m : Model) (db : Db W) (fs : List Field)
      → index_loop B m db fs
        ≡ run_all B db (map (index_sql B.type m) (select (λ f. has_flag flag_index f) fs))
  unfolding index_loop run_all
  index_loop-run_all m db [] = refl
  index_loop-run_all m db (f ∷ fs) = elim (Bool-cases (has_flag flag_index f)) [
    | inl e ↦ rw (e, index_loop) (index_loop-run_all m (exec B db (index_sql B.type m f)).1 fs)
    | inr e ↦ rw (e, index_loop) (index_loop-run_all m db fs)
  ]

  abbrev pub index_statements : Model → List Text
  index_statements m = map (index_sql B.type m) (select (λ f. has_flag flag_index f) m.fields)

  -- Behind the creation of a table, the driver is asked for its columns, where it can tell them. Then one
  -- ALTER TABLE is run for each field that is no primary key and whose column is not among those that the
  -- driver told without an error (for each field that is no primary key when it told none), in the order of
  -- the fields, and then one CREATE INDEX for each INDEX field, whatever these statements return.
  pub migrate_columns_lem :
      (db : Db W) (m : Model)
      → (existing : Option (List Text)) × (db₁ : Db W) × (missing : List Field) × Described B db
          (name_of m.table_name)
          existing
          db₁
        × Missing existing m.fields missing
        × (migrate_columns B db m
            ≡ run_all B db₁ (map (alter_sql B.type m) missing ++ index_statements m))
  unfolding migrate_columns
  migrate_columns_lem db m =
      let (existing, db₁, known, asked) = describe-Described B db (name_of m.table_name) in
      let (missing, lacks, altered) = alter_loop-Missing B m existing db₁ m.fields in
      (
        existing,
        db₁,
        missing,
        known,
        lacks,
        rw asked (
            ap (λ d. index_loop B m d m.fields) altered
            ∙ index_loop-run_all m _ m.fields
            ∙ sym (run_all-append B db₁ (map (alter_sql B.type m) missing) (index_statements m))),
      )

  auto_migrate-append :
      (db : Db W) (xs ys : List Model)
      → auto_migrate B db (xs ++ ys) ≡ (
          let (err, db₁) = auto_migrate B db xs in
          if is_ok err then auto_migrate B db₁ ys else (err, db₁))
  unfolding auto_migrate
  auto_migrate-append db [] ys = refl
  auto_migrate-append db (x ∷ xs) ys = elim (Bool-cases (is_ok (create_table B db x).0)) [
    | inl e ↦
        rw (e, auto_migrate)
          (auto_migrate-append (migrate_columns B (create_table B db x).1 x) xs ys)
    | inr e ↦ rw (e, auto_migrate) (rw e refl)
  ]

  -- When the tables of the first models are migrated and the table of the next one cannot be created, a
  -- migration returns that error in the state it was met in: no later model is touched.
  pub auto_migrate_stops :
      (db db₁ db₂ : Db W) (err : Err) (xs : List Model) (m : Model) (ys : List Model)
      → auto_migrate B db xs ≡ (ok, db₁)
      → create_table B db₁ m ≡ (err, db₂)
      → is_ok err ≡ false
      → auto_migrate B db (xs ++ (m ∷ ys)) ≡ (err, db₂)
  unfolding auto_migrate
  auto_migrate_stops db db₁ db₂ err xs m ys before failed e =
      auto_migrate-append db xs (m ∷ ys) ∙ rw before (rw (failed, e, auto_migrate) refl)
