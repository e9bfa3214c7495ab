-- ===== src/Session/Batch/Atomic.antt =====
-- The batch calls of src/query.c and `corm_transaction` of src/corm.c as transactions: what a failed one
-- leaves in the store. The driver is a parameter; what a driver documents is `Transactional`.
use corm.Base.{
  none, ℕ, ◌+◌, Bool, ◌≡◌, refl, ◌≢◌, ◌∙◌, ◌⊎◌, inl, inr, true, List, [], ◌∷◌, Option, some, ℤ, Err,
  ok, is_ok, Bool-cases, ◌+ℤ◌, pos, arith, Option-cases,
}
use corm.Query.{Query, set_op, op_update, op_delete, backend_type, new}
use corm.Model.{Model, Field}
use corm.Model.Memory.{Memory, Abi}
use corm.Builder.{build_sql}
use corm.Session.{Db, Backend, Hook, Hooks, transaction}
use corm.Session.Crud.{
  run_hook, run_statement, update_internal, hard_delete, delete_internal, soft_delete_field,
}
use corm.Session.Batch.{
  with_key, record_loop, in_transaction, update_record, delete_record, update_batch, delete_batch,
  affected_of, primary_field,
}

-- `durable` is what is committed, `InTx` says that a transaction is open, and `Idle` that none is.
module _ {W : Type 0} {D : Type 0} (durable : Db W → D) (InTx Idle : Db W → Type 0) where
  -- From inside a transaction the call stays in it, and what is committed does not change.
  unfoldable pub Keeps : Db W → Db W → Type 0
  Keeps db db' = InTx db → InTx db' × (durable db' ≡ durable db)

  abbrev pub HookKeeps : Option (Hook W) → Type 0
  HookKeeps hook = (db : Db W) (rec : Option Memory) → Keeps db (run_hook hook db rec).1

  -- What the driver documents of transactions, and what the hooks must respect.
  pub record Transactional (B : Backend W) (hooks : Hooks W) : Type 0 where
    pub begin_opens :
        (db : Db W)
        → (B.begin db).0 ≡ ok
        → InTx (B.begin db).1 × (durable (B.begin db).1 ≡ durable db)
    pub begin_fails :
        (db : Db W)
        → Idle db
        → (B.begin db).0 ≢ ok
        → (durable (B.begin db).1 ≡ durable db) × Idle (B.begin db).1
    pub exec_keeps :
        (q : Query) (db : Db W)
        → (q.op ≡ op_update) ⊎ (q.op ≡ op_delete)
        → Keeps db (B.exec (build_sql q [] (backend_type q)).1 q.params db).1
    pub rollback_ends :
        (db : Db W) → InTx db → (durable (B.rollback db).1 ≡ durable db) × Idle (B.rollback db).1
    pub commit_fails :
        (db : Db W) → InTx db → (B.commit db).0 ≢ ok → durable (B.commit db).1 ≡ durable db
    pub before_update_keeps : HookKeeps hooks.before_update
    pub after_update_keeps : HookKeeps hooks.after_update
    pub before_delete_keeps : HookKeeps hooks.before_delete
    pub after_delete_keeps : HookKeeps hooks.after_delete

  is_ok→ok : (e : Err) → is_ok e ≡ true → e ≡ ok
  is_ok→ok e h = ground arith

  Keeps-refl : (db : Db W) → Keeps db db
  unfolding Keeps
  Keeps-refl db t = (t, refl)

  Keeps-trans : (a b c : Db W) → Keeps a b → Keeps b c → Keeps a c
  unfolding Keeps
  Keeps-trans a b c f g t = let (t', e) = f t in let (t'', e') = g t' in (t'', e' ∙ e)

  module _ {B : Backend W} {hooks : Hooks W} (laws : Transactional B hooks) (abi : Abi) where
    run_statement-Keeps :
        (after : Option (Hook W))
        → HookKeeps after
        → (q : Query) (rec : Option Memory) (db : Db W) → (q.op ≡ op_update) ⊎ (q.op ≡ op_delete)
        → Keeps db (run_statement B hooks abi after q rec db).3
    unfolding run_statement
    run_statement-Keeps after h q rec db op =
        elim (Bool-cases (is_ok (build_sql q [] (backend_type q)).0)) [
          | inr e ↦ rw e (Keeps-refl db)
          | inl e ↦
              rw e
                (elim (Bool-cases
                  (is_ok (B.exec (build_sql q [] (backend_type q)).1 q.params db).0)) [
                    | inr f ↦ rw f (laws.exec_keeps q db op)
                    | inl f ↦ rw f (Keeps-trans _ _ _ (laws.exec_keeps q db op) (h _ rec))
                  ])
        ]

    update_internal-Keeps :
        (q : Query) (rec : Option Memory) (db : Db W)
        → Keeps db (update_internal B hooks abi q rec db).3
    unfolding update_internal set_op
    update_internal-Keeps q rec db =
        elim (Bool-cases (is_ok (run_hook hooks.before_update db rec).0)) [
          | inr e ↦ rw e (laws.before_update_keeps db rec)
          | inl e ↦ rw e (
              Keeps-trans _ _ _ (laws.before_update_keeps db rec)
                (run_statement-Keeps hooks.after_update laws.after_update_keeps _ _ _ (inl refl)))
        ]

    hard_delete-Keeps :
        (q : Query) (rec : Option Memory) (db : Db W)
        → Keeps db (hard_delete B hooks abi q rec db).3
    unfolding hard_delete set_op
    hard_delete-Keeps q rec db = elim (Bool-cases (is_ok (run_hook hooks.before_delete db rec).0)) [
      | inr e ↦ rw e (laws.before_delete_keeps db rec)
      | inl e ↦ rw e (
          Keeps-trans _ _ _ (laws.before_delete_keeps db rec)
            (run_statement-Keeps hooks.after_delete laws.after_delete_keeps _ _ _ (inr refl)))
    ]

    delete_internal-Keeps :
        (q : Query) (rec : Option Memory) (db : Db W)
        → Keeps db (delete_internal B hooks abi q rec db).3
    unfolding delete_internal
    delete_internal-Keeps q rec db = elim (Option-cases (soft_delete_field q)) [
      | inl e ↦ rw (e, delete_internal) (hard_delete-Keeps q rec db)
      | inr (f, e) ↦ rw (e, delete_internal) (update_internal-Keeps _ rec db)
    ]

    module _ (model : Model) where
      update_record-Keeps :
          (memory : Option (ℕ → Bool)) (pk : Field) (m : Memory) (db : Db W)
          → Keeps db (update_record B hooks abi model memory pk m db).3
      unfolding update_record
      update_record-Keeps none pk m db = Keeps-refl db
      update_record-Keeps (some realloc) pk m db = update_internal-Keeps _ (some m) db

      delete_record-Keeps :
          (memory : Option (ℕ → Bool)) (pk : Field) (m : Memory) (db : Db W)
          → Keeps db (delete_record B hooks abi model memory pk m db).3
      unfolding delete_record
      delete_record-Keeps none pk m db = Keeps-refl db
      delete_record-Keeps (some realloc) pk m db =
          elim (Option-cases (soft_delete_field (new realloc (some B.type) model))) [
            | inl e ↦ rw (e, delete_record) (delete_internal-Keeps _ (some m) db)
            | inr (f, e) ↦ rw (e, delete_record) (update_internal-Keeps _ (some m) db)
          ]

      module _ (step : ℕ → Memory → Db W → Err × Option ℤ × Query × Db W)
          (keeps : (i : ℕ) (m : Memory) (db : Db W) → Keeps db (step i m db).3) where
        record_loop-Keeps :
            (i : ℕ) (total : ℤ) (recs : List Memory) (db : Db W)
            → Keeps db (record_loop B hooks abi model step i total recs db).2
        unfolding record_loop
        record_loop-Keeps i total [] db = Keeps-refl db
        record_loop-Keeps i total (m ∷ ms) db = elim (Bool-cases (is_ok (step i m db).0)) [
          | inr e ↦ rw (e, record_loop) (keeps i m db)
          | inl e ↦
              rw (e, record_loop)
                (Keeps-trans _ _ _ (keeps i m db) (
                  record_loop-Keeps (i + 1) (total +ℤ affected_of B hooks abi model (step i m db).1)
                    ms (step i m db).3))
        ]

        in_transaction_atomic :
            (recs : List Memory) (db : Db W)
            → (B.begin db).0 ≡ ok
            → (in_transaction B hooks abi model step recs db).0 ≢ ok
            → (durable (in_transaction B hooks abi model step recs db).2 ≡ durable db)
              × Idle (in_transaction B hooks abi model step recs db).2
        unfolding in_transaction Keeps
        in_transaction_atomic recs db hb he =
            let (t, e) = laws.begin_opens db hb in
            let (t', e') = record_loop-Keeps 0 (pos 0) recs (B.begin db).1 t in
            elim (Bool-cases
              (is_ok (record_loop B hooks abi model step 0 (pos 0) recs (B.begin db).1).0)) [
                | inl f ↦ absurd (he (is_ok→ok _ f))
                | inr f ↦
                    let (same, ended) = laws.rollback_ends _ t' in rw f (same ∙ (e' ∙ e), ended)
              ]

      -- Where the driver and the hooks keep to transactions, no transaction is open before, and the begin
      -- succeeds: a batch update that returns an error leaves the committed data as it was and no transaction
      -- open. The error may be an empty batch, a model without a primary key, or at any of the records an error
      -- or a query that is not allocated.
      pub update_batch_atomic :
          (memory : ℕ → Option (ℕ → Bool)) (recs : List Memory) (db : Db W)
          → Idle db
          → (B.begin db).0 ≡ ok
          → (update_batch B hooks abi model memory recs db).0 ≢ ok
          → (durable (update_batch B hooks abi model memory recs db).2 ≡ durable db)
            × Idle (update_batch B hooks abi model memory recs db).2
      unfolding update_batch
      update_batch_atomic memory [] db free hb = λ _. (refl, free)
      update_batch_atomic memory (m ∷ ms) db free hb = elim (Option-cases (primary_field model)) [
        | inl e ↦ rw (e, with_key) (λ _. (refl, free))
        | inr (pk, e) ↦
            rw (e, with_key)
              (in_transaction_atomic (λ i. update_record B hooks abi model (memory i) pk)
                (λ i m db. update_record-Keeps (memory i) pk m db) (m ∷ ms) db hb)
      ]

      -- Where the driver and the hooks keep to transactions, no transaction is open before, and the begin
      -- succeeds: a batch delete that returns an error leaves the committed data as it was and no transaction
      -- open. The error may be an empty batch, a model without a primary key, or at any of the records an error
      -- or a query that is not allocated.
      pub delete_batch_atomic :
          (memory : ℕ → Option (ℕ → Bool)) (recs : List Memory) (db : Db W)
          → Idle db
          → (B.begin db).0 ≡ ok
          → (delete_batch B hooks abi model memory recs db).0 ≢ ok
          → (durable (delete_batch B hooks abi model memory recs db).2 ≡ durable db)
            × Idle (delete_batch B hooks abi model memory recs db).2
      unfolding delete_batch
      delete_batch_atomic memory [] db free hb = λ _. (refl, free)
      delete_batch_atomic memory (m ∷ ms) db free hb = elim (Option-cases (primary_field model)) [
        | inl e ↦ rw (e, with_key) (λ _. (refl, free))
        | inr (pk, e) ↦
            rw (e, with_key)
              (in_transaction_atomic (λ i. delete_record B hooks abi model (memory i) pk)
                (λ i m db. delete_record-Keeps (memory i) pk m db) (m ∷ ms) db hb)
      ]

    -- Where the driver keeps to transactions, the function stays in the one that it is called in, and none is open
    -- before: a transaction that returns an error leaves the committed data as it was, whichever of the begin, the
    -- function and the commit fails, and no transaction is open behind it, unless it is the commit that failed.
    pub transaction_atomic :
        (fn : Db W → Err × Db W)
        → ((db : Db W) → Keeps db (fn db).1)
        → (db : Db W) → Idle db
        → (transaction B fn db).0 ≢ ok
        → (durable (transaction B fn db).1 ≡ durable db)
          × (Idle (transaction B fn db).1
              ⊎ (((fn (B.begin db).1).0 ≡ ok) × ((B.commit (fn (B.begin db).1).1).0 ≢ ok)))
    unfolding transaction Keeps
    transaction_atomic fn keeps db free = elim (Bool-cases (is_ok (B.begin db).0)) [
      | inr e ↦ rw e (λ he. let (same, idle) = laws.begin_fails db free he in (same, inl idle))
      | inl e ↦
          let (t, d) = laws.begin_opens db (is_ok→ok _ e) in
          let (t', d') = keeps (B.begin db).1 t in
          rw e (elim (Bool-cases (is_ok (fn (B.begin db).1).0)) [
            | inr f ↦
                rw f
                  (λ _. let (same, ended) = laws.rollback_ends _ t' in (same ∙ (d' ∙ d), inl ended))
            | inl f ↦ rw f (λ he. (laws.commit_fails _ t' he ∙ (d' ∙ d), inr (is_ok→ok _ f, he)))
          ])
    ]
