-- ===== src/Sqlite/Cached.antt =====
-- The statements that the driver for SQLite keeps.
use corm.Base.{
  ℕ, ◌≡◌, refl, ap, inl, inr, true, false, not, List, [], ◌∷◌, Option, none, some, arith,
  Bool-cases, Option-cases, leb, length, Text, text_eq, text_eq_refl, text_eq_iff, Err, ok,
  err_backend, is_ok, subst,
}
use corm.Value.{Value}
use corm.Model.{is_null}
use corm.Session.{Db, set_err_msg}
use corm.StmtCache.Lru.{lookup, without, used, all_but_last, stored}
use corm.Sqlite.{
  Stmt, step_row, step_done, step_error, Library, Conn, bind_params, cache_put, get_stmt,
  cleanup_stmt, exec, with_handle,
}
use corm.Sqlite.Rows.{Step-cases}

-- No text is kept twice.
abbrev pub KeysDistinct : List (Text × Stmt) → Type 0
KeysDistinct [] = Unit
KeysDistinct ((k, v) ∷ xs) = (lookup k xs ≡ none) × KeysDistinct xs

lookup_other :
    (key k : Text) (v : Stmt) (xs : List (Text × Stmt))
    → lookup key ((k, v) ∷ xs) ≡ none
    → (text_eq k key ≡ false) × (lookup key xs ≡ none)
lookup_other key k v xs e = elim (Bool-cases (text_eq k key)) [
  | inl h ↦ absurd (ground (arith, e, h))
  | inr h ↦ (h, ground (arith, e, h))
]

none-without :
    (k key : Text) (xs : List (Text × Stmt)) → lookup k xs ≡ none → lookup k (without key xs) ≡ none
none-without k key [] e = refl
none-without k key ((t, v) ∷ xs) e =
    let (other, rest) = lookup_other k t v xs e in
    elim (Bool-cases (text_eq t key)) [
      | inl h ↦ rw h rest
      | inr h ↦ rw (h, other) (none-without k key xs rest)
    ]

without-KeysDistinct :
    (key : Text) (xs : List (Text × Stmt)) → KeysDistinct xs → KeysDistinct (without key xs)
without-KeysDistinct key [] d = tt
without-KeysDistinct key ((k, v) ∷ xs) d = elim (Bool-cases (text_eq k key)) [
  | inl h ↦ rw h d.1
  | inr h ↦ rw h (none-without k key xs d.0, without-KeysDistinct key xs d.1)
]

lookup-without :
    (key : Text) (xs : List (Text × Stmt)) → KeysDistinct xs → lookup key (without key xs) ≡ none
lookup-without key [] d = refl
lookup-without key ((k, v) ∷ xs) d = elim (Bool-cases (text_eq k key)) [
  | inl h ↦
      let same = (text_eq_iff k key).0 h in rw h (subst (λ (t : Text). lookup t xs ≡ none) same d.0)
  | inr h ↦ rw (h, h) (lookup-without key xs d.1)
]

none-all_but_last :
    (k : Text) (xs : List (Text × Stmt)) → lookup k xs ≡ none → lookup k (all_but_last xs) ≡ none
none-all_but_last k [] e = refl
none-all_but_last k (x ∷ []) e = refl
none-all_but_last k ((t, v) ∷ y ∷ xs) e =
    let (other, rest) = lookup_other k t v (y ∷ xs) e in
    rw other (none-all_but_last k (y ∷ xs) rest)

all_but_last-KeysDistinct :
    (xs : List (Text × Stmt)) → KeysDistinct xs → KeysDistinct (all_but_last xs)
all_but_last-KeysDistinct [] d = tt
all_but_last-KeysDistinct (x ∷ []) d = tt
all_but_last-KeysDistinct ((t, v) ∷ y ∷ xs) d =
    (none-all_but_last t (y ∷ xs) d.0, all_but_last-KeysDistinct (y ∷ xs) d.1)

-- A text looked up and found, in a list without repetition.
abbrev Found : Text → Stmt → List (Text × Stmt) → Type 0
Found key v xs = KeysDistinct xs × (lookup key xs ≡ some v)

used-Found :
    (key : Text) (v : Stmt) (xs : List (Text × Stmt)) → Found key v xs → Found key v (used key xs)
used-Found key v xs (d, e) =
    rw (e, used)
      ((lookup-without key xs d, without-KeysDistinct key xs d), rw (text_eq_refl key) refl)

stored-Found :
    (capacity : ℕ) (key : Text) (v : Stmt) (xs : List (Text × Stmt))
    → KeysDistinct xs
    → lookup key xs ≡ none
    → Found key v (stored capacity key v xs)
stored-Found capacity key v xs d e = elim (Bool-cases (leb capacity (length xs))) [
  | inl f ↦
      rw (e, f, stored)
        ((none-all_but_last key xs e, all_but_last-KeysDistinct xs d), rw (text_eq_refl key) refl)
  | inr f ↦ rw (e, f, stored) ((e, d), rw (text_eq_refl key) refl)
]

module _ {H : Type 0} (L : Library H) where
  -- What a request for a statement leaves in the cache.
  data GetOutcome (sql : Text) : Option Stmt × Db (Conn H) → Type 0 where
    refused :
        (db : Db (Conn H))
        → KeysDistinct db.world.cache
        → lookup sql db.world.cache ≡ none
        → GetOutcome sql (none, db)
    given :
        (stmt : Stmt) (db : Db (Conn H))
        → Found sql stmt db.world.cache
        → GetOutcome sql (some stmt, db)

  get_stmt-GetOutcome :
      (db : Db (Conn H)) (sql : Text)
      → KeysDistinct db.world.cache
      → GetOutcome sql (get_stmt L true db sql)
  unfolding get_stmt cache_put set_err_msg
  get_stmt-GetOutcome db sql d = elim (Option-cases (lookup sql db.world.cache)) [
    | inr (stmt, e) ↦ rw (e, get_stmt) (given stmt _ (used-Found sql stmt db.world.cache (d, e)))
    | inl e ↦ elim (Option-cases (L.prepare sql db.world.handle).0) [
      | inl p ↦ rw (e, p, get_stmt) (refused _ d e)
      | inr (stmt, p) ↦
          rw (e, p, get_stmt)
            (given stmt _ (stored-Found db.world.capacity sql stmt db.world.cache d e))
    ]
  ]

  -- No text is kept twice, and this one is kept if and only if the call succeeded.
  abbrev pub KeptIfOk : Text → Err × Db (Conn H) → Type 0
  KeptIfOk sql r =
      KeysDistinct r.1.world.cache × (is_null (lookup sql r.1.world.cache) ≡ not (is_ok r.0))

  cleanup_stmt-KeptIfOk :
      (sql : Text) (stmt : Stmt) (db : Db (Conn H))
      → Found sql stmt db.world.cache
      → KeptIfOk sql (err_backend, cleanup_stmt L db sql)
  unfolding cleanup_stmt
  cleanup_stmt-KeptIfOk sql stmt db (d, e) =
      rw (e, cleanup_stmt)
        (
          without-KeysDistinct sql db.world.cache d,
          ap (λ (o : Option Stmt). is_null o) (lookup-without sql db.world.cache d),
        )

  -- The part of the call behind the statement.
  abbrev run_stmt : Text → List Value → Stmt → Db (Conn H) → Err × Db (Conn H)
  run_stmt sql params stmt db₁ =
      let (rc, h) = L.step stmt (bind_params L stmt 0 params db₁.world.handle) in
      elim rc [
        | step_error ↦
            (err_backend, cleanup_stmt L (set_err_msg (with_handle L db₁ h) (L.errmsg h)) sql)
        | step_done ↦ (ok, with_handle L db₁ h)
        | step_row ↦ (ok, with_handle L db₁ h)
      ]

  run_stmt-KeptIfOk :
      (sql : Text) (params : List Value) (stmt : Stmt) (db₁ : Db (Conn H))
      → Found sql stmt db₁.world.cache
      → KeptIfOk sql (run_stmt sql params stmt db₁)
  unfolding set_err_msg
  run_stmt-KeptIfOk sql params stmt db₁ (d, e) =
      let (rc, h) = L.step stmt (bind_params L stmt 0 params db₁.world.handle) in
      let kept : is_null (lookup sql db₁.world.cache) ≡ false =
        ap (λ (o : Option Stmt). is_null o) e in
      elim (Step-cases rc) [
        | inl r ↦ rw (r, run_stmt) (d, kept)
        | inr (inl r) ↦ rw (r, run_stmt) (d, kept)
        | inr (inr r) ↦
            rw (r, run_stmt)
              (cleanup_stmt-KeptIfOk sql stmt (set_err_msg (with_handle L db₁ h) (L.errmsg h))
                (d, e))
      ]

  exec_by :
      (sql : Text) (params : List Value) (p : Option Stmt × Db (Conn H))
      → GetOutcome sql p
      → KeptIfOk sql
          (elim p.0 [ none ↦ (err_backend, p.1) | some stmt ↦ run_stmt sql params stmt p.1 ])
  exec_by sql params _ (refused db d e) = (d, ap (λ (o : Option Stmt). is_null o) e)
  exec_by sql params _ (given stmt db found) = run_stmt-KeptIfOk sql params stmt db found

  -- Where no text is kept twice and the cache's node is allocated: after an exec no text is kept twice, and
  -- the statement of this text is kept if and only if the exec returned CORM_OK.
  pub exec-KeptIfOk :
      (sql : Text) (params : List Value) (db : Db (Conn H))
      → KeysDistinct db.world.cache
      → KeysDistinct (exec L true sql params db).1.world.cache
        × (is_null (lookup sql (exec L true sql params db).1.world.cache)
            ≡ not (is_ok (exec L true sql params db).0))
  unfolding exec
  exec-KeptIfOk sql params db d =
      exec_by sql params (get_stmt L true db sql) (get_stmt-GetOutcome db sql d)
