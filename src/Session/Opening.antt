-- ===== src/Session/Opening.antt =====
-- `corm_open_with_config` and `corm_close` of src/corm.c: what is allocated for a session. A driver's `open` is
-- a parameter; the logger, the clock and the values of the configuration are left out.
use corm.Base.{
  ℕ, ◌≡◌, refl, sym, subst, ◌==◌, arith, inl, inr, Bool, true, false, List, Option, none, some,
  if◌then◌else◌, Bool-cases, Option-cases, Text, ℤ, pos, negsuc, ltb, Err, ok, err_null, err_nomem,
  err_notfound, err_backend, is_ok, BackendType,
}
use corm.Session.Dsn.{dsn_parse}
use corm.Session.Backends.{get_backend}
use corm.StmtCache.{Cache, create}

-- What is allocated and not yet freed.
pub record Held : Type 0 where
  pub session : Bool
  pub registry : Bool
  pub cache : Bool
  pub connection : Bool

abbrev pub nothing : Held
nothing = record { session = false; registry = false; cache = false; connection = false }

-- `open` of a driver, which may be NULL.
abbrev pub Driver : Type 0
Driver = Option (Text → Err)

-- `stmt_cache_size > 0 ? stmt_cache_size : 64`
unfoldable pub cache_size : ℤ → ℕ
cache_size (pos n) = if ltb 0 n then n else 64
cache_size (negsuc n) = 64

-- Whether `corm_stmt_cache_create` gives a cache.
unfoldable pub cache_made : Bool → ℤ → Cache ℕ → Bool
cache_made calloc size memory = elim (create calloc (cache_size size) memory).1 [
  | none ↦ false
  | some _ ↦ true
]

-- The steps from the parsing of the name on, with what is held until then.
unfoldable pub connect : List (BackendType × Driver) → Held → Text → Err × Held
connect entries held dsn =
    let (type, body) = dsn_parse dsn in
    let freed = record held { registry = false; session = false } in
    elim (get_backend type entries) [
      | none ↦ (err_notfound, freed)
      | some driver ↦ elim driver [
        | none ↦ (err_backend, freed)
        | some open_connection ↦
            let err = open_connection body in
            if is_ok err then (ok, record held { connection = true }) else (err, freed)
      ]
    ]

-- `calloc` and `registry_err` say how the session and its registry are allocated, `cache_calloc` the cache.
unfoldable pub open_with_config :
    (calloc : Bool) (registry_err : Err) (cache_calloc : Bool) (size : ℤ)
    → Cache ℕ
    → List (BackendType × Driver)
    → Option Text
    → Err × Held
open_with_config calloc registry_err cache_calloc size memory entries none = (err_null, nothing)
open_with_config calloc registry_err cache_calloc size memory entries (some dsn) =
    if calloc
    then (if is_ok registry_err
        then connect entries
            (record nothing {
              session = true;
              registry = true;
              cache = cache_made cache_calloc size memory;
            })
            dsn
        else (registry_err, nothing))
    else (err_nomem, nothing)

-- `corm_close`
unfoldable pub close : Option Held → Err × Option Held
close none = (err_null, none)
close (some held) = (
  ok,
  some (record held { cache = false; connection = false; registry = false; session = false }),
)

cache_size_pos : (size : ℤ) → (cache_size size == 0) ≡ false
unfolding cache_size
cache_size_pos (negsuc n) = refl
cache_size_pos (pos n) = ground arith

cache_made_lem : (size : ℤ) (memory : Cache ℕ) → cache_made true size memory ≡ true
unfolding cache_made create
cache_made_lem size memory = rw (cache_size_pos size, cache_made) refl

-- The session, its registry and a connection are held if and only if the call succeeded, and the cache as
-- told.
abbrev pub Agrees : Bool → Err × Held → Type 0
Agrees cached r =
    (r.1.session ≡ is_ok r.0)
    × (r.1.registry ≡ is_ok r.0)
    × (r.1.connection ≡ is_ok r.0)
    × (r.1.cache ≡ cached)

abbrev started : Bool → Held
started cached = record nothing { session = true; registry = true; cache = cached }

attempt-Agrees :
    (cached : Bool) (err : Err)
    → Agrees cached (
        if is_ok err
        then (ok, record (started cached) { connection = true })
        else (err, record (started cached) { registry = false; session = false }))
attempt-Agrees cached err = elim (Bool-cases (is_ok err)) [
  | inl e ↦ rw e (refl, refl, refl, refl)
  | inr e ↦ rw e (sym e, sym e, sym e, refl)
]

connect-Agrees :
    (entries : List (BackendType × Driver)) (cached : Bool) (dsn : Text)
    → Agrees cached (connect entries (started cached) dsn)
unfolding connect
connect-Agrees entries cached dsn = elim (Option-cases (get_backend (dsn_parse dsn).0 entries)) [
  | inl e ↦ rw (e, connect) (refl, refl, refl, refl)
  | inr (none, e) ↦ rw (e, connect) (refl, refl, refl, refl)
  | inr (some open_connection, e) ↦
      rw (e, connect) (attempt-Agrees cached (open_connection (dsn_parse dsn).1))
]

-- When the session, its registry and its statement cache can be allocated, for every name, cache size and
-- drivers: the session, the registry and a connection are held behind the call if and only if it returns
-- CORM_OK; the statement cache is held in either case, so that each failed call leaks it.
pub open_with_config-held :
    (size : ℤ) (memory : Cache ℕ) (entries : List (BackendType × Driver)) (dsn : Text)
    → Agrees true (open_with_config true ok true size memory entries (some dsn))
unfolding open_with_config
open_with_config-held size memory entries dsn =
    subst
      (λ (b : Bool).
        Agrees b (connect entries (started b) dsn) → Agrees true (connect entries (started b) dsn))
      (sym (cache_made_lem size memory)) (λ a. a)
      (connect-Agrees entries (cache_made true size memory) dsn)
