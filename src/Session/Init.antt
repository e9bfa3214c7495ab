-- ===== src/Session/Init.antt =====
-- `corm_init` of src/corm.c: the three drivers are registered in the registry of src/backend/backend.c.
use corm.Base.{List, Err, ok, is_ok, if◌then◌else◌, BackendType, sqlite, mysql, postgres}
use corm.Session.Backends.{register_backend}

module _ {ℓ} {V : Type ℓ} where
  -- `corm_init`: the first registration that fails ends it.
  unfoldable pub init :
      (sqlite3_backend mysql_backend postgres_backend : V)
      → List (BackendType × V)
      → Err × List (BackendType × V)
  init sqlite3_backend mysql_backend postgres_backend entries =
      let (err₁, entries₁) = register_backend sqlite sqlite3_backend entries in
      let (err₂, entries₂) = register_backend mysql mysql_backend entries₁ in
      let (err₃, entries₃) = register_backend postgres postgres_backend entries₂ in
      if is_ok err₁
      then (if is_ok err₂
          then (if is_ok err₃ then (ok, entries₃) else (err₃, entries₃))
          else (err₂, entries₂))
      else (err₁, entries₁)
