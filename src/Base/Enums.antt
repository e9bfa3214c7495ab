-- ===== src/Base/Enums.antt =====
-- `corm_err_t` and `corm_backend_type_t`, which every part of the program uses.
use mathlib.Core.Bool.{Bool, true, false}

pub data Err : Type 0 where
  ok err_generic err_nomem err_notfound err_dup err_backend err_type err_null err_bounds
        err_mismatch :
      Err

-- `err == CORM_OK`
abbrev pub is_ok : Err → Bool
is_ok ok = true
is_ok _ = false

pub data BackendType : Type 0 where
  sqlite mysql postgres : BackendType
