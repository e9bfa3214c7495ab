-- ===== src/Value.antt =====
-- `corm_value_t` of include/corm/types.h. Floats stand as their bit patterns, which the library only
-- moves; a string is an optional text (NULL is `none`), a blob its bytes.
use corm.Base.{ℕ, Bool, false, List, Option, some, Text, ℤ, codes}
use corm.Dialect.{FieldType}

-- The member of the union that was written last.
pub data Payload : Type 0 where
  of_int : ℤ → Payload
  of_float : ℕ → Payload
  of_text : Option Text → Payload
  of_blob : Option (List ℕ) → Payload
  of_bool : Bool → Payload

pub record Value : Type 0 where
  pub type : FieldType
  pub is_null : Bool
  pub v : Payload

-- The value that a soft delete writes: `{CORM_STRING, false, "deleted"}`.
abbrev pub deleted_mark : Value
deleted_mark = record {
  type = FieldType.string;
  is_null = false;
  v = of_text (some (codes "deleted"));
}
