-- ===== src/Session/ColumnInfo.antt =====
-- `corm_column_info_t` of include/corm/backend.h: what `describe_table` of a driver tells of a column.
use corm.Base.{Bool, Option, Text}

-- A NULL text is `none`.
pub record ColumnInfo : Type 0 where
  pub name : Option Text
  pub type_name : Option Text
  pub not_null : Bool
  pub is_pk : Bool
  pub default_value : Option Text
