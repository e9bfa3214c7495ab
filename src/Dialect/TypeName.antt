-- ===== src/Dialect/TypeName.antt =====
-- Column types: none is cut by the 64-byte buffers of the migration.
use corm.Base.{
  ℕ, ◌≤◌, ◌<◌, ◌≡◌, arith, take_all, length, length-append, codes, show, length-show, BackendType,
  sqlite, mysql, postgres,
}
use corm.Dialect.{FieldType, string, varchar_size, varchar, full_type_name, type_name_str}

varchar_size_bounds : (size : ℕ) → (0 < varchar_size size) × (varchar_size size < 65535)
unfolding varchar_size
varchar_size_bounds size = ground arith

length-varchar : (size : ℕ) → length (varchar size) ≤ 16
unfolding varchar
length-varchar size = omega (
  arith,
  length-append (show (varchar_size size)) (codes ")"),
  length-show (varchar_size size) 4 (omega (arith, (varchar_size_bounds size).1)),
)

length-full_type_name :
    (bt : BackendType) (t : FieldType) (size : ℕ) → length (full_type_name bt t size) ≤ 16
unfolding full_type_name
length-full_type_name sqlite string size = omega arith
length-full_type_name mysql string size = length-varchar size
length-full_type_name postgres string size = length-varchar size
length-full_type_name _ _ size = omega arith

-- Every column type fits the buffer, whatever the size of the field.
pub type_name_whole :
    (bt : BackendType) (t : FieldType) (size : ℕ)
    → type_name_str bt t size 64 ≡ full_type_name bt t size
unfolding type_name_str
type_name_whole bt t size = take_all 63 _ (omega (arith, length-full_type_name bt t size))
