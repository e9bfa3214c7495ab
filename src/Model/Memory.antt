-- ===== src/Model/Memory.antt =====
-- `corm_field_get_value` and `corm_field_set_value` of src/model.c: typed reads and writes of a
-- struct. The struct is a store for each C type, indexed by the byte offset: fields do not overlap
-- and are read at the type at which they are written. An embedded string is its text up to the NUL.
pub mod RoundTrip
use corm.Base.{
  ℕ, suc, ◌-◌, ◌+◌, ◌%◌, ◌^◌, ◌≡◌, ◌++◌, drop, Bool, false, List, Option, none, some, ◌==◌, ltb,
  leb, ◌&&◌, if◌then◌else◌, length, take, Text, ℤ, pos, negsuc,
}
use corm.Dialect.{FieldType, int, int64, float, double, string, text, blob, bool}
use corm.Model.{Field}
use corm.Value.{Value, Payload, of_int, of_float, of_text, of_blob, of_bool}

pub record Memory : Type 0 where
  pub ints : ℕ → ℤ
  pub int64s : ℕ → ℤ
  pub floats : ℕ → ℕ
  pub doubles : ℕ → ℕ
  pub chars : ℕ → Text
  pub texts : ℕ → Option Text
  pub bools : ℕ → Bool
  pub blobs : ℕ → List ℕ

-- What the C implementation decides: the conversions between `float` and `double` bit patterns, and
-- what a union member reads. A member reads back what was written to it; another member's bits are
-- not specified.
pub record Abi : Type 0 where
  pub widen : ℕ → ℕ
  pub narrow : ℕ → ℕ
  pub as_int : Payload → ℤ
  pub as_float : Payload → ℕ
  pub as_text : Payload → Option Text
  pub as_blob : Payload → Option (List ℕ)
  pub as_bool : Payload → Bool
  pub narrow-widen : (x : ℕ) → narrow (widen x) ≡ x
  pub as_int-of_int : (z : ℤ) → as_int (of_int z) ≡ z
  pub as_float-of_float : (x : ℕ) → as_float (of_float x) ≡ x
  pub as_text-of_text : (s : Option Text) → as_text (of_text s) ≡ s
  pub as_blob-of_blob : (b : Option (List ℕ)) → as_blob (of_blob b) ≡ b
  pub as_bool-of_bool : (b : Bool) → as_bool (of_bool b) ≡ b

-- `(int)z` of an `int64_t`, in two's complement.
abbrev pub to_int32 : ℤ → ℤ
to_int32 z =
    let w : ℕ = elim z [ pos n ↦ n % 2 ^ 32 | negsuc n ↦ 2 ^ 32 - 1 - n % 2 ^ 32 ] in
    if ltb w (2 ^ 31) then pos w else negsuc (2 ^ 32 - w - 1)

abbrev pub update {ℓ} : {A : Type ℓ} → (ℕ → A) → ℕ → A → ℕ → A
update f i a j = if i == j then a else f j

-- The member that a field of each type is read into.
unfoldable pub read_payload : Abi → Memory → Field → Payload
read_payload abi m f = elim f.type [
  | int ↦ of_int (m.ints f.offset)
  | int64 ↦ of_int (m.int64s f.offset)
  | float ↦ of_float (abi.widen (m.floats f.offset))
  | double ↦ of_float (m.doubles f.offset)
  | string ↦ of_text (some (m.chars f.offset))
  | text ↦ of_text (m.texts f.offset)
  | blob ↦ of_blob (some (take f.size (m.blobs f.offset)))
  | bool ↦ of_bool (m.bools f.offset)
]

unfoldable pub get_value : Abi → Memory → Field → Value
unfolding read_payload
get_value abi m f = record { type = f.type; is_null = false; v = read_payload abi m f }

-- `if (val->v.s && field->size > 0) { strncpy(ptr, val->v.s, size - 1); ptr[size - 1] = 0; }`
abbrev pub set_string : Memory → Field → Option Text → Memory
set_string m f none = m
set_string m f (some s) =
    if ltb 0 f.size then record m { chars = update m.chars f.offset (take (f.size - 1) s) } else m

-- `if (val->v.blob.data && val->v.blob.len <= field->size) memcpy(ptr, data, len);`
abbrev pub set_blob : Memory → Field → Option (List ℕ) → Memory
set_blob m f none = m
set_blob m f (some b) =
    if leb (length b) f.size
    then record m { blobs = update m.blobs f.offset (b ++ drop (length b) (m.blobs f.offset)) }
    else m

-- The switch is on the field's type; the value's own type and `is_null` are not looked at.
unfoldable pub set_value : Abi → Memory → Field → Value → Memory
set_value abi m f val = elim f.type [
  | int ↦ record m { ints = update m.ints f.offset (to_int32 (abi.as_int val.v)) }
  | int64 ↦ record m { int64s = update m.int64s f.offset (abi.as_int val.v) }
  | float ↦ record m { floats = update m.floats f.offset (abi.narrow (abi.as_float val.v)) }
  | double ↦ record m { doubles = update m.doubles f.offset (abi.as_float val.v) }
  | string ↦ set_string m f (abi.as_text val.v)
  | text ↦ record m { texts = update m.texts f.offset (abi.as_text val.v) }
  | blob ↦ set_blob m f (abi.as_blob val.v)
  | bool ↦ record m { bools = update m.bools f.offset (abi.as_bool val.v) }
]
