-- ===== src/Model.antt =====
-- include/corm/model.h and src/model.c: field descriptors, models, their validation, and the typed
-- reads and writes of a struct. `fields` stands for the array and its count; a NULL array is empty.
mod Tests
pub mod Identifier
pub mod Validate
pub mod Memory
pub mod Registry
use Prim.Native.Nat.{bit_and}
use corm.Base.{
  ℕ, zero, suc, Bool, true, false, not, ◌&&◌, ◌||◌, List, [], ◌∷◌, Option, none, some, ◌==◌, ltb,
  leb, if◌then◌else◌, first_that, Text, text_eq, nonempty, Err, ok, err_null, err_type, err_bounds,
  err_dup,
}
use corm.Dialect.{FieldType}

-- A NULL name is `none`.
pub record Field : Type 0 where
  pub name : Option Text
  pub type : FieldType
  pub offset : ℕ
  pub size : ℕ
  pub flags : ℕ
  pub default_value : Option Text
  pub fk_ref : Option Text

abbrev pub flag_primary : ℕ
flag_primary = 1

abbrev pub flag_autoinc : ℕ
flag_autoinc = 2

abbrev pub flag_not_null : ℕ
flag_not_null = 4

abbrev pub flag_unique : ℕ
flag_unique = 8

abbrev pub flag_soft_delete : ℕ
flag_soft_delete = 16

abbrev pub flag_index : ℕ
flag_index = 32

-- `f->flags & flag`
unfoldable pub has_flag : ℕ → Field → Bool
has_flag flag f = not (bit_and f.flags flag == 0)

-- A name that the code reads without a test for NULL: of a validated model it is never NULL.
abbrev pub name_of : Option Text → Text
name_of none = []
name_of (some s) = s

-- The hooks stand beside the session that calls them (Session.antt).
pub record Model : Type 0 where
  pub table_name : Option Text
  pub struct_size : ℕ
  pub fields : List Field
  pub primary_key : Option Field

-- A character of `[a-zA-Z0-9_.*]`.
unfoldable pub is_identifier_char : ℕ → Bool
is_identifier_char c =
    leb b'a' c && leb c b'z'
    || leb b'A' c && leb c b'Z'
    || leb b'0' c && leb c b'9'
    || c == b'_'
    || c == b'.'
    || c == b'*'

unfoldable pub all_identifier_chars : Text → Bool
all_identifier_chars [] = true
all_identifier_chars (c ∷ cs) = is_identifier_char c && all_identifier_chars cs

-- `corm_is_valid_identifier` of corm_internal.h
unfoldable pub is_valid_identifier : Option Text → Bool
is_valid_identifier none = false
is_valid_identifier (some s) = nonempty s && all_identifier_chars s

-- `f2->name && strcmp(f1->name, f2->name) == 0`
abbrev pub same_name : Text → Option Text → Bool
same_name s none = false
same_name s (some t) = text_eq s t

-- The inner loop: whether a later field has the name.
unfoldable pub has_duplicate : Text → List Field → Bool
has_duplicate s [] = false
has_duplicate s (f ∷ fs) = if same_name s f.name then true else has_duplicate s fs

-- The outer loop.
unfoldable pub validate_fields : List Field → Err
validate_fields [] = ok
validate_fields (f ∷ fs) =
    let rest = validate_fields fs in
    if not (is_valid_identifier f.name)
    then err_type
    else if has_duplicate (name_of f.name) fs
    then err_dup
    else rest

abbrev pub is_null {ℓ} : {A : Type ℓ} → Option A → Bool
is_null none = true
is_null (some _) = false

abbrev pub is_nil {ℓ} : {A : Type ℓ} → List A → Bool
is_nil [] = true
is_nil (_ ∷ _) = false

-- A NULL model is `none`.
unfoldable pub validate_model : Option Model → Err
validate_model none = err_null
validate_model (some m) =
    if is_null m.table_name || is_nil m.fields
    then err_null
    else if not (is_valid_identifier m.table_name)
    then err_type
    else if m.struct_size == 0
    then err_bounds
    else validate_fields m.fields

-- `corm_find_field`
unfoldable pub find_field : Model → Text → Option Field
find_field m name = first_that (λ f. text_eq (name_of f.name) name) m.fields
