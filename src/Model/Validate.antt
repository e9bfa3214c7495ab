-- ===== src/Model/Validate.antt =====
-- `corm_validate_model` accepts exactly the well-formed models.
use corm.Base.{
  ◌≡◌, refl, ◌≢◌, ◌↔◌, true, false, List, [], ◌∷◌, Option, none, some, arith, All, Text,
  text_eq_iff, nonempty, ok,
}
use corm.Model.{
  Field, Model, name_of, same_name, has_duplicate, validate_fields, validate_model,
  is_valid_identifier, is_nil, is_null,
}
use corm.Model.Identifier.{nonempty-is_valid_identifier, not-is_valid_identifier-none}

-- Every field has a valid name that no later field shares.
abbrev pub WellNamed : List Field → Type 0
WellNamed [] = Unit {0}
WellNamed (f ∷ fs) =
    (is_valid_identifier f.name ≡ true)
    × (All (λ g. name_of f.name ≢ name_of g.name) fs)
    × WellNamed fs

pub record IsWellFormed (m : Model) : Type 0 where
  pub table : is_valid_identifier m.table_name ≡ true
  pub sized : m.struct_size ≢ 0
  pub some_fields : m.fields ≢ []
  pub named : WellNamed m.fields

differs :
    (s : Text) (o : Option Text) → nonempty s ≡ true → (same_name s o ≡ false) ↔ (s ≢ name_of o)
differs [] o h = cc
differs (c ∷ s) none h = (λ e p. cc, λ e. refl)
differs (c ∷ s) (some t) h = ground (arith, text_eq_iff (c ∷ s) t)

-- The inner loop finds no duplicate exactly when every later name differs.
has_duplicate_iff :
    (s : Text) (fs : List Field)
    → nonempty s ≡ true
    → (has_duplicate s fs ≡ false) ↔ All (λ g. s ≢ name_of g.name) fs
unfolding has_duplicate
has_duplicate_iff s [] h = (λ e. tt, λ a. refl)
has_duplicate_iff s (g ∷ fs) h = ground (arith, differs s g.name h, has_duplicate_iff s fs h)

named_field : (o : Option Text) → is_valid_identifier o ≡ true → nonempty (name_of o) ≡ true
named_field none h = absurd (not-is_valid_identifier-none h)
named_field (some s) h = nonempty-is_valid_identifier s h

-- The two loops accept exactly the well-named field lists.
validate_fields_iff : (fs : List Field) → (validate_fields fs ≡ ok) ↔ WellNamed fs
unfolding validate_fields
validate_fields_iff [] = (λ e. tt, λ w. refl)
validate_fields_iff (f ∷ fs) =
    ground
      (arith, validate_fields_iff fs, named_field f.name, has_duplicate_iff (name_of f.name) fs)

-- A model is accepted exactly when it has a valid table name, a size, fields, and valid field names
-- that are pairwise different.
has_table : (o : Option Text) → is_valid_identifier o ≡ true → is_null o ≡ false
has_table none h = absurd (not-is_valid_identifier-none h)
has_table (some s) h = refl

has_fields : (fs : List Field) → (fs ≢ []) ↔ (is_nil fs ≡ false)
has_fields [] = (λ h. absurd (h refl), λ e. cc)
has_fields (f ∷ fs) = (λ h. refl, λ e p. cc)

-- Validation succeeds exactly on the models whose table and field names are valid identifiers, whose
-- struct has a size, which have a field, and no two of whose fields share a name.
pub validate_model_iff : (m : Model) → (validate_model (some m) ≡ ok) ↔ IsWellFormed m
unfolding validate_model
validate_model_iff m =
    let fields = has_fields m.fields in
    let loops = validate_fields_iff m.fields in
    (
      λ h. record {
        table = ground arith;
        sized = ground arith;
        some_fields = ground (arith, fields);
        named = ground (arith, loops);
      },
      λ w. ground (
        arith,
        has_table m.table_name w.table,
        fields.0 w.some_fields,
        loops.1 w.named,
        w.table,
        w.sized,
      ),
    )
