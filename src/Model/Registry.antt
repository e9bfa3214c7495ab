-- ===== src/Model/Registry.antt =====
-- The registry of models of src/model.c: two hash tables, of which only the one by table is used.
use corm.Base.{
  ℕ, ◌≡◌, refl, sym, ap, ◌∙◌, Bool, true, ◌∷◌, Option, none, some, if◌then◌else◌, inl, inr,
  Bool-cases, Text, text_eq, Err, ok, err_null, is_ok,
}
use corm.Hash.{Hash, init, insert, find, free}
use corm.Hash.Invariant.{IsValid}
use corm.Hash.Lookup.{stack, top, find-stack, stack-insert}
use corm.Model.{Model, name_of, validate_model}

-- `corm_registry_t`
pub record Registry : Type 0 where
  pub models_by_table : Hash Model
  pub models_by_name : Hash Model

-- `calloc 0` and `calloc 1` say whether the two tables can be had.
unfoldable pub registry_init : (ℕ → Bool) → Registry → Err × Registry
unfolding init free
registry_init calloc reg =
    let (err, by_table) = init (calloc 0) 32 in
    let (err', by_name) = init (calloc 1) 32 in
    if is_ok err
    then (if is_ok err'
        then (ok, record { models_by_table = by_table; models_by_name = by_name })
        else (err', record { models_by_table = free by_table; models_by_name = by_name }))
    else (err, record reg { models_by_table = by_table })

unfoldable pub registry_free : Registry → Registry
unfolding free
registry_free reg = record {
  models_by_table = free reg.models_by_table;
  models_by_name = free reg.models_by_name;
}

-- A NULL model is `none`.
unfoldable pub register_model : Bool → Registry → Option Model → Err × Registry
register_model malloc reg none = (err_null, reg)
register_model malloc reg (some m) =
    let err = validate_model (some m) in
    let (err', table) = insert malloc reg.models_by_table (name_of m.table_name) m in
    if is_ok err then (err', record reg { models_by_table = table }) else (err, reg)

unfoldable pub find_model : Registry → Text → Option Model
find_model reg table_name = find reg.models_by_table table_name

top-if :
    (b : Bool) (m : Model) (o : Option Model) (ht : Hash Model) (key : Text)
    → o ≡ top (stack ht key)
    → top (if b then m ∷ stack ht key else stack ht key) ≡ (if b then some m else o)
top-if b m o ht key e = elim (Bool-cases b) [ inl h ↦ rw h refl | inr h ↦ rw h (sym e) ]

inserted :
    (reg : Registry) (m : Model) → (insert true reg.models_by_table (name_of m.table_name) m).0 ≡ ok
unfolding insert
inserted reg m = refl

-- With a valid table and memory at hand, a model that passes validation is registered: its table's name
-- finds it from then on, whether or not the name was taken, and every other name finds what it found.
pub find_model-register_model :
    (reg : Registry) (m : Model) (other : Text)
    → IsValid reg.models_by_table
    → validate_model (some m) ≡ ok
    → ((register_model true reg (some m)).0 ≡ ok)
      × (find_model (register_model true reg (some m)).1 other
          ≡ (if text_eq (name_of m.table_name) other then some m else find_model reg other))
unfolding register_model find_model
find_model-register_model reg m other valid hv = (
  rw hv (inserted reg m),
  rw hv (
      find-stack (insert true reg.models_by_table (name_of m.table_name) m).1 other
      ∙ (ap top (stack-insert reg.models_by_table (name_of m.table_name) other m valid)
          ∙ top-if _ m _ reg.models_by_table other (find-stack reg.models_by_table other))),
)
