-- ===== src/Session/Crud/Create.antt =====
-- What an INSERT sends to the driver.
use corm.Base.{
  ◌≡◌, sym, ap, ◌∙◌, not, List, [], ◌∷◌, ◌++◌, inl, inr, Bool-cases, append_assoc, append-nil, map,
  length, length-map, select,
}
use corm.Model.{Field, name_of, has_flag, flag_autoinc}
use corm.Model.Memory.{Memory, Abi, get_value}
use corm.Query.{Query}
use corm.Query.Memory.{Served, bound, bind-bound}
use corm.Value.{Value}
use corm.Builder.Insert.{insert_names}
use corm.Session.Crud.{bind_record}

-- The values of the fields that an INSERT gives.
abbrev pub insert_values : Abi → Memory → List Field → List Value
insert_values abi m fs = map (get_value abi m) (select (λ f. not (has_flag flag_autoinc f)) fs)

pub bind_record-params :
    (abi : Abi) (q : Query) (m : Memory) (fs : List Field)
    → Served q
    → ((bind_record abi q m fs).params ≡ q.params ++ insert_values abi m fs)
      × Served (bind_record abi q m fs)
unfolding bind_record
bind_record-params abi q m [] h = (sym (append-nil q.params), h)
bind_record-params abi q m (f ∷ fs) h = elim (Bool-cases (has_flag flag_autoinc f)) [
  | inl skip ↦ rw (skip, bind_record) (bind_record-params abi q m fs h)
  | inr kept ↦
      let v = get_value abi m f in
      let rest = bind_record-params abi (bound q v) m fs h in
      rw (kept, bind_record, bind-bound q v h) (rest.0 ∙ append_assoc q.params (v ∷ []) _, rest.1)
]

length-insert_values :
    (abi : Abi) (m : Memory) (fs : List Field)
    → length (insert_values abi m fs) ≡ length (insert_names fs)
length-insert_values abi m fs =
    length-map (get_value abi m) (select (λ f. not (has_flag flag_autoinc f)) fs)
    ∙ sym (
        length-map (λ (f : Field). name_of f.name) (select (λ f. not (has_flag flag_autoinc f)) fs))

-- On a query with nothing bound, whose array of parameters can grow to any capacity, `corm_create` binds one
-- value for each placeholder of its statement: the values of the columns that it lists, in the order of the
-- columns.
pub bind_record_aligned :
    (abi : Abi) (q : Query) (m : Memory)
    → Served q
    → q.params ≡ []
    → ((bind_record abi q m q.model.fields).params ≡ insert_values abi m q.model.fields)
      × (length (bind_record abi q m q.model.fields).params ≡ length (insert_names q.model.fields))
bind_record_aligned abi q m h e =
    let values : (bind_record abi q m q.model.fields).params ≡ insert_values abi m q.model.fields =
      (bind_record-params abi q m q.model.fields h).0
      ∙ ap (λ ps. ps ++ insert_values abi m q.model.fields) e in
    (values, ap length values ∙ length-insert_values abi m q.model.fields)
