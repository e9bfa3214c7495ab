-- ===== src/Samples.antt =====
-- A model, records, queries and sessions that the tests of the components run on.
use corm.Base.{Bool, ℕ, ◌≡◌, refl, true, false, [], ◌∷◌, none, some, Text, codes, pos, ok, postgres}
use corm.Dialect.{int, string}
use corm.Model.{Field, Model, is_valid_identifier, all_identifier_chars, is_identifier_char}
use corm.Model.Memory.{Memory, Abi}
use corm.Value.{Value, of_int, of_float, of_text, of_blob, of_bool}
use corm.Query.{Query, new}
use corm.Result.{Result}
use corm.Session.{Db, Hooks}

abbrev pub age : Text
age = codes "age"

pub age_valid : is_valid_identifier (some age) ≡ true
unfolding is_valid_identifier all_identifier_chars is_identifier_char
age_valid = refl

abbrev pub id_field : Field
id_field = record {
  name = some (codes "id");
  type = int;
  offset = 0;
  size = 4;
  flags = 3;
  default_value = none;
  fk_ref = none;
}

abbrev pub age_field : Field
age_field = record {
  name = some age;
  type = int;
  offset = 4;
  size = 4;
  flags = 0;
  default_value = none;
  fk_ref = none;
}

-- Its flag is `CORM_FLAG_SOFT_DELETE`.
abbrev pub gone_field : Field
gone_field = record {
  name = some age;
  type = string;
  offset = 8;
  size = 20;
  flags = 16;
  default_value = none;
  fk_ref = none;
}

abbrev pub users : Model
users = record {
  table_name = some (codes "users");
  struct_size = 8;
  fields = id_field ∷ age_field ∷ [];
  primary_key = some id_field;
}

abbrev pub soft_users : Model
soft_users = record users { fields = id_field ∷ gone_field ∷ [] }

abbrev pub number : ℕ → Value
number n = record { type = int; is_null = false; v = of_int (pos n) }

-- All memory is served.
abbrev pub always : ℕ → Bool
always _ = true

abbrev pub user_query : Query
user_query = new always (some postgres) users

-- Each member of the union reads itself and 0 for any other.
abbrev pub plain_abi : Abi
plain_abi = record {
  widen = λ x. x;
  narrow = λ x. x;
  as_int = λ p. elim p [ of_int z ↦ z | _ ↦ pos 0 ];
  as_float = λ p. elim p [ of_float x ↦ x | _ ↦ 0 ];
  as_text = λ p. elim p [ of_text s ↦ s | _ ↦ none ];
  as_blob = λ p. elim p [ of_blob b ↦ b | _ ↦ none ];
  as_bool = λ p. elim p [ of_bool b ↦ b | _ ↦ false ];
  narrow-widen = λ x. refl;
  as_int-of_int = λ z. refl;
  as_float-of_float = λ x. refl;
  as_text-of_text = λ s. refl;
  as_blob-of_blob = λ b. refl;
  as_bool-of_bool = λ b. refl;
}

abbrev pub user_memory : ℕ → Memory
user_memory n = record {
  ints = λ _. pos n;
  int64s = λ _. pos n;
  floats = λ _. 0;
  doubles = λ _. 0;
  chars = λ _. codes "ann";
  texts = λ _. none;
  bools = λ _. true;
  blobs = λ _. [];
}

-- Two rows of one column.
abbrev pub two_rows : Result
two_rows = record {
  column_names = some age ∷ [];
  column_types = int ∷ [];
  rows = (number 30 ∷ []) ∷ (number 40 ∷ []) ∷ [];
  current_row = pos 1;
  refcount = 1;
}

module _ {W : Type 0} where
  abbrev pub session : W → Db W
  session w = record {
    world = w;
    last_err = ok;
    err_msg = [];
    err_sql = [];
    has_logger = false;
    logged = [];
  }

  abbrev pub no_hooks : Hooks W
  no_hooks = record {
    before_create = none;
    after_create = none;
    before_update = none;
    after_update = none;
    before_delete = none;
    after_delete = none;
    after_find = none;
  }
