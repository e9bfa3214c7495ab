-- ===== src/Model/Tests.antt =====
-- Models and structs at concrete values.
use corm.Base.{◌≡◌, refl, ◌↔◌, some, ok, ltb→lt}
use corm.Model.{validate_model}
use corm.Model.Validate.{IsWellFormed, validate_model_iff}
use corm.Model.Memory.{get_value, set_value}
use corm.Model.Memory.RoundTrip.{get_value-set_value}
use corm.Samples.{users, age_field, plain_abi, user_memory}

validate_model_iff_example : (validate_model (some users) ≡ ok) ↔ IsWellFormed users
validate_model_iff_example = validate_model_iff users

get_value-set_value_example :
    get_value plain_abi
      (set_value plain_abi
        (user_memory 3)
        age_field
        (get_value plain_abi (user_memory 41) age_field))
      age_field
    ≡ get_value plain_abi (user_memory 41) age_field
get_value-set_value_example =
    get_value-set_value plain_abi (user_memory 41) (user_memory 3) age_field
      (ltb→lt 41 2147483648 refl)
