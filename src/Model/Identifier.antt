-- ===== src/Model/Identifier.antt =====
-- A valid identifier holds no character by which SQL quotes, binds or separates.
use corm.Base.{
  ℕ, ◌≡◌, ◌≢◌, true, false, [], ◌∷◌, none, some, arith, Text, count_char, nonempty, &&_iff,
}
use corm.Model.{is_identifier_char, all_identifier_chars, is_valid_identifier}

count-all_identifier_chars :
    (c : ℕ) (s : Text)
    → is_identifier_char c ≡ false
    → all_identifier_chars s ≡ true
    → count_char c s ≡ 0
unfolding all_identifier_chars
count-all_identifier_chars c [] out h = omega arith
count-all_identifier_chars c (x ∷ s) out h = ground (arith, count-all_identifier_chars c s)

-- A character outside `[a-zA-Z0-9_.*]` does not occur in a valid identifier.
pub count-is_valid_identifier :
    (c : ℕ) (s : Text)
    → is_identifier_char c ≡ false
    → is_valid_identifier (some s) ≡ true
    → count_char c s ≡ 0
unfolding is_valid_identifier
count-is_valid_identifier c s out h = count-all_identifier_chars c s out ((&&_iff _ _).0 h).1

pub nonempty-is_valid_identifier :
    (s : Text) → is_valid_identifier (some s) ≡ true → nonempty s ≡ true
unfolding is_valid_identifier
nonempty-is_valid_identifier s h = ground arith

pub not-is_valid_identifier-none : is_valid_identifier none ≢ true
unfolding is_valid_identifier
not-is_valid_identifier-none e = cc
