-- ===== src/Dialect/Tests.antt =====
-- The dialects at concrete arguments.
use corm.Base.{◌≡◌, ◌∷◌, postgres, show, ltb→lt, refl}
use corm.Dialect.Placeholder.{placeholder, placeholder-postgres}

placeholder-postgres_example : placeholder postgres 11 ≡ b'$' ∷ show 12
placeholder-postgres_example = placeholder-postgres 11 (ltb→lt 11 2147483648 refl)
