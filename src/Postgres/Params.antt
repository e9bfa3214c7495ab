-- ===== src/Postgres/Params.antt =====
-- What the server reads of an integer parameter: `pg_exec` and `pg_query` send it differently.
use corm.Base.{
  ℕ, zero, suc, ◌+◌, ◌-◌, ◌*◌, ◌/◌, ◌%◌, ◌^◌, ◌<◌, ◌≤◌, ◌≡◌, ◌⊎◌, inl, inr, refl, ap, ◌∙◌, false,
  [], ◌∷◌, some, ◌==◌, if◌then◌else◌, arith, Text, ℤ, pos, negsuc, show, show_int, read, read-show,
  IsDigits, show-IsDigits,
}
use corm.Dialect.{int, int64}
use corm.Value.{Value, of_int}
use corm.Model.Memory.{Abi}
use corm.Postgres.{Library, text_param, exec_param, query_param}

-- A parameter in text format: PostgreSQL reads an integer in decimal notation.
abbrev pub read_decimal : Text → ℤ
read_decimal [] = pos (read 0 [])
read_decimal (c ∷ cs) = if c == b'-' then negsuc (read 0 cs - 1) else pos (read 0 (c ∷ cs))

-- In binary format: it reads the bytes in network order, the most significant first.
abbrev pub read_network : ℕ → Text → ℕ
read_network acc [] = acc
read_network acc (b ∷ bs) = read_network (acc * 256 + b) bs

-- The bytes of a number in memory where the least significant stands first.
abbrev pub little : ℕ → ℕ → Text
little zero n = []
little (suc k) n = (n % 256) ∷ little k (n / 256)

plain_digits : (t : Text) → IsDigits t → read_decimal t ≡ pos (read 0 t)
plain_digits [] d = refl
plain_digits (c ∷ cs) d = rw (minus c d.0) refl
  where
    minus : (c : ℕ) → 48 ≤ c → (c == b'-') ≡ false
    minus c h = ground arith

read_decimal-show_int : (z : ℤ) → read_decimal (show_int z) ≡ z
unfolding show_int
read_decimal-show_int (pos n) = plain_digits (show n) (show-IsDigits n) ∙ ap pos (read-show n)
read_decimal-show_int (negsuc n) =
    ap (λ (m : ℕ). negsuc (m - 1)) (read-show (n + 1)) ∙ ap negsuc (omega arith)

swapped : (n : ℕ) → n < 256 → read_network 0 (little 8 n) ≡ n * 2 ^ 56
swapped n h =
    let high : n / 256 ≡ 0 = omega (arith, h) in
    let low : n % 256 ≡ n = omega (arith, h) in rw (high, low) (omega arith)

abbrev pub number : ℤ → Value
number z = record { type = int; is_null = false; v = of_int z }

module _ {H : Type 0} (L : Library H) (abi : Abi) where
  -- `pg_exec` sends a value that is not NULL and is tagged CORM_INT or CORM_INT64, whatever its union holds,
  -- as a text that PostgreSQL reads back as the integer that the union holds.
  pub exec_param-number :
      (val : Value)
      → val.is_null ≡ false
      → (val.type ≡ int) ⊎ (val.type ≡ int64)
      → (t : Text) × (exec_param L abi val ≡ some (text_param t))
        × (read_decimal t ≡ abi.as_int val.v)
  unfolding exec_param
  exec_param-number val present (inl e) =
      (show_int (abi.as_int val.v), rw (present, e) refl, read_decimal-show_int (abi.as_int val.v))
  exec_param-number val present (inr e) =
      (show_int (abi.as_int val.v), rw (present, e) refl, read_decimal-show_int (abi.as_int val.v))

  -- Where the least significant byte of an integer stands first in memory, `pg_query` sends a number below 256
  -- as eight bytes that PostgreSQL reads as 2 ^ 56 times that number.
  pub query_param-number :
      (n : ℕ)
      → n < 256
      → L.int_bytes (pos n) ≡ little 8 n
      → (t : Text) × (query_param L abi (number (pos n))
          ≡ some (record { value = some t; len = 8; format = 1 }))
        × (read_network 0 t ≡ n * 2 ^ 56)
  unfolding query_param
  query_param-number n h host = (
    L.int_bytes (pos n),
    ap (λ (k : ℤ). some (record { value = some (L.int_bytes k); len = 8; format = 1 }))
        (abi.as_int-of_int (pos n)),
    ap (λ (t : Text). read_network 0 t) host ∙ swapped n h,
  )
