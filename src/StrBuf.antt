-- ===== src/StrBuf.antt =====
-- src/internal/strbuf.h: the growable string buffer. The block behind `buf` is a list of `cap`
-- bytes; `size_t` sums and products wrap at 2 ^ 64. `realloc` is an argument: whether it can give
-- a block of that many bytes. `None` of the growth loop is a loop that has run out of fuel.
pub mod Growth
pub mod Append
mod Tests
use corm.Base.{
  ℕ, zero, suc, ◌+◌, ◌*◌, ◌^◌, ◌%◌, ◌-◌, Bool, true, false, List, [], ◌∷◌, ◌++◌, Option, none, some,
  ltb, leb, if◌then◌else◌, length, take, drop, replicate, Text, Err, ok, err_generic, err_nomem,
}

-- `corm_strbuf_t`; `none` is a NULL `buf`.
pub record StrBuf : Type 0 where
  pub buf : Option Text
  pub len : ℕ
  pub cap : ℕ

abbrev pub size_mod : ℕ
size_mod = 2 ^ 64

unfoldable pub init : StrBuf
init = record { buf = none; len = 0; cap = 0 }

-- `while (new_cap < need) new_cap *= 2;`
unfoldable pub double_until : ℕ → ℕ → ℕ → Option ℕ
double_until zero need new_cap = none
double_until (suc fuel) need new_cap =
    let more = double_until fuel need (new_cap * 2 % size_mod) in
    if ltb new_cap need then more else some new_cap

-- The bytes of the block; reading a NULL one reads nothing.
abbrev pub bytes : Option Text → Text
bytes none = []
bytes (some b) = b

-- A block of `n` bytes that begins with the old one; what `realloc` adds is unspecified, here 0.
abbrev pub resized : Option Text → ℕ → Text
resized b n = bytes b ++ replicate (n - length (bytes b)) 0

-- The result of an operation and the buffer after it. `none` is a loop that does not end.
abbrev pub Outcome : Type 0
Outcome = Option (Err × StrBuf)

unfoldable pub grow : (ℕ → Bool) → StrBuf → ℕ → Outcome
unfolding double_until
grow realloc sb extra =
    let need = (sb.len + extra + 1) % size_mod in
    let first = if ltb 0 sb.cap then sb.cap * 2 % size_mod else 64 in
    if leb need sb.cap then some (ok, sb) else elim (double_until 65 need first) [
      | none ↦ none
      | some new_cap ↦
          if realloc new_cap
          then some (ok, record sb { buf = some (resized sb.buf new_cap); cap = new_cap })
          else some (err_nomem, sb)
    ]

-- `memcpy(block + at, s, length s)`
abbrev pub write_at : Text → ℕ → Text → Text
write_at block at s = take at block ++ (s ++ drop (at + length s) block)

-- The end of the three appends: the bytes and the NUL behind them.
unfoldable pub put_bytes : StrBuf → Text → StrBuf
put_bytes sb s = record sb {
  buf = some (write_at (bytes sb.buf) sb.len (s ++ 0 ∷ []));
  len = (sb.len + length s) % size_mod;
}

-- `corm_strbuf_append`; `appendn` takes a prefix.
unfoldable pub append : (ℕ → Bool) → StrBuf → Text → Outcome
unfolding grow put_bytes
append realloc sb s = elim (grow realloc sb (length s)) [
  | none ↦ none
  | some (ok, sb') ↦ some (ok, put_bytes sb' s)
  | some (e, sb') ↦ some (e, sb')
]

unfoldable pub appendn : (ℕ → Bool) → StrBuf → Text → ℕ → Outcome
unfolding append
appendn realloc sb s n = append realloc sb (take n s)

-- `corm_strbuf_appendf`: `formatted` is what vsnprintf makes of the arguments, `none` when it reports an error.
unfoldable pub appendf : (ℕ → Bool) → StrBuf → (formatted : Option Text) → Outcome
appendf realloc sb none = some (err_generic, sb)
appendf realloc sb (some s) = append realloc sb s

-- `buf[0] = 0` on a block, nothing on NULL
abbrev pub nul_first : Option Text → Option Text
nul_first none = none
nul_first (some []) = some []
nul_first (some (_ ∷ b)) = some (0 ∷ b)

unfoldable pub clear : StrBuf → StrBuf
clear sb = record sb { buf = nul_first sb.buf; len = 0 }

unfoldable pub free : StrBuf → StrBuf
free sb = record { buf = none; len = 0; cap = 0 }

-- The characters before the first NUL.
abbrev pub until_nul : Text → Text
until_nul [] = []
until_nul (zero ∷ cs) = []
until_nul (suc c ∷ cs) = suc c ∷ until_nul cs

-- `corm_strbuf_cstr`, read as a C string.
unfoldable pub cstr : StrBuf → Text
cstr sb = until_nul (bytes sb.buf)
