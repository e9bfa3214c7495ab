-- ===== src/StrBuf/Tests.antt =====
-- Runs of the buffer, and its theorems at concrete buffers.
use corm.Base.{
  ℕ, ◌≡◌, refl, Bool, true, Option, some, none, [], ◌⊎◌, arith, Err, ok, err_nomem, codes, Text,
}
use corm.StrBuf.{StrBuf, init, append, cstr}
use corm.StrBuf.Append.{Holds, append-Holds, init-Holds}

plenty : ℕ → Bool
plenty n = true

-- 70 characters do not fit the first block of 64.
long : Text
long = codes "SELECT id, name, email, age FROM users WHERE id = ? AND deleted IS NUL"

read_back : Option (Err × StrBuf) → Text
read_back none = []
read_back (some (e, sb)) = cstr sb

append_grows : read_back (append plenty init long) ≡ long
unfolding append read_back plenty long init cstr
append_grows = refl

append-Holds_example :
    (e : Err) × (sb : StrBuf) × (append plenty init long ≡ some (e, sb))
    × (((e ≡ ok) × Holds long sb) ⊎ ((e ≡ err_nomem) × (sb ≡ init)))
unfolding long
append-Holds_example = append-Holds [] long init init-Holds (omega arith) plenty
