-- ===== src/StrBuf/Append.antt =====
-- What the buffer holds, and that an append is list append on it.
use corm.Base.{
  ℕ, zero, suc, ◌+◌, ◌^◌, ◌-◌, ◌≤◌, ◌<◌, ◌≡◌, refl, ap, ◌∙◌, ◌⊎◌, inl, inr, ◌≢◌, Bool, some, none,
  Option, [], ◌∷◌, ◌++◌, append_assoc, All, length, length-append, length-drop, take-append, drop,
  replicate, length-replicate, arith, Err, ok, err_nomem, Text,
}
use corm.StrBuf.Growth.{Grown, roomy, moved, refused, grow-Grown}
use corm.StrBuf.{
  StrBuf, init, clear, append, grow, put_bytes, bytes, nul_first, resized, write_at, cstr,
  until_nul,
}

-- The buffer holds `t`: either it has no block yet, or the block begins with `t` and a NUL.
pub data Holds (t : Text) (sb : StrBuf) : Type 0 where
  fresh : t ≡ [] → bytes sb.buf ≡ [] → sb.len ≡ 0 → sb.cap ≡ 0 → Holds t sb
  filled :
      (rest : Text)
      → bytes sb.buf ≡ t ++ 0 ∷ rest
      → sb.len ≡ length t
      → sb.cap ≡ length t + 1 + length rest
      → Holds t sb

-- A C string has no NUL inside.
abbrev pub NoNul : Text → Type 0
NoNul = All (λ c. c ≢ 0)

until_nul-append : (t rest : Text) → NoNul t → until_nul (t ++ 0 ∷ rest) ≡ t
until_nul-append [] rest h = refl
until_nul-append (zero ∷ t) rest h = absurd (h.0 refl)
until_nul-append (suc c ∷ t) rest h = ap (◌∷◌ (suc c)) (until_nul-append t rest h.1)

-- Read back as a C string, the buffer is the text that it holds.
pub cstr-Holds : (t : Text) (sb : StrBuf) → NoNul t → Holds t sb → cstr sb ≡ t
unfolding cstr
cstr-Holds t sb n (fresh e b l c) = rw (b, e)
cstr-Holds t sb n (filled rest b l c) = rw b (until_nul-append t rest n)

pub init-Holds : Holds [] init
unfolding init
init-Holds = fresh refl refl refl refl

drop-append : (t old : Text) (n : ℕ) → drop (length t + n) (t ++ old) ≡ drop n old
drop-append [] old n = ap (λ k. drop k old) (omega arith)
drop-append (c ∷ t) old n =
    let e : length (c ∷ t) + n ≡ suc (length t + n) = omega arith in
    ap (λ k. drop k (c ∷ (t ++ old))) e ∙ drop-append t old n

write_at-append :
    (t old s : Text) → write_at (t ++ old) (length t) s ≡ t ++ (s ++ drop (length s) old)
write_at-append t old s = rw (take-append t old, drop-append t old (length s))

-- Writing `s` and a NUL behind `t` in a block with room for them.
put_bytes-Holds :
    (t s old : Text) (sb : StrBuf)
    → bytes sb.buf ≡ t ++ old
    → sb.len ≡ length t
    → sb.cap ≡ length t + length old
    → length s + 1 ≤ length old
    → length t + length s < 2 ^ 64
    → Holds (t ++ s) (put_bytes sb s)
unfolding put_bytes
put_bytes-Holds t s old sb b l c room small =
    let tail = drop (length (s ++ 0 ∷ [])) old in
    filled tail (rw (b, l, write_at-append) (simp append_assoc)) (omega (arith, length-append t s))
      (omega (
        arith,
        length-append t s,
        length-append s (0 ∷ []),
        length-drop (length (s ++ 0 ∷ [])) old,
      ))

-- The block behind the text, whether there is one or not.
Holds-old :
    (t : Text) (sb : StrBuf)
    → Holds t sb
    → (old : Text) × (bytes sb.buf ≡ t ++ old)
      × (sb.len ≡ length t)
      × (sb.cap ≡ length t + length old)
Holds-old t sb (fresh e b l c) = ([], rw (e, b), rw (e, l), rw (e, c))
Holds-old t sb (filled rest b l c) = (0 ∷ rest, b, l, omega (arith, c))

module _ (t s : Text) (sb : StrBuf) (h : Holds t sb)
    (small : length t + length s + 1 ≤ 2 ^ 62) where
  room-Holds : sb.len + length s + 1 ≤ sb.cap → Holds (t ++ s) (put_bytes sb s)
  room-Holds room =
      let (old, b, l, c) = Holds-old t sb h in
      put_bytes-Holds t s old sb b l c (omega arith) (omega arith)

  moved-Holds :
      (n : ℕ)
      → sb.cap < sb.len + length s + 1
      → sb.len + length s + 1 ≤ n
      → Holds (t ++ s) (put_bytes (record sb { buf = some (resized sb.buf n); cap = n }) s)
  moved-Holds n short enough =
      let (old, b, l, c) = Holds-old t sb h in
      let fill : Text = replicate (n - length (bytes sb.buf)) 0 in
      let size : length (bytes sb.buf) ≡ length t + length old = rw b (length-append t old) in
      put_bytes-Holds t s (old ++ fill) _ (ap (λ w. w ++ fill) b ∙ append_assoc t old fill) l
        (omega
          (arith, length-append old fill, length-replicate {A = ℕ} (n - length (bytes sb.buf)) 0))
        (omega
          (arith, length-append old fill, length-replicate {A = ℕ} (n - length (bytes sb.buf)) 0))
        (omega arith)

  append-Grown :
      (realloc : ℕ → Bool) (e : Err) (sb' : StrBuf)
      → grow realloc sb (length s) ≡ some (e, sb')
      → Grown sb (sb.len + length s + 1) e sb'
      → (e : Err) × (sb' : StrBuf) × (append realloc sb s ≡ some (e, sb'))
        × (((e ≡ ok) × Holds (t ++ s) sb') ⊎ ((e ≡ err_nomem) × (sb' ≡ sb)))
  unfolding append
  append-Grown realloc e sb' run (roomy room) =
      (ok, _, rw (run, append), inl (refl, room-Holds room))
  append-Grown realloc e sb' run (moved n short enough) =
      (ok, _, rw (run, append), inl (refl, moved-Holds n short enough))
  append-Grown realloc e sb' run (refused short) =
      (err_nomem, sb, rw (run, append), inr (refl, refl))

  -- On a buffer that holds a text, where the lengths of the two texts sum to less than 2^62: an append that
  -- finds room, or is given it, appends the text; one that is refused memory reports
  -- ERR_NOMEM and leaves the buffer as it was. It always ends.
  pub append-Holds :
      (realloc : ℕ → Bool)
      → (e : Err) × (sb' : StrBuf) × (append realloc sb s ≡ some (e, sb'))
        × (((e ≡ ok) × Holds (t ++ s) sb') ⊎ ((e ≡ err_nomem) × (sb' ≡ sb)))
  append-Holds realloc =
      let (old, b, l, c) = Holds-old t sb h in
      let (e, sb', run, g) = grow-Grown realloc sb (length s) (omega arith) in
      append-Grown realloc e sb' run g

nul_first-nil : (b : Option Text) → bytes b ≡ [] → bytes (nul_first b) ≡ []
nul_first-nil none e = refl
nul_first-nil (some []) e = refl
nul_first-nil (some (c ∷ w)) e = cc

nul_first-cons :
    (b : Option Text) (c : ℕ) (w : Text) → bytes b ≡ c ∷ w → bytes (nul_first b) ≡ 0 ∷ w
nul_first-cons none c w e = cc
nul_first-cons (some []) c w e = cc
nul_first-cons (some (d ∷ v)) c w e = cc

-- After a clear the buffer holds the empty text in the same block.
pub clear-Holds : (t : Text) (sb : StrBuf) → Holds t sb → Holds [] (clear sb)
unfolding clear
clear-Holds t sb (fresh e b l c) = fresh refl (nul_first-nil sb.buf b) refl c
clear-Holds [] sb (filled rest b l c) = filled rest (nul_first-cons sb.buf 0 rest b) refl c
clear-Holds (d ∷ t) sb (filled rest b l c) =
    filled (t ++ 0 ∷ rest) (nul_first-cons sb.buf d _ b) refl
      (omega (arith, length-append t (0 ∷ rest)))
