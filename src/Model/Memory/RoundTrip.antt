-- ===== src/Model/Memory/RoundTrip.antt =====
-- Reading a field from one struct and writing it into another.
use corm.Base.{
  ℕ, ◌-◌, ◌^◌, ◌<◌, ◌≡◌, refl, ap, List, some, ==_refl, leb, arith, length, take, take_all,
  take-append, ◌++◌, true, false, lt→ltb, length-take, ℤ, pos, negsuc,
}
use corm.Dialect.{FieldType, int, int64, float, double, string, text, blob, bool}
use corm.Model.{Field}
use corm.Model.Memory.{Memory, Abi, to_int32, get_value, set_value, set_blob}
use corm.Value.{Value, Payload, of_blob}

-- The numbers that an `int` holds.
abbrev pub IsInt32 : ℤ → Type 0
IsInt32 (pos n) = n < 2 ^ 31
IsInt32 (negsuc n) = n < 2 ^ 31

to_int32_self : (z : ℤ) → IsInt32 z → to_int32 z ≡ z
to_int32_self (pos n) h = ground arith
to_int32_self (negsuc n) h = ground arith

-- What the struct holds at a field is a value of the field's C type.
abbrev pub Fits : Memory → Field → FieldType → Type 0
Fits m f int = IsInt32 (m.ints f.offset)
Fits m f string = length (m.chars f.offset) < f.size
Fits m f blob = length (m.blobs f.offset) ≡ f.size
Fits m f _ = Unit {0}

take_prefix : (n : ℕ) (b xs : List ℕ) → length b ≡ n → take n (b ++ xs) ≡ b
take_prefix n b xs e = rw (← e) (take-append b xs)

-- A blob that fills its field is copied whole.
blob_copied :
    (f : Field) (src dst : Memory)
    → length (src.blobs f.offset) ≡ f.size
    → let b = take f.size (src.blobs f.offset) in
      take f.size ((set_blob dst f (some b)).blobs f.offset) ≡ b
blob_copied f src dst h =
    let b = take f.size (src.blobs f.offset) in
    let full : length b ≡ f.size = omega (arith, length-take f.size (src.blobs f.offset)) in
    let fits : leb (length b) f.size ≡ true = rw full (ground arith) in
    rw (fits, ==_refl f.offset) (take_prefix f.size b _ full)

get-set_at :
    (abi : Abi) (src dst : Memory) (f : Field) (t : FieldType)
    → f.type ≡ t
    → Fits src f t
    → (get_value abi (set_value abi dst f (get_value abi src f)) f).v ≡ (get_value abi src f).v
unfolding get_value set_value
get-set_at abi src dst f int e h =
    rw e (rw (abi.as_int-of_int, ==_refl f.offset, to_int32_self _ h))
get-set_at abi src dst f string e h = rw e (
    rw (
      abi.as_text-of_text,
      lt→ltb 0 f.size (omega arith),
      ==_refl f.offset,
      take_all (f.size - 1) (src.chars f.offset) (omega arith),
    ))
get-set_at abi src dst f blob e h =
    rw e (rw abi.as_blob-of_blob (ap (λ b. of_blob (some b)) (blob_copied f src dst h)))
get-set_at abi src dst f float e h =
    rw e (rw (abi.as_float-of_float, abi.narrow-widen, ==_refl f.offset))
get-set_at abi src dst f text e h = rw e (rw (abi.as_text-of_text, ==_refl f.offset))
get-set_at abi src dst f int64 e h = rw e (rw (abi.as_int-of_int, ==_refl f.offset))
get-set_at abi src dst f double e h = rw e (rw (abi.as_float-of_float, ==_refl f.offset))
get-set_at abi src dst f bool e h = rw e (rw (abi.as_bool-of_bool, ==_refl f.offset))

-- Reading a field that holds a value of its type, writing the value into any struct and reading it
-- there gives the value again.
pub get_value-set_value :
    (abi : Abi) (src dst : Memory) (f : Field)
    → Fits src f f.type
    → get_value abi (set_value abi dst f (get_value abi src f)) f ≡ get_value abi src f
unfolding get_value
get_value-set_value abi src dst f h =
    ap (λ (p : Payload). let v : Value = record { type = f.type; is_null = false; v = p } in v)
      (get-set_at abi src dst f f.type refl h)
