-- ===== src/Result/Cells.antt =====
-- The cells of a result that its lists give.
use corm.Base.{
  ℕ, zero, suc, ◌≡◌, refl, ap, true, List, [], ◌∷◌, map, Option, none, some, length, get_elem?, ltb,
  lt→ltb, ◌<◌, arith, pos,
}
use corm.Dialect.{FieldType}
use corm.Value.{Value}
use corm.Result.{Result, value, col_type}

pub value_at :
    (r : Result) (row col : ℕ) (cells : List Value) (v : Value)
    → ltb row (length r.rows) ≡ true
    → ltb col (length r.column_names) ≡ true
    → get_elem? r.rows row ≡ some cells
    → get_elem? cells col ≡ some v
    → value r (pos row) (pos col) ≡ some v
unfolding value
value_at r row col cells v a b e f = rw (a, b, e, value) f

pub col_type_at :
    (r : Result) (col : ℕ) (t : FieldType)
    → ltb col (length r.column_names) ≡ true
    → get_elem? r.column_types col ≡ some t
    → col_type r (pos col) ≡ t
unfolding col_type
col_type_at r col t b e = rw (b, e, col_type) refl

pub get_elem?-map {ℓ κ} :
    {A : Type ℓ} {B : Type κ} (f : A → B) (xs : List A) (i : ℕ) (x : A)
    → get_elem? xs i ≡ some x
    → get_elem? (map f xs) i ≡ some (f x)
get_elem?-map f [] i x e = absurd (cc e)
get_elem?-map f (y ∷ xs) zero x e =
    ap some (ap (λ (o : Option _). elim o [ none ↦ f y | some z ↦ f z ]) e)
get_elem?-map f (y ∷ xs) (suc i) x e = get_elem?-map f xs i x e

lt_of_get_elem? {ℓ} :
    {A : Type ℓ} (xs : List A) (i : ℕ) (x : A) → get_elem? xs i ≡ some x → i < length xs
lt_of_get_elem? [] i x e = absurd (cc e)
lt_of_get_elem? (y ∷ xs) zero x e = omega arith
lt_of_get_elem? (y ∷ xs) (suc i) x e = omega (arith, lt_of_get_elem? xs i x e)

pub ltb_of_get_elem? {ℓ} :
    {A : Type ℓ} (xs : List A) (i : ℕ) (x : A) → get_elem? xs i ≡ some x → ltb i (length xs) ≡ true
ltb_of_get_elem? xs i x e = lt→ltb i (length xs) (lt_of_get_elem? xs i x e)
