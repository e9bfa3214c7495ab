-- ===== src/Hash/Invariant.antt =====
-- Every entry stands in the bucket of its key, and `count` counts the entries.
use corm.Base.{
  ℕ, zero, suc, ◌+◌, ◌-◌, ◌<◌, ◌≡◌, refl, Bool, true, false, List, [], ◌∷◌, some, arith, ◌==◌,
  Option-cases, Bool-cases, ==_iff, subst, if◌then◌else◌, inl, inr, get_or, set, replicate, length,
  length-set, length-replicate, get_or-replicate, Text,
}
use corm.Hash.{Hash, Chain, size, hash_str, init, insert, find_chain, remove_chain, remove}

module _ {ℓ} {A : Type ℓ} where
  pub get_or-set :
      (xs : List A) (i j : ℕ) (v d : A)
      → i < length xs
      → get_or (set xs i v) j d ≡ (if i == j then v else get_or xs j d)
  get_or-set [] i j v d h = absurd (omega arith)
  get_or-set (x ∷ xs) (suc i) (suc j) v d h = ground (arith, get_or-set xs i j v d)
  get_or-set (x ∷ xs) zero zero v d h = ground arith
  get_or-set (x ∷ xs) i j v d h = ground arith

module _ {ℓ} {V : Type ℓ} where
  -- The sum of the chain lengths.
  abbrev pub total : List (Chain V) → ℕ
  total [] = 0
  total (c ∷ cs) = length c + total cs

  pub total-set :
      (bs : List (Chain V)) (i : ℕ) (c : Chain V)
      → i < length bs
      → total (set bs i c) + length (get_or bs i []) ≡ total bs + length c
  total-set [] i c h = absurd (omega arith)
  total-set (b ∷ bs) zero c h = omega arith
  total-set (b ∷ bs) (suc i) c h = omega (arith, total-set bs i c (omega arith))

  -- All keys of a chain hash to bucket `i` of `n`.
  abbrev pub InBucket : ℕ → ℕ → Chain V → Type 0
  InBucket n i [] = Unit {0}
  InBucket n i (e ∷ es) = (hash_str e.key n ≡ i) × InBucket n i es

  pub record IsValid (ht : Hash V) : Type ℓ where
    pub some_buckets : 0 < length ht.buckets
    pub counted : ht.count ≡ total ht.buckets
    pub placed : (i : ℕ) → InBucket (length ht.buckets) i (get_or ht.buckets i [])

pub hash_str-lt : (key : Text) (n : ℕ) → 0 < n → hash_str key n < n
unfolding hash_str
hash_str-lt key n h = omega arith

total-replicate {ℓ} : (V : Type ℓ) (n : ℕ) → total {V = V} (replicate n []) ≡ 0
total-replicate V zero = refl
total-replicate V (suc n) = omega (arith, total-replicate V n)

module _ {ℓ} {V : Type ℓ} where
  InBucket-if :
      (n i j : ℕ) (c d : Chain V)
      → InBucket n i c
      → InBucket n j d
      → InBucket n j (if i == j then c else d)
  InBucket-if n i j c d hc hd = elim (Bool-cases (i == j)) [
    | inl e ↦ rw e (subst (λ k. InBucket n k c) ((==_iff i j).0 e) hc)
    | inr e ↦ rw e hd
  ]

  -- Writing a chain of the right keys into one bucket, with the count adjusted.
  set-IsValid :
      (ht : Hash V) (i k : ℕ) (c : Chain V)
      → IsValid ht
      → i < length ht.buckets
      → InBucket (length ht.buckets) i c
      → k + length (get_or ht.buckets i []) ≡ ht.count + length c
      → IsValid (record { buckets = set ht.buckets i c; count = k })
  set-IsValid ht i k c h lt keys counts = record {
    some_buckets = rw length-set h.some_buckets;
    counted = omega (arith, total-set ht.buckets i c lt, h.counted);
    placed = λ j.
        rw (length-set, get_or-set ht.buckets i j c [] lt)
          (InBucket-if (length ht.buckets) i j c _ keys (h.placed j));
  }

  -- A table that could be allocated is valid.
  pub init-IsValid : (n : ℕ) → IsValid (init {V = V} true n).1
  unfolding init
  init-IsValid n =
      let k = if n == 0 then 32 else n in
      record {
        some_buckets = ground (arith, length-replicate {A = Chain V} k []);
        counted = rw (total-replicate V k);
        placed = λ i. rw (get_or-replicate {A = Chain V} k i []) tt;
      }

  -- An insertion keeps the table valid, also when memory is refused.
  pub insert-IsValid :
      (malloc : Bool) (ht : Hash V) (key : Text) (v : V)
      → IsValid ht
      → IsValid (insert malloc ht key v).1
  unfolding insert
  insert-IsValid false ht key v h = h
  insert-IsValid true ht key v h =
      set-IsValid ht (hash_str key (size ht)) (ht.count + 1) _ h
        (hash_str-lt key (length ht.buckets) h.some_buckets)
        (refl, h.placed (hash_str key (size ht))) (omega arith)

  length-remove_chain :
      (key : Text) (c : Chain V) (v : V)
      → find_chain key c ≡ some v
      → length (remove_chain key c) + 1 ≡ length c
  unfolding find_chain remove_chain
  length-remove_chain key [] v e = cc
  length-remove_chain key (x ∷ c) v e = ground (arith, length-remove_chain key c v)

  remove_chain-InBucket :
      (n i : ℕ) (key : Text) (c : Chain V) → InBucket n i c → InBucket n i (remove_chain key c)
  unfolding remove_chain
  remove_chain-InBucket n i key [] h = tt
  remove_chain-InBucket n i key (x ∷ c) h = ground (arith, remove_chain-InBucket n i key c h.1)

  -- A removal keeps the table valid, whether or not the key is there.
  pub remove-IsValid : (ht : Hash V) (key : Text) → IsValid ht → IsValid (remove ht key)
  unfolding remove
  remove-IsValid ht key h =
      let i = hash_str key (size ht) in
      let chain = get_or ht.buckets i [] in
      let lt = hash_str-lt key (length ht.buckets) h.some_buckets in
      elim (Option-cases (find_chain key chain)) [
        | inl e ↦ rw (e, remove) h
        | inr (v, e) ↦
            rw (e, remove)
              (set-IsValid ht i (ht.count - 1) (remove_chain key chain) h lt
                (remove_chain-InBucket (length ht.buckets) i key chain (h.placed i))
                (omega (
                  arith,
                  length-remove_chain key chain v e,
                  total-set ht.buckets i [] lt,
                  h.counted,
                )))
      ]
