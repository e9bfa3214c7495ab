-- ===== src/Session/Batch/Progress.antt =====
-- How a `corm_create_batch` ends, and what it counts.
use corm.Base.{
  Option, ℕ, zero, suc, ◌+◌, ◌≡◌, ◌≢◌, ◌<◌, ◌≤◌, ◌⊎◌, refl, Bool, false, List, [], ◌∷◌, some, inl,
  inr, arith, Bool-cases, length, take, drop, first_that, ℤ, pos, negsuc, Err, ok, is_ok,
}
use corm.Model.{Model, Field}
use corm.Model.Memory.{Memory, Abi}
use corm.Session.{Db, Backend, Hooks}
use corm.Session.Batch.{is_inserted, effective_size, insert_chunk, create_loop, create_batch}

length_split {ℓ} :
    {A : Type ℓ} (n : ℕ) (xs : List A) → length (take n xs) + length (drop n xs) ≡ length xs
length_split zero xs = omega arith
length_split (suc n) [] = refl
length_split (suc n) (x ∷ xs) = omega (arith, length_split n xs)

effective_size-suc : (z : ℤ) → (k : ℕ) × (effective_size z ≡ suc k)
effective_size-suc (pos zero) = (99, refl)
effective_size-suc (pos (suc n)) = (n, refl)
effective_size-suc (negsuc n) = (99, refl)

not_ok : (e : Err) → is_ok e ≡ false → e ≢ ok
not_ok e h = ground arith

-- Success with every record counted, or an error with fewer.
abbrev pub Counted : Err → ℕ → ℕ → Type 0
Counted e n total = ((e ≡ ok) × (n ≡ total)) ⊎ ((e ≢ ok) × (n < total))

module _ {W : Type 0} (B : Backend W) (hooks : Hooks W) (abi : Abi) (model : Model) where
  create_loop-Counted :
      (memory : ℕ → Option (ℕ → Bool)) (fuel k total all : ℕ) (recs : List Memory) (db : Db W)
      → length recs ≤ fuel
      → total + length recs ≡ all
      → Counted
          (create_loop B hooks abi model memory fuel (suc k) total recs db).0
          (create_loop B hooks abi model memory fuel (suc k) total recs db).1
          all
  unfolding create_loop
  create_loop-Counted memory zero k total all [] db h g = inl (refl, omega arith)
  create_loop-Counted memory zero k total all (m ∷ ms) db h g = absurd (omega arith)
  create_loop-Counted memory (suc fuel) k total all [] db h g = inl (refl, omega arith)
  create_loop-Counted memory (suc fuel) k total all (m ∷ ms) db h g =
      let split = length_split k ms in
      let chunk = insert_chunk B hooks abi model (memory total) (take (suc k) (m ∷ ms)) db in
      elim (Bool-cases (is_ok chunk.0)) [
        | inr e ↦ rw (e, create_loop) (inr (not_ok _ e, omega arith))
        | inl e ↦
            rw (e, create_loop)
              (create_loop-Counted memory fuel k (total + length (take (suc k) (m ∷ ms))) all
                (drop (suc k) (m ∷ ms)) chunk.1 (omega arith) (omega arith))
      ]

  -- On one record or more, of a model with a field to insert, whatever the batch size and whichever
  -- queries are allocated: the call ends with
  -- success and counts every record, or with an error and counts fewer.
  pub create_batch-Counted :
      (memory : ℕ → Option (ℕ → Bool)) (batch_size : ℤ) (m : Memory) (ms : List Memory) (f : Field)
      (db : Db W)
      → first_that is_inserted model.fields ≡ some f
      → (n : ℕ) × ((create_batch B hooks abi model memory batch_size (m ∷ ms) db).1 ≡ some n)
        × Counted
            (create_batch B hooks abi model memory batch_size (m ∷ ms) db).0
            n
            (length (m ∷ ms))
  unfolding create_batch
  create_batch-Counted memory batch_size m ms f db e =
      let (k, size) = effective_size-suc batch_size in
      rw (e, size, create_batch)
        (
          _,
          refl,
          create_loop-Counted memory (length (m ∷ ms)) k 0 _ (m ∷ ms) db (omega arith)
              (omega arith),
        )
