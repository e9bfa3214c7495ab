-- ===== src/Hash.antt =====
-- src/internal/hash.h: a chained hash table from C strings to pointers. A chain is the list of its
-- entries in link order; `size_t` arithmetic wraps at 2 ^ 64. The three allocations of the code are
-- an argument, whether the allocator can serve the call. A bucket index out of range reads an empty
-- chain and writes nothing.
pub mod Invariant
pub mod Lookup
mod Tests
use corm.Base.{
  ℕ, zero, suc, ◌+◌, ◌-◌, ◌*◌, ◌^◌, ◌%◌, Bool, true, false, not, List, [], ◌∷◌, Option, none, some,
  ◌==◌, if◌then◌else◌, get_or, set, replicate, length, Text, text_eq, Err, ok, err_nomem,
}

-- `corm_hash_entry_t` without its link.
pub record Entry {ℓ} (V : Type ℓ) : Type ℓ where
  pub key : Text
  pub value : V

abbrev pub Chain {ℓ} : Type ℓ → Type ℓ
Chain V = List (Entry V)

pub record Hash {ℓ} (V : Type ℓ) : Type ℓ where
  pub buckets : List (Chain V)
  pub count : ℕ

-- The field `size` of the source is the number of buckets.
abbrev pub size {ℓ} : {V : Type ℓ} → Hash V → ℕ
size ht = length ht.buckets

-- `while (*key) h = ((h << 5) + h) + (unsigned char)*key++;`
unfoldable pub hash_loop : ℕ → Text → ℕ
hash_loop h [] = h
hash_loop h (c ∷ cs) = hash_loop ((h * 32 % 2 ^ 64 + h + c % 256) % 2 ^ 64) cs

unfoldable pub hash_str : Text → ℕ → ℕ
unfolding hash_loop
hash_str key bucket_count = hash_loop 5381 key % bucket_count

module _ {ℓ} {V : Type ℓ} where
  unfoldable pub init : Bool → ℕ → Err × Hash V
  init calloc initial_size =
      let n = if initial_size == 0 then 32 else initial_size in
      if calloc
      then (ok, record { buckets = replicate n []; count = 0 })
      else (err_nomem, record { buckets = []; count = 0 })

  -- The new entry goes in front of its chain, whether or not the key is there already.
  unfoldable pub insert : Bool → Hash V → Text → V → Err × Hash V
  insert malloc ht key value =
      let idx = hash_str key (size ht) in
      let entry : Entry V = record { key = key; value = value } in
      if malloc
      then (
        ok,
        record {
          buckets = set ht.buckets idx (entry ∷ get_or ht.buckets idx []);
          count = ht.count + 1;
        },
      )
      else (err_nomem, ht)

  -- The first entry of a chain with the key.
  unfoldable pub find_chain : Text → Chain V → Option V
  find_chain key [] = none
  find_chain key (e ∷ es) = if text_eq e.key key then some e.value else find_chain key es

  unfoldable pub find : Hash V → Text → Option V
  find ht key = find_chain key (get_or ht.buckets (hash_str key (size ht)) [])

  -- The chain without the first entry with the key.
  unfoldable pub remove_chain : Text → Chain V → Chain V
  remove_chain key [] = []
  remove_chain key (e ∷ es) = if text_eq e.key key then es else e ∷ remove_chain key es

  unfoldable pub remove : Hash V → Text → Hash V
  remove ht key =
      let idx = hash_str key (size ht) in
      let chain = get_or ht.buckets idx [] in
      elim (find_chain key chain) [
        | none ↦ ht
        | some _ ↦ record {
          buckets = set ht.buckets idx (remove_chain key chain);
          count = ht.count - 1;
        }
      ]

  unfoldable pub free : Hash V → Hash V
  free ht = record { buckets = []; count = 0 }
