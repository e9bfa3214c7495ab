-- ===== src/Hash/Lookup.antt =====
-- What a lookup sees after each operation: the table refines a map from keys to stacks of values.
use corm.Base.{
  ℕ, ◌+◌, ◌-◌, ◌<◌, ◌≡◌, refl, ◌∙◌, ◌≢◌, true, List, [], ◌∷◌, Option, none, some, arith, ◌==◌,
  Option-cases, if◌then◌else◌, inl, inr, get_or, set, length, length-set, Text, text_eq,
  text_eq_iff,
}
use corm.Hash.{Hash, Chain, size, hash_str, insert, find_chain, find, remove_chain, remove}
use corm.Hash.Invariant.{IsValid, get_or-set, hash_str-lt}

-- The values that a chain holds for a key, newest first.
module _ {ℓ} {V : Type ℓ} where
  abbrev pub values_in : Text → Chain V → List V
  values_in key [] = []
  values_in key (e ∷ es) =
      if text_eq e.key key then e.value ∷ values_in key es else values_in key es

  -- The abstract view: the stack of values of each key.
  unfoldable pub stack : Hash V → Text → List V
  stack ht key = values_in key (get_or ht.buckets (hash_str key (size ht)) [])

  abbrev pub top : List V → Option V
  top [] = none
  top (v ∷ vs) = some v

  abbrev pub pop : List V → List V
  pop [] = []
  pop (v ∷ vs) = vs

  find_chain-values_in : (key : Text) (c : Chain V) → find_chain key c ≡ top (values_in key c)
  unfolding find_chain
  find_chain-values_in key [] = refl
  find_chain-values_in key (e ∷ c) = ground (arith, find_chain-values_in key c)

  -- A lookup returns the newest value of the key.
  pub find-stack : (ht : Hash V) (key : Text) → find ht key ≡ top (stack ht key)
  unfolding find stack
  find-stack ht key = find_chain-values_in key _

  values_in-remove_self :
      (key : Text) (c : Chain V) → values_in key (remove_chain key c) ≡ pop (values_in key c)
  unfolding remove_chain
  values_in-remove_self key [] = refl
  values_in-remove_self key (e ∷ c) = ground (arith, values_in-remove_self key c)

  values_in-remove_ne :
      (key other : Text) (c : Chain V)
      → key ≢ other
      → values_in other (remove_chain key c) ≡ values_in other c
  unfolding remove_chain
  values_in-remove_ne key other [] n = refl
  values_in-remove_ne key other (e ∷ c) n =
      ground
        (arith, values_in-remove_ne key other c n, text_eq_iff e.key key, text_eq_iff e.key other)

  stack-set :
      (ht : Hash V) (i k : ℕ) (c : Chain V) (other : Text)
      → i < length ht.buckets
      → stack (record { buckets = set ht.buckets i c; count = k }) other
        ≡ (if i == hash_str other (size ht) then values_in other c else stack ht other)
  unfolding stack
  stack-set ht i k c other lt =
      rw (length-set, get_or-set ht.buckets i (hash_str other (size ht)) c [] lt) (ground arith)

  pop_of_top : (vs : List V) → top vs ≡ none → vs ≡ []
  pop_of_top [] e = refl
  pop_of_top (v ∷ vs) e = cc

  -- In a valid table and with memory at hand, an insertion pushes its value onto the stack of its key and
  -- leaves every other stack alone.
  pub stack-insert :
      (ht : Hash V) (key other : Text) (v : V)
      → IsValid ht
      → stack (insert true ht key v).1 other
        ≡ (if text_eq key other then v ∷ stack ht other else stack ht other)
  unfolding stack insert
  stack-insert ht key other v h =
      let i = hash_str key (size ht) in
      let c : Chain V = record { key = key; value = v } ∷ get_or ht.buckets i [] in
      stack-set ht i (ht.count + 1) c other (hash_str-lt key (size ht) h.some_buckets)
      ∙ ground (arith, text_eq_iff key other)

  -- In a valid table, a removal pops the stack of its key and leaves every other stack alone.
  pub stack-remove :
      (ht : Hash V) (key other : Text)
      → IsValid ht
      → stack (remove ht key) other
        ≡ (if text_eq key other then pop (stack ht other) else stack ht other)
  unfolding stack remove
  stack-remove ht key other h =
      let i = hash_str key (size ht) in
      let c = get_or ht.buckets i [] in
      let same = text_eq_iff key other in
      elim (Option-cases (find_chain key c)) [
        | inl e ↦
            rw (e, remove)
              (ground (arith, same, find_chain-values_in key c, pop_of_top (values_in key c)))
        | inr (v, e) ↦
            rw (e, remove)
              (stack-set ht i (ht.count - 1) (remove_chain key c) other
                  (hash_str-lt key (size ht) h.some_buckets)
                ∙ ground
                    (arith, same, values_in-remove_self key c, values_in-remove_ne key other c))
      ]
