-- ===== src/Hash/Tests.antt =====
-- The table with one and two entries.
use corm.Base.{ℕ, ◌≡◌, true, ◌∷◌, codes, text_eq, if◌then◌else◌}
use corm.Hash.{Hash, init, insert}
use corm.Hash.Invariant.{IsValid, init-IsValid, insert-IsValid}
use corm.Hash.Lookup.{stack, stack-insert}

abbrev one_entry : Hash ℕ
one_entry = (insert true (init true 4).1 (codes "a") 1).1

one_entry-IsValid : IsValid one_entry
one_entry-IsValid = insert-IsValid true (init true 4).1 (codes "a") 1 (init-IsValid 4)

init-IsValid_example : IsValid (init {V = ℕ} true 0).1
init-IsValid_example = init-IsValid {V = ℕ} 0

stack-insert_example : stack (insert true one_entry (codes "a") 2).1 (codes "a") ≡ (
    if text_eq (codes "a") (codes "a")
    then 2 ∷ stack one_entry (codes "a")
    else stack one_entry (codes "a"))
stack-insert_example = stack-insert one_entry (codes "a") (codes "a") 2 one_entry-IsValid
