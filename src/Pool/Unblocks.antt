-- ===== src/Pool/Unblocks.antt =====
-- When src/internal/pool.c makes a thread wait: what the other threads hold then, and the steps of theirs
-- that lead to a pool in which it would not wait.
use corm.Base.{
  ℕ, zero, suc, ◌+◌, ◌-◌, ◌<◌, ◌≡◌, ◌≢◌, refl, sym, ap, subst, ◌∙◌, ◌⊎◌, inl, inr, Bool, true,
  false, List, [], ◌∷◌, ◌++◌, length, ℤ, pos, negsuc, arith, Bool-cases,
}
use corm.Pool.{
  destroy, destroy_loop, Pool, Conn, Config, reached, is_expired, give_back, acquire_section,
  acquire_from, release, Taken, waits, reuse, expired, open_new,
}
use corm.Pool.Steps.{
  System, Step, ping_ok, ping_failed, open_ok, open_failed, returned, busy, Within, IsConsistent,
  Step-IsConsistent, Reach, Reach-IsConsistent,
}

-- A thread that holds a connection or a slot.
pub data Holder : Type 0 where
  pings : List Conn → Conn → List Conn → Holder
  opens : ℕ → Holder
  uses : List Conn → Conn → List Conn → Holder

-- How such a thread may come to its next end: whatever a ping, an open or the allocation of a node gives.
pub data Ends : Holder → System → System → Type 0 where
  alive :
      (s : System) (xs ys : List Conn) (c : Conn)
      → s.pinging ≡ xs ++ (c ∷ ys)
      → Ends (pings xs c ys) s (record s { pinging = xs ++ ys; in_use = c ∷ s.in_use })
  dead :
      (s : System) (xs ys : List Conn) (c : Conn)
      → s.pinging ≡ xs ++ (c ∷ ys)
      → Ends (pings xs c ys) s (record s { pinging = xs ++ ys; pool = give_back s.pool })
  opened :
      (s : System) (n : ℕ) (c : Conn)
      → s.opening ≡ suc n
      → Ends (opens n) s (record s { opening = n; in_use = c ∷ s.in_use })
  failed :
      (s : System) (n : ℕ)
      → s.opening ≡ suc n
      → Ends (opens n) s (record s { opening = n; pool = give_back s.pool })
  gave_back :
      (s : System) (malloc : Bool) (xs ys : List Conn) (c : Conn)
      → s.in_use ≡ xs ++ (c ∷ ys)
      → Ends (uses xs c ys) s (record s { in_use = xs ++ ys; pool = (release malloc c s.pool).1 })

pub Ends-Step : {h : Holder} {s t : System} → Ends h s t → Step s t
Ends-Step (alive s xs ys c e) = ping_ok s xs ys c e
Ends-Step (dead s xs ys c e) = ping_failed s xs ys c e
Ends-Step (opened s n c e) = open_ok s n c e
Ends-Step (failed s n e) = open_failed s n e
Ends-Step (gave_back s malloc xs ys c e) = returned s malloc xs ys c e

-- After finitely many ends of holders, whatever these give, a thread that comes for a connection does not
-- wait.
pub data Unblocks : System → Type 0 where
  free : (s : System) → ((now : ℕ) → (acquire_section now s.pool).0 ≢ waits) → Unblocks s
  turn :
      (s : System) (h : Holder) (t : System)
      → Ends h s t
      → ((u : System) → Ends h s u → Unblocks u)
      → Unblocks s

abbrev is_waits : Taken → Bool
is_waits waits = true
is_waits (reuse _) = false
is_waits (expired _) = false
is_waits open_new = false

not_waits : (t : Taken) → is_waits t ≡ false → t ≢ waits
not_waits t h e = absurd (true_ne_false (sym (ap is_waits e) ∙ h))
  where
    true_ne_false : true ≢ false
    true_ne_false k = cc

-- An idle connection is taken or dropped.
idle_free :
    (now : ℕ) (p : Pool) (c : Conn) (rest : List Conn) → (acquire_from now p (c ∷ rest)).0 ≢ waits
unfolding acquire_from
idle_free now p c rest = elim (Bool-cases (is_expired p.config now c)) [
  | inl h ↦ not_waits _ (rw h refl)
  | inr h ↦ not_waits _ (rw h refl)
]

-- Below the limit a connection is opened.
below_free :
    (now : ℕ) (p : Pool) (idle : List Conn)
    → reached p.config.max_open_conns p.current_open ≡ false
    → (acquire_from now p idle).0 ≢ waits
unfolding acquire_from
below_free now p [] h = not_waits _ (rw h refl)
below_free now p (c ∷ rest) h = idle_free now p c rest

-- Below a limit that was kept and reached, one fewer is not at the limit.
below : (z : ℤ) (n : ℕ) → Within z n → reached z n ≡ true → reached z (n - 1) ≡ false
below (pos zero) n w h = refl
below (pos (suc m)) n w h = ground arith
below (negsuc m) n w h = refl

give_back_free :
    (s : System) (now : ℕ)
    → IsConsistent s
    → reached s.pool.config.max_open_conns s.pool.current_open ≡ true
    → (acquire_section now (give_back s.pool)).0 ≢ waits
unfolding give_back
give_back_free s now inv full =
    below_free now (give_back s.pool) s.pool.idle
      (below s.pool.config.max_open_conns s.pool.current_open inv.open_limit full)

release_free :
    (s : System) (now : ℕ) (malloc : Bool) (c : Conn)
    → IsConsistent s
    → reached s.pool.config.max_open_conns s.pool.current_open ≡ true
    → (acquire_section now (release malloc c s.pool).1).0 ≢ waits
unfolding release
release_free s now malloc c inv full =
    elim (Bool-cases (reached s.pool.config.max_idle_conns s.pool.idle_count)) [
      | inl h ↦ rw (h, release) (give_back_free s now inv full)
      | inr h ↦ elim malloc as (λ m. (acquire_section now (release m c s.pool).1).0 ≢ waits) [
        | true ↦ rw (h, release) (idle_free now _ c s.pool.idle)
        | false ↦ rw (h, release) (give_back_free s now inv full)
      ]
    ]

-- A connection in use that is given back makes room.
in_use-Unblocks :
    (s : System) (c : Conn) (ys : List Conn)
    → IsConsistent s
    → reached s.pool.config.max_open_conns s.pool.current_open ≡ true
    → s.in_use ≡ c ∷ ys
    → Unblocks s
in_use-Unblocks s c ys inv full e = turn s (uses [] c ys) _ (gave_back s true [] ys c e) ends
  where
    ends : (u : System) → Ends (uses [] c ys) s u → Unblocks u
    ends u (gave_back _ malloc _ _ _ e') = free _ (λ now. release_free s now malloc c inv full)

-- So does a slot, by an open that fails or by the client that gets its connection.
opening-Unblocks :
    (s : System) (n : ℕ)
    → IsConsistent s
    → reached s.pool.config.max_open_conns s.pool.current_open ≡ true
    → s.opening ≡ suc n
    → Unblocks s
opening-Unblocks s n inv full e = turn s (opens n) _ (failed s n e) ends
  where
    ends : (u : System) → Ends (opens n) s u → Unblocks u
    ends u (failed _ _ _) = free _ (λ now. give_back_free s now inv full)
    ends u (opened _ _ c e') =
        in_use-Unblocks _ c s.in_use (Step-IsConsistent (open_ok s n c e) inv) full refl

pinging-Unblocks :
    (s : System) (c : Conn) (ys : List Conn)
    → IsConsistent s
    → reached s.pool.config.max_open_conns s.pool.current_open ≡ true
    → s.pinging ≡ c ∷ ys
    → Unblocks s
pinging-Unblocks s c ys inv full e = turn s (pings [] c ys) _ (dead s [] ys c e) ends
  where
    ends : (u : System) → Ends (pings [] c ys) s u → Unblocks u
    ends u (dead _ _ _ _ _) = free _ (λ now. give_back_free s now inv full)
    ends u (alive _ _ _ _ e') =
        in_use-Unblocks _ c s.in_use (Step-IsConsistent (ping_ok s [] ys c e) inv) full refl

List-cases : (xs : List Conn) → (xs ≡ []) ⊎ ((c : Conn) × (ys : List Conn) × (xs ≡ c ∷ ys))
List-cases [] = inl refl
List-cases (c ∷ ys) = inr (c, ys, refl)

ℕ-cases : (n : ℕ) → (n ≡ 0) ⊎ ((m : ℕ) × (n ≡ suc m))
ℕ-cases zero = inl refl
ℕ-cases (suc m) = inr (m, refl)

reached_pos : (z : ℤ) (n : ℕ) → reached z n ≡ true → 0 < n
reached_pos (pos zero) n h = cc
reached_pos (pos (suc m)) n h = ground arith
reached_pos (negsuc m) n h = cc

-- A pool with no room has a holder.
full-Unblocks :
    (s : System)
    → IsConsistent s
    → reached s.pool.config.max_open_conns s.pool.current_open ≡ true
    → s.pool.idle ≡ []
    → Unblocks s
full-Unblocks s inv full empty =
    let some_open = reached_pos s.pool.config.max_open_conns s.pool.current_open full in
    let held : 0 < busy s =
      omega (arith, some_open, inv.all_open, ap (λ (l : List Conn). length l) empty) in
    elim (List-cases s.in_use) [
      | inr (c, ys, e) ↦ in_use-Unblocks s c ys inv full e
      | inl u ↦ elim (ℕ-cases s.opening) [
        | inr (n, e) ↦ opening-Unblocks s n inv full e
        | inl o ↦ elim (List-cases s.pinging) [
          | inr (c, ys, e) ↦ pinging-Unblocks s c ys inv full e
          | inl p ↦ absurd (
              omega (
                arith,
                held,
                o,
                ap (λ (l : List Conn). length l) u,
                ap (λ (l : List Conn). length l) p,
              ))
        ]
      ]
    ]

-- From every state that the threads of a pool reach, there are holders whose ends, in turn and whatever
-- each gives, lead to a state in which a thread that comes for a connection does not wait.
pub Reach-Unblocks : {config : Config} {s : System} → Reach config s → Unblocks s
Reach-Unblocks {config} {s} r =
    let inv = Reach-IsConsistent r in
    elim (Bool-cases (reached s.pool.config.max_open_conns s.pool.current_open)) [
      | inr h ↦ free s (λ now. below_free now s.pool s.pool.idle h)
      | inl full ↦ elim (List-cases s.pool.idle) [
        | inl empty ↦ full-Unblocks s inv full empty
        | inr (c, rest, e) ↦ free s (λ now.
            subst (λ (l : List Conn). (acquire_from now s.pool l).0 ≢ waits) (sym e)
              (idle_free now s.pool c rest))
      ]
    ]

length-destroy_loop :
    (idle closed : List Conn) → length (destroy_loop idle closed) ≡ length idle + length closed
unfolding destroy_loop
length-destroy_loop [] closed = omega arith
length-destroy_loop (c ∷ idle) closed = omega (arith, length-destroy_loop idle (c ∷ closed))

-- Destroying a pool closes all open connections but those that are still held.
pub Reach-destroy :
    {config : Config} {s : System}
    → Reach config s
    → length (destroy s.pool) + busy s ≡ s.pool.current_open
unfolding destroy
Reach-destroy {config} {s} r =
    omega (arith, length-destroy_loop s.pool.idle [], (Reach-IsConsistent r).all_open)
