-- ===== src/Pool/Steps.antt =====
-- Threads on one pool: each step is what a thread does under one hold of the lock, or a ping or an open
-- that ends between two of them.
use corm.Base.{
  ℕ, zero, suc, ◌+◌, ◌-◌, ◌≤◌, ◌≡◌, refl, ap, ◌∙◌, Bool, false, List, [], ◌∷◌, ◌++◌, length, ℤ, pos,
  negsuc, arith, inl, inr, Bool-cases,
}
use corm.Pool.{
  Pool, Conn, Config, create, reached, is_expired, give_back, acquire_section, acquire_from,
  release, reuse, expired, open_new,
}

-- The pool and what its threads hold: connections that are being pinged, slots for which a connection is
-- being opened, and connections that clients use.
pub record System : Type 0 where
  pub pool : Pool
  pub pinging : List Conn
  pub opening : ℕ
  pub in_use : List Conn

pub data Step : System → System → Type 0 where
  take_idle :
      (s : System) (now : ℕ) (c : Conn)
      → (acquire_section now s.pool).0 ≡ reuse c
      → Step s (record s { pool = (acquire_section now s.pool).1; pinging = c ∷ s.pinging })
  drop_expired :
      (s : System) (now : ℕ) (c : Conn)
      → (acquire_section now s.pool).0 ≡ expired c
      → Step s (record s { pool = (acquire_section now s.pool).1 })
  reserve :
      (s : System) (now : ℕ)
      → (acquire_section now s.pool).0 ≡ open_new
      → Step s (record s { pool = (acquire_section now s.pool).1; opening = s.opening + 1 })
  ping_ok :
      (s : System) (xs ys : List Conn) (c : Conn)
      → s.pinging ≡ xs ++ (c ∷ ys)
      → Step s (record s { pinging = xs ++ ys; in_use = c ∷ s.in_use })
  ping_failed :
      (s : System) (xs ys : List Conn) (c : Conn)
      → s.pinging ≡ xs ++ (c ∷ ys)
      → Step s (record s { pinging = xs ++ ys; pool = give_back s.pool })
  open_ok :
      (s : System) (n : ℕ) (c : Conn)
      → s.opening ≡ suc n
      → Step s (record s { opening = n; in_use = c ∷ s.in_use })
  open_failed :
      (s : System) (n : ℕ)
      → s.opening ≡ suc n
      → Step s (record s { opening = n; pool = give_back s.pool })
  returned :
      (s : System) (malloc : Bool) (xs ys : List Conn) (c : Conn)
      → s.in_use ≡ xs ++ (c ∷ ys)
      → Step s (record s { in_use = xs ++ ys; pool = (release malloc c s.pool).1 })

-- The connections and slots outside of the idle list.
abbrev pub busy : System → ℕ
busy s = length s.pinging + s.opening + length s.in_use

abbrev pub Within : ℤ → ℕ → Type 0
Within (pos zero) n = Unit {0}
Within (pos (suc m)) n = n ≤ suc m
Within (negsuc m) n = Unit {0}

-- Every open connection is idle or busy, the idle ones are counted, and the limits are kept.
pub record IsConsistent (s : System) : Type 0 where
  pub all_open : s.pool.current_open ≡ length s.pool.idle + busy s
  pub all_idle : s.pool.idle_count ≡ length s.pool.idle
  pub open_limit : Within s.pool.config.max_open_conns s.pool.current_open
  pub idle_limit : Within s.pool.config.max_idle_conns s.pool.idle_count

Within-≤ : (z : ℤ) (m n : ℕ) → m ≤ n → Within z n → Within z m
Within-≤ (pos zero) m n h w = tt
Within-≤ (pos (suc k)) m n h w = omega arith
Within-≤ (negsuc k) m n h w = tt

Within-reached : (z : ℤ) (n : ℕ) → reached z n ≡ false → Within z (n + 1)
Within-reached (pos zero) n h = tt
Within-reached (pos (suc k)) n h = ground arith
Within-reached (negsuc k) n h = tt

length-middle : (xs ys : List Conn) (c : Conn) → length (xs ++ (c ∷ ys)) ≡ suc (length (xs ++ ys))
length-middle [] ys c = refl
length-middle (x ∷ xs) ys c = ap suc (length-middle xs ys c)

-- What the section does, by what it returns.
reuse_lem :
    (now : ℕ) (p : Pool) (c : Conn) (idle : List Conn)
    → (acquire_from now p idle).0 ≡ reuse c
    → (rest : List Conn) × (idle ≡ c ∷ rest)
      × ((acquire_from now p idle).1 ≡ record p { idle = rest; idle_count = p.idle_count - 1 })
unfolding acquire_from
reuse_lem now p c [] e = elim (Bool-cases (reached p.config.max_open_conns p.current_open)) [
  | inl h ↦ absurd (ground arith)
  | inr h ↦ absurd (ground arith)
]
reuse_lem now p c (c' ∷ rest) e = elim (Bool-cases (is_expired p.config now c')) [
  | inl h ↦ absurd (ground arith)
  | inr h ↦ (rest, ground arith, rw h refl)
]

expired_lem :
    (now : ℕ) (p : Pool) (c : Conn) (idle : List Conn)
    → (acquire_from now p idle).0 ≡ expired c
    → (rest : List Conn) × (idle ≡ c ∷ rest)
      × ((acquire_from now p idle).1 ≡ record p {
        idle = rest;
        idle_count = p.idle_count - 1;
        current_open = p.current_open - 1;
      })
unfolding acquire_from give_back
expired_lem now p c [] e = elim (Bool-cases (reached p.config.max_open_conns p.current_open)) [
  | inl h ↦ absurd (ground arith)
  | inr h ↦ absurd (ground arith)
]
expired_lem now p c (c' ∷ rest) e = elim (Bool-cases (is_expired p.config now c')) [
  | inl h ↦ (rest, ground arith, rw h refl)
  | inr h ↦ absurd (ground arith)
]

open_new_lem :
    (now : ℕ) (p : Pool) (idle : List Conn)
    → (acquire_from now p idle).0 ≡ open_new
    → (idle ≡ [])
      × (reached p.config.max_open_conns p.current_open ≡ false)
      × ((acquire_from now p idle).1 ≡ record p { current_open = p.current_open + 1 })
unfolding acquire_from
open_new_lem now p [] e = elim (Bool-cases (reached p.config.max_open_conns p.current_open)) [
  | inl h ↦ absurd (ground arith)
  | inr h ↦ (refl, h, rw h refl)
]
open_new_lem now p (c' ∷ rest) e = elim (Bool-cases (is_expired p.config now c')) [
  | inl h ↦ absurd (ground arith)
  | inr h ↦ absurd (ground arith)
]

-- A connection that a client gives back is closed or idle.
release-IsConsistent :
    (malloc : Bool) (c : Conn) (s : System) (left : List Conn)
    → length s.in_use ≡ suc (length left)
    → IsConsistent s
    → IsConsistent (record s { in_use = left; pool = (release malloc c s.pool).1 })
unfolding release give_back
release-IsConsistent malloc c s left n inv =
    let closed : IsConsistent (record s { in_use = left; pool = give_back s.pool }) = record {
      all_open = omega (arith, n, inv.all_open);
      all_idle = inv.all_idle;
      open_limit = Within-≤ _ _ s.pool.current_open (omega arith) inv.open_limit;
      idle_limit = inv.idle_limit;
    } in
    elim (Bool-cases (reached s.pool.config.max_idle_conns s.pool.idle_count)) [
      | inl h ↦ rw h closed
      | inr h ↦ elim (Bool-cases malloc) [
        | inr m ↦ rw (h, m) closed
        | inl m ↦
            rw (h, m)
              (record {
                all_open = omega (arith, n, inv.all_open);
                all_idle = omega (arith, inv.all_idle);
                open_limit = inv.open_limit;
                idle_limit = Within-reached _ s.pool.idle_count h;
              })
      ]
    ]

Within-zero : (z : ℤ) → Within z 0
Within-zero (pos zero) = tt
Within-zero (pos (suc k)) = omega arith
Within-zero (negsuc k) = tt

-- Each step keeps the system consistent.
pub Step-IsConsistent : {s t : System} → Step s t → IsConsistent s → IsConsistent t
unfolding give_back
Step-IsConsistent (take_idle s now c e) inv =
    let (rest, ei, ep) = reuse_lem now s.pool c s.pool.idle e in
    let n : length s.pool.idle ≡ suc (length rest) = ap length ei in
    rw ep (record {
      all_open = omega (arith, n, inv.all_open);
      all_idle = omega (arith, n, inv.all_idle);
      open_limit = inv.open_limit;
      idle_limit = Within-≤ _ _ s.pool.idle_count (omega arith) inv.idle_limit;
    })
Step-IsConsistent (drop_expired s now c e) inv =
    let (rest, ei, ep) = expired_lem now s.pool c s.pool.idle e in
    let n : length s.pool.idle ≡ suc (length rest) = ap length ei in
    rw ep (record {
      all_open = omega (arith, n, inv.all_open);
      all_idle = omega (arith, n, inv.all_idle);
      open_limit = Within-≤ _ _ s.pool.current_open (omega arith) inv.open_limit;
      idle_limit = Within-≤ _ _ s.pool.idle_count (omega arith) inv.idle_limit;
    })
Step-IsConsistent (reserve s now e) inv =
    let (ei, below, ep) = open_new_lem now s.pool s.pool.idle e in
    rw ep (record {
      all_open = omega (arith, inv.all_open);
      all_idle = inv.all_idle;
      open_limit = Within-reached _ s.pool.current_open below;
      idle_limit = inv.idle_limit;
    })
Step-IsConsistent (ping_ok s xs ys c e) inv =
    let n : length s.pinging ≡ suc (length (xs ++ ys)) = ap length e ∙ length-middle xs ys c in
    record {
      all_open = omega (arith, n, inv.all_open);
      all_idle = inv.all_idle;
      open_limit = inv.open_limit;
      idle_limit = inv.idle_limit;
    }
Step-IsConsistent (ping_failed s xs ys c e) inv =
    let n : length s.pinging ≡ suc (length (xs ++ ys)) = ap length e ∙ length-middle xs ys c in
    record {
      all_open = omega (arith, n, inv.all_open);
      all_idle = inv.all_idle;
      open_limit = Within-≤ _ _ s.pool.current_open (omega arith) inv.open_limit;
      idle_limit = inv.idle_limit;
    }
Step-IsConsistent (open_ok s n c e) inv = record {
  all_open = omega (arith, e, inv.all_open);
  all_idle = inv.all_idle;
  open_limit = inv.open_limit;
  idle_limit = inv.idle_limit;
}
Step-IsConsistent (open_failed s n e) inv = record {
  all_open = omega (arith, e, inv.all_open);
  all_idle = inv.all_idle;
  open_limit = Within-≤ _ _ s.pool.current_open (omega arith) inv.open_limit;
  idle_limit = inv.idle_limit;
}
Step-IsConsistent (returned s malloc xs ys c e) inv =
    release-IsConsistent malloc c s (xs ++ ys) (ap length e ∙ length-middle xs ys c) inv

-- The systems that the threads of a new pool reach.
pub data Reach (config : Config) : System → Type 0 where
  start : Reach config (record { pool = create config; pinging = []; opening = 0; in_use = [] })
  step : {s t : System} → Reach config s → Step s t → Reach config t

-- Whatever the threads of a new pool do and in whatever order: the open connections are the idle and
-- the busy ones, the idle ones are counted, and the numbers of open and of idle connections keep to their
-- limits.
pub Reach-IsConsistent : {config : Config} {s : System} → Reach config s → IsConsistent s
unfolding create
Reach-IsConsistent {config} start = record {
  all_open = refl;
  all_idle = refl;
  open_limit = Within-zero config.max_open_conns;
  idle_limit = Within-zero config.max_idle_conns;
}
Reach-IsConsistent (step r st) = Step-IsConsistent st (Reach-IsConsistent r)
