-- ===== src/Pool.antt =====
-- src/internal/pool.c: a pool of connections. What one call does under one hold of the lock is one
-- function; between them other threads run (Steps). The counters are natural numbers.
-- A limit that is not positive is no limit. The condition variable is not modelled: neither the signals nor
-- the threads that sleep on it.
pub mod Steps
pub mod Acquire
pub mod Unblocks
mod Tests
use corm.Base.{
  ℕ, zero, suc, ◌+◌, ◌-◌, Bool, true, false, ◌&&◌, List, [], ◌∷◌, Option, none, some, if◌then◌else◌,
  leb, ltb, ℤ, pos, negsuc, is_positive, to_index, Err, ok, err_generic, err_nomem, is_ok,
}

-- What the pool reads of a session: its number, and when it was opened.
pub record Conn : Type 0 where
  pub id : ℕ
  pub created_at_ms : ℕ

pub record Config : Type 0 where
  pub max_open_conns : ℤ
  pub max_idle_conns : ℤ
  pub conn_max_lifetime_ms : ℤ
  pub timeout_ms : ℤ

-- `struct corm_pool`; `idle` is the linked list from `idle_head`.
pub record Pool : Type 0 where
  pub config : Config
  pub current_open : ℕ
  pub idle_count : ℕ
  pub idle : List Conn

-- `limit > 0 && n >= limit`
abbrev pub reached : ℤ → ℕ → Bool
reached (pos zero) n = false
reached (pos (suc m)) n = leb (suc m) n
reached (negsuc m) n = false

-- `corm_pool_create`, of zeroed memory.
unfoldable pub create : Config → Pool
create config = record { config = config; current_open = 0; idle_count = 0; idle = [] }

unfoldable pub is_expired : Config → ℕ → Conn → Bool
is_expired config now c = elim config.conn_max_lifetime_ms [
  | pos n ↦ ltb 0 n && leb (c.created_at_ms + n) now
  | negsuc _ ↦ false
]

-- `current_open--`, behind a ping or an open that failed.
unfoldable pub give_back : Pool → Pool
give_back p = record p { current_open = p.current_open - 1 }

-- What a thread leaves the lock with.
pub data Taken : Type 0 where
  waits : Taken
  reuse : Conn → Taken
  expired : Conn → Taken
  open_new : Taken

-- From the lock to the first unlock of `corm_pool_acquire`, on the idle list: with no idle connection the
-- thread waits at the limit and opens below it.
unfoldable pub acquire_from : ℕ → Pool → List Conn → Taken × Pool
unfolding is_expired give_back
acquire_from now p [] =
    if reached p.config.max_open_conns p.current_open
    then (waits, p)
    else (open_new, record p { current_open = p.current_open + 1 })
acquire_from now p (c ∷ rest) =
    let p' = record p { idle = rest; idle_count = p.idle_count - 1 } in
    if is_expired p.config now c then (expired c, give_back p') else (reuse c, p')

abbrev pub acquire_section : ℕ → Pool → Taken × Pool
acquire_section now p = acquire_from now p p.idle

-- `corm_pool_release`; `malloc` says whether the node can be had.
unfoldable pub release : Bool → Conn → Pool → Err × Pool
unfolding give_back
release malloc c p =
    if reached p.config.max_idle_conns p.idle_count
    then (ok, give_back p)
    else if malloc
    then (ok, record p { idle = c ∷ p.idle; idle_count = p.idle_count + 1 })
    else (err_nomem, give_back p)

-- The do-while loop of at most three attempts; `attempt n` is the outcome of the attempt number `n`.
unfoldable pub open_loop : (ℕ → Err × Conn) → ℕ → ℕ → Err × Conn
open_loop attempt zero retried = attempt retried
open_loop attempt (suc left) retried =
    let rest = open_loop attempt left (retried + 1) in
    if is_ok (attempt retried).0 then attempt retried else rest

-- How a call of `corm_pool_acquire` ends when no other thread runs: `spent` is out of fuel.
pub data Outcome : Type 0 where
  lent : Conn → Pool → Outcome
  refused : Err → Pool → Outcome
  blocked : Pool → Outcome
  spent : Outcome

module _ (now : ℕ) (ping : Conn → Bool) (attempt : ℕ → Err × Conn) where
  -- Each round of `retry_acquire` takes one unit of fuel.
  unfoldable pub acquire : ℕ → Pool → Outcome
  unfolding acquire_from open_loop
  acquire zero p = spent
  acquire (suc fuel) p =
      let taken = acquire_section now p in
      let again = acquire fuel taken.1 in
      let again_closed = acquire fuel (give_back taken.1) in
      elim taken.0 [
        | waits ↦ (if is_positive p.config.timeout_ms then refused err_generic p else blocked p)
        | expired _ ↦ again
        | reuse c ↦ if ping c then lent c taken.1 else again_closed
        | open_new ↦
            (let opened = open_loop attempt 2 0 in
              if is_ok opened.0
              then lent opened.1 taken.1
              else refused opened.0 (give_back taken.1))
      ]

-- The loop of `corm_pool_destroy`: the connections that it closes, newest first.
unfoldable pub destroy_loop : List Conn → List Conn → List Conn
destroy_loop [] closed = closed
destroy_loop (c ∷ rest) closed = destroy_loop rest (c ∷ closed)

-- `corm_pool_destroy`
unfoldable pub destroy : Pool → List Conn
unfolding destroy_loop
destroy p = destroy_loop p.idle []
