-- ===== src/Pool/Tests.antt =====
-- The pool at concrete systems.
use corm.Base.{ℕ, ◌*◌, refl, [], ◌∷◌, pos}
use corm.Pool.{Conn, Config, create, acquire_from}
use corm.Pool.Steps.{System, reserve, open_ok, Reach, start, step, IsConsistent, Reach-IsConsistent}
use corm.Pool.Unblocks.{Unblocks, Reach-Unblocks}

-- Two connections at most, one of them idle, and a life of ten milliseconds.
abbrev small : Config
small = record {
  max_open_conns = pos 2;
  max_idle_conns = pos 1;
  conn_max_lifetime_ms = pos 10;
  timeout_ms = pos 0;
}

abbrev conn : ℕ → Conn
conn n = record { id = n; created_at_ms = n * 10 }

abbrev opening_one : System
opening_one = record {
  pool = record { config = small; current_open = 1; idle_count = 0; idle = [] };
  pinging = [];
  opening = 1;
  in_use = [];
}

abbrev using_one : System
using_one = record opening_one { opening = 0; in_use = conn 1 ∷ [] }

opening_one-Reach : Reach small opening_one
unfolding create acquire_from
opening_one-Reach = step start (reserve _ 3 refl)

using_one-Reach : Reach small using_one
using_one-Reach = step opening_one-Reach (open_ok opening_one 0 (conn 1) refl)

Reach-IsConsistent_example : IsConsistent using_one
Reach-IsConsistent_example = Reach-IsConsistent using_one-Reach

abbrev opening_two : System
opening_two = record {
  pool = record { config = small; current_open = 2; idle_count = 0; idle = [] };
  pinging = [];
  opening = 1;
  in_use = conn 1 ∷ [];
}

-- At its limit, with one connection in use and one being opened.
opening_two-Reach : Reach small opening_two
unfolding acquire_from
opening_two-Reach = step using_one-Reach (reserve using_one 3 refl)

Reach-Unblocks_example : Unblocks opening_two
Reach-Unblocks_example = Reach-Unblocks opening_two-Reach
