-- ===== src/Pool/Acquire.antt =====
-- One call of `corm_pool_acquire` with no other thread on the pool.
use corm.Base.{
  ℕ, zero, suc, ◌+◌, ◌-◌, ◌<◌, ◌≡◌, refl, ap, ap₂, ◌∙◌, Bool, true, false, List, [], ◌∷◌, ◌++◌,
  length, arith, inl, inr, Bool-cases, Err, ◌⊎◌, All,
}
use corm.Pool.{
  Pool, Conn, reached, is_expired, give_back, acquire_section, acquire_from, release, Taken, reuse,
  expired, acquire, lent,
}

-- A connection that a call does not hand out: too old, or dead.
abbrev pub Unusable : Pool → ℕ → (Conn → Bool) → Conn → Type 0
Unusable p now ping c = (is_expired p.config now c ≡ true) ⊎ (ping c ≡ false)

-- The pool when `n` connections of the idle list have been closed, and `rest` are left.
abbrev pub dropped : Pool → ℕ → List Conn → Pool
dropped p n rest = record p {
  idle = rest;
  idle_count = p.idle_count - n;
  current_open = p.current_open - n;
}

section_reuse :
    (now : ℕ) (p : Pool) (c : Conn) (rest : List Conn)
    → p.idle ≡ c ∷ rest
    → is_expired p.config now c ≡ false
    → acquire_section now p ≡ (reuse c, record p { idle = rest; idle_count = p.idle_count - 1 })
unfolding acquire_from
section_reuse now p c rest e h = ap (acquire_from now p) e ∙ rw h refl

section_expired :
    (now : ℕ) (p : Pool) (c : Conn) (rest : List Conn)
    → p.idle ≡ c ∷ rest
    → is_expired p.config now c ≡ true
    → acquire_section now p ≡ (expired c, dropped p 1 rest)
unfolding acquire_from give_back
section_expired now p c rest e h = ap (acquire_from now p) e ∙ rw h refl

-- A round on an unusable connection closes it and starts again.
acquire_drops :
    (now : ℕ) (ping : Conn → Bool) (attempt : ℕ → Err × Conn) (fuel : ℕ) (p : Pool) (c : Conn)
    (rest : List Conn)
    → p.idle ≡ c ∷ rest
    → Unusable p now ping c
    → acquire now ping attempt (suc fuel) p ≡ acquire now ping attempt fuel (dropped p 1 rest)
unfolding acquire give_back
acquire_drops now ping attempt fuel p c rest e u = elim (Bool-cases (is_expired p.config now c)) [
  | inl h ↦
      rw (section_expired now p c rest e h, acquire)
        (ap (λ (t : Taken × Pool). acquire now ping attempt fuel t.1)
          (section_expired now p c rest e h))
  | inr h ↦
      let dead : ping c ≡ false = elim u [ inl x ↦ cc | inr x ↦ x ] in
      rw (section_reuse now p c rest e h, dead, acquire)
        (ap (λ (t : Taken × Pool). acquire now ping attempt fuel (give_back t.1))
          (section_reuse now p c rest e h))
]

lent-counts :
    (p : Pool) (c : Conn) (rest : List Conn) {n n' k k' : ℕ}
    → n ≡ n'
    → k ≡ k'
    → lent c (record p { idle = rest; idle_count = n; current_open = k })
      ≡ lent c (record p { idle = rest; idle_count = n'; current_open = k' })
lent-counts p c rest en ek =
    ap₂ (λ (a b : ℕ). lent c (record p { idle = rest; idle_count = a; current_open = b })) en ek

-- With unusable connections in front of a usable one on the idle list, and fuel for a round on each: the
-- call ends, hands out the usable one, and has closed and uncounted exactly those in front of it.
pub acquire_reuses :
    (now : ℕ) (ping : Conn → Bool) (attempt : ℕ → Err × Conn) (fuel : ℕ) (p : Pool)
    (bad : List Conn) (c : Conn) (rest : List Conn)
    → p.idle ≡ bad ++ (c ∷ rest)
    → All (Unusable p now ping) bad
    → is_expired p.config now c ≡ false
    → ping c ≡ true
    → length bad < fuel
    → acquire now ping attempt fuel p
      ≡ lent c (record p {
        idle = rest;
        idle_count = p.idle_count - (length bad + 1);
        current_open = p.current_open - length bad;
      })
unfolding acquire
acquire_reuses now ping attempt zero p bad c rest e u fresh alive h = absurd (omega arith)
acquire_reuses now ping attempt (suc fuel) p [] c rest e u fresh alive h =
    rw (section_reuse now p c rest e fresh, alive, acquire)
      (ap (λ (t : Taken × Pool). lent c t.1) (section_reuse now p c rest e fresh)
        ∙ lent-counts p c rest (omega arith) (omega arith))
acquire_reuses now ping attempt (suc fuel) p (b ∷ bad) c rest e u fresh alive h =
    acquire_drops now ping attempt fuel p b (bad ++ (c ∷ rest)) e u.0
    ∙ (acquire_reuses now ping attempt fuel (dropped p 1 (bad ++ (c ∷ rest))) bad c rest refl u.1
          fresh alive (omega arith)
        ∙ lent-counts p c rest (omega arith) (omega arith))

-- A connection given back below the limit on idle connections, with memory at hand, is the next that is
-- handed out while it is not too old, and the pool is then as it was before.
pub acquire_section-release :
    (now : ℕ) (p : Pool) (c : Conn)
    → reached p.config.max_idle_conns p.idle_count ≡ false
    → is_expired p.config now c ≡ false
    → acquire_section now (release true c p).1 ≡ (reuse c, p)
unfolding release acquire_from
acquire_section-release now p c room fresh =
    let same : p.idle_count + 1 - 1 ≡ p.idle_count = omega arith in
    rw (room, fresh)
      (ap (λ (n : ℕ). let out : Taken × Pool = (reuse c, record p { idle_count = n }) in out) same)
