-- ===== src/StmtCache/Links.antt =====
-- Doubly linked lists in memory: what it means that the `next` and `prev` fields link a list of addresses,
-- and what taking a node out and putting one in front do to them.
use corm.Base.{
  ◌≡◌, ◌≢◌, refl, sym, subst, ◌∙◌, false, List, [], ◌∷◌, ◌++◌, ◌==◌, if◌then◌else◌, All, arith,
}
use corm.StmtCache.{Ptr, null, put_at}

-- From `p` the `next` fields lead through the list to NULL.
abbrev pub Fwd : (Ptr → Ptr) → Ptr → List Ptr → Type 0
Fwd next p [] = p ≡ null
Fwd next p (a ∷ nodes) = (p ≡ a) × (a ≢ null) × Fwd next (next a) nodes

-- The `prev` field of each is the one before it, `q` before the first; the last is `l`.
abbrev pub Bwd : (Ptr → Ptr) → Ptr → Ptr → List Ptr → Type 0
Bwd prev q l [] = l ≡ q
Bwd prev q l (a ∷ nodes) = (prev a ≡ q) × Bwd prev a l nodes

abbrev pub Out : Ptr → List Ptr → Type 0
Out a nodes = All (λ b. a ≢ b) nodes

abbrev pub NoDup : List Ptr → Type 0
NoDup [] = Unit {0}
NoDup (a ∷ nodes) = Out a nodes × NoDup nodes

abbrev pub last_of : Ptr → List Ptr → Ptr
last_of q [] = q
last_of q (x ∷ xs) = last_of x xs

abbrev pub first_of : List Ptr → Ptr
first_of [] = null
first_of (x ∷ xs) = x

pub put_at_self {ℓ} : {A : Type ℓ} (f : Ptr → A) (p : Ptr) (v : A) → put_at f p v p ≡ v
put_at_self f p v = ground arith

pub put_at_ne {ℓ} : {A : Type ℓ} (f : Ptr → A) (p q : Ptr) (v : A) → p ≢ q → put_at f p v q ≡ f q
put_at_ne f p q v h = ground arith

-- A change outside of a list's nodes.
abbrev pub Same : (f g : Ptr → Ptr) → List Ptr → Type 0
Same f g nodes = All (λ a. g a ≡ f a) nodes

pub put_at-Same :
    (f : Ptr → Ptr) (p v : Ptr) (nodes : List Ptr) → Out p nodes → Same f (put_at f p v) nodes
put_at-Same f p v [] o = tt
put_at-Same f p v (a ∷ nodes) o = (put_at_ne f p a v o.0, put_at-Same f p v nodes o.1)

pub Fwd-Same :
    (f g : Ptr → Ptr) (p : Ptr) (nodes : List Ptr) → Same f g nodes → Fwd f p nodes → Fwd g p nodes
Fwd-Same f g p [] s h = h
Fwd-Same f g p (a ∷ nodes) s h = (h.0, h.1, rw s.0 (Fwd-Same f g (f a) nodes s.1 h.2))

pub Bwd-Same :
    (f g : Ptr → Ptr) (q l : Ptr) (nodes : List Ptr)
    → Same f g nodes
    → Bwd f q l nodes
    → Bwd g q l nodes
Bwd-Same f g q l [] s h = h
Bwd-Same f g q l (a ∷ nodes) s h = (s.0 ∙ h.0, Bwd-Same f g a l nodes s.1 h.1)

Out-last_of : (a q : Ptr) (nodes : List Ptr) → a ≢ q → Out a nodes → a ≢ last_of q nodes
Out-last_of a q [] h o = h
Out-last_of a q (x ∷ xs) h o = Out-last_of a x xs o.0 o.1

Out-append : (a : Ptr) (xs ys : List Ptr) → Out a xs → Out a ys → Out a (xs ++ ys)
Out-append a [] ys h k = k
Out-append a (x ∷ xs) ys h k = (h.0, Out-append a xs ys h.1 k)

pub Out-left : (a : Ptr) (xs ys : List Ptr) → Out a (xs ++ ys) → Out a xs
Out-left a [] ys o = tt
Out-left a (x ∷ xs) ys o = (o.0, Out-left a xs ys o.1)

pub Out-right : (a : Ptr) (xs ys : List Ptr) → Out a (xs ++ ys) → Out a ys
Out-right a [] ys o = o
Out-right a (x ∷ xs) ys o = Out-right a xs ys o.1

-- A list without repetitions stays one when a node in its middle moves to its front.
pub NoDup-middle :
    (xs : List Ptr) (a : Ptr) (ys : List Ptr) → NoDup (xs ++ (a ∷ ys)) → NoDup (a ∷ (xs ++ ys))
NoDup-middle [] a ys n = n
NoDup-middle (x ∷ xs) a ys n =
    let (out, rest) = NoDup-middle xs a ys n.1 in
    let ahead = Out-right x xs (a ∷ ys) n.0 in
    (((λ e. ahead.0 (sym e)), out), (Out-append x xs ys (Out-left x xs (a ∷ ys) n.0) ahead.1, rest))

pub Fwd-middle :
    (next : Ptr → Ptr) (p : Ptr) (xs : List Ptr) (a : Ptr) (ys : List Ptr)
    → Fwd next p (xs ++ (a ∷ ys))
    → (a ≢ null) × Fwd next (next a) ys
Fwd-middle next p [] a ys h = (h.1, h.2)
Fwd-middle next p (x ∷ xs) a ys h = Fwd-middle next (next x) xs a ys h.2

pub Fwd-first_of :
    (next : Ptr → Ptr) (p : Ptr) (nodes : List Ptr) → Fwd next p nodes → p ≡ first_of nodes
Fwd-first_of next p [] h = h
Fwd-first_of next p (a ∷ nodes) h = h.0

pub Fwd-last_of :
    (next : Ptr → Ptr) (p x : Ptr) (xs ys : List Ptr)
    → Fwd next p (x ∷ (xs ++ ys))
    → last_of x xs ≢ null
Fwd-last_of next p x [] ys h = h.1
Fwd-last_of next p x (y ∷ xs) ys h = Fwd-last_of next (next x) y xs ys h.2

pub Bwd-middle :
    (prev : Ptr → Ptr) (q l : Ptr) (xs : List Ptr) (a : Ptr) (ys : List Ptr)
    → Bwd prev q l (xs ++ (a ∷ ys))
    → prev a ≡ last_of q xs
Bwd-middle prev q l [] a ys h = h.0
Bwd-middle prev q l (x ∷ xs) a ys h = Bwd-middle prev x l xs a ys h.1

pub Bwd-right :
    (prev : Ptr → Ptr) (q l : Ptr) (xs ys : List Ptr)
    → Bwd prev q l (xs ++ ys)
    → Bwd prev (last_of q xs) l ys
Bwd-right prev q l [] ys h = h
Bwd-right prev q l (x ∷ xs) ys h = Bwd-right prev x l xs ys h.1

pub Bwd-left :
    (prev : Ptr → Ptr) (q l : Ptr) (xs ys : List Ptr)
    → Bwd prev q l (xs ++ ys)
    → Bwd prev q (last_of q xs) xs
Bwd-left prev q l [] ys h = refl
Bwd-left prev q l (x ∷ xs) ys h = (h.0, Bwd-left prev x l xs ys h.1)

pub Bwd-append :
    (prev : Ptr → Ptr) (q m l : Ptr) (xs ys : List Ptr)
    → Bwd prev q m xs
    → Bwd prev m l ys
    → Bwd prev q l (xs ++ ys)
Bwd-append prev q m l [] ys h k = rw (← h) k
Bwd-append prev q m l (x ∷ xs) ys h k = (h.0, Bwd-append prev x m l xs ys h.1 k)

pub Bwd-last_of :
    (prev : Ptr → Ptr) (q l : Ptr) (nodes : List Ptr) → Bwd prev q l nodes → l ≡ last_of q nodes
Bwd-last_of prev q l [] h = h
Bwd-last_of prev q l (a ∷ nodes) h = Bwd-last_of prev a l nodes h.1

-- The node before `a` is made to lead to the one behind it.
pub Fwd-unlink :
    (next : Ptr → Ptr) (p x : Ptr) (xs : List Ptr) (a : Ptr) (ys : List Ptr)
    → NoDup (x ∷ (xs ++ (a ∷ ys)))
    → Fwd next p (x ∷ (xs ++ (a ∷ ys)))
    → Fwd (put_at next (last_of x xs) (next a)) p (x ∷ (xs ++ ys))
Fwd-unlink next p x [] a ys n h = (
  h.0,
  h.1,
  rw (put_at_self next x (next a))
      (Fwd-Same next _ _ ys (put_at-Same next x (next a) ys n.0.1) h.2.2),
)
Fwd-unlink next p x (y ∷ xs) a ys n h =
    let apart : last_of y xs ≢ x =
      λ e. Out-last_of x y xs n.0.0 (Out-left x xs (a ∷ ys) n.0.1) (sym e) in
    (
      h.0,
      h.1,
      rw (put_at_ne next (last_of y xs) x (next a) apart)
          (Fwd-unlink next (next x) y xs a ys n.1 h.2),
    )

-- The node behind `a` is made to follow the one before it.
pub Bwd-unlink :
    (prev : Ptr → Ptr) (q l : Ptr) (xs : List Ptr) (a b : Ptr) (ys : List Ptr)
    → NoDup (xs ++ (a ∷ b ∷ ys))
    → Bwd prev q l (xs ++ (a ∷ b ∷ ys))
    → Bwd (put_at prev b (prev a)) q l (xs ++ (b ∷ ys))
Bwd-unlink prev q l xs a b ys n h =
    let short : NoDup (xs ++ (b ∷ ys)) = (NoDup-middle xs a (b ∷ ys) n).1 in
    let out : Out b (xs ++ ys) = (NoDup-middle xs b ys short).0 in
    let behind = Bwd-right prev q l xs (a ∷ b ∷ ys) h in
    Bwd-append (put_at prev b (prev a)) q (last_of q xs) l xs (b ∷ ys)
      (Bwd-Same prev _ q _ xs (put_at-Same prev b (prev a) xs (Out-left b xs ys out))
        (Bwd-left prev q l xs (a ∷ b ∷ ys) h))
      (
        put_at_self prev b (prev a) ∙ behind.0,
        Bwd-Same prev _ b l ys (put_at-Same prev b (prev a) ys (Out-right b xs ys out)) behind.1.1,
      )

-- The last of a list without repetitions is not a node before it.
pub last_of-middle :
    (xs : List Ptr) (a b : Ptr) (ys : List Ptr) → NoDup (xs ++ (a ∷ b ∷ ys)) → a ≢ last_of b ys
last_of-middle xs a b ys n =
    let out = Out-right a xs (b ∷ ys) (NoDup-middle xs a (b ∷ ys) n).0 in
    Out-last_of a b ys out.0 out.1

-- `prev` and the tail when `a` comes in front of a list with the head `h`.
abbrev pub fronted : (Ptr → Ptr) → Ptr → Ptr → Ptr → Ptr
fronted prev h a = if h == null then put_at prev a null else put_at (put_at prev a null) h a

abbrev pub tail_after : Ptr → Ptr → List Ptr → Ptr
tail_after a l [] = a
tail_after a l (_ ∷ _) = l

pub front-Fwd :
    (next : Ptr → Ptr) (h a : Ptr) (nodes : List Ptr)
    → a ≢ null
    → Out a nodes
    → Fwd next h nodes
    → Fwd (put_at next a h) a (a ∷ nodes)
front-Fwd next h a nodes solid out k = (
  refl,
  solid,
  rw (put_at_self next a h) (Fwd-Same next _ h nodes (put_at-Same next a h nodes out) k),
)

pub front-Bwd :
    (prev next : Ptr → Ptr) (h l a : Ptr) (nodes : List Ptr)
    → NoDup nodes
    → Out a nodes
    → Fwd next h nodes
    → Bwd prev null l nodes
    → Bwd (fronted prev h a) null (tail_after a l nodes) (a ∷ nodes)
front-Bwd prev next h l a [] n out f b = (ground (arith, f), refl)
front-Bwd prev next h l a (x ∷ nodes) n out f b =
    let e : (x == null) ≡ false = ground (arith, f.1) in
    let old : Same prev (put_at prev a null) nodes = put_at-Same prev a null nodes out.1 in
    let new : Same (put_at prev a null) (put_at (put_at prev a null) x a) nodes =
      put_at-Same (put_at prev a null) x a nodes n.0 in
    let same : fronted prev h a ≡ put_at (put_at prev a null) x a = rw (f.0, e) refl in
    subst (λ (p : Ptr → Ptr). Bwd p null l (a ∷ x ∷ nodes)) (sym same)
      (
        put_at_ne (put_at prev a null) x a a (λ i. out.0 (sym i)) ∙ put_at_self prev a null,
        (
          put_at_self (put_at prev a null) x a,
          Bwd-Same _ _ x l nodes new (Bwd-Same prev _ x l nodes old b.1),
        ),
      )
