-- ===== src/Query/Chain.antt =====
-- Chains of builder calls: where a placeholder is a plain `?`, a query has as many of them as parameters.
use corm.Base.{
  ℕ, ◌+◌, ◌≡◌, refl, ap, sym, subst, ◌∙◌, arith, Bool, true, false, List, [], ◌∷◌, ◌++◌, All,
  Option, none, some, length, length-append, Bool-cases, inl, inr, Text, codes, count_char,
  count_char-append, BackendType, sqlite, mysql, postgres,
}
use corm.Dialect.{placeholder_str, quote}
use corm.Model.{Model, is_identifier_char, is_valid_identifier}
use corm.Model.Identifier.{count-is_valid_identifier}
use corm.Query.{
  Query, op_update, new, next_placeholder, backend_type, bind, and_where, or_where, with_field,
  where_null, where_not_null, append_bound, in_loop, where_in, where_between, set_field, order_by,
  glued, and_glue,
}
use corm.Query.Memory.{Served, bound, bind-bound, appended, append_bound-appended}
use corm.Value.{Value}

-- The calls of a chain. A condition of the client comes with the values that it binds behind it.
pub data Call : Type 0 where
  both either : Text → List Value → Call
  null not_null : Option Text → Call
  among : Option Text → List Value → Call
  between : Option Text → Value → Value → Call
  assign : Option Text → Value → Call
  ordered : Option Text → Call

unfoldable pub bind_each : Query → List Value → Query
bind_each q [] = q
bind_each q (v ∷ vals) = bind_each (bind q v) vals

unfoldable pub call : Query → Call → Query
unfolding bind_each
call q (both condition vals) = bind_each (and_where q condition) vals
call q (either condition vals) = bind_each (or_where q condition) vals
call q (null field) = where_null q field
call q (not_null field) = where_not_null q field
call q (among field vals) = where_in q field vals
call q (between field low high) = where_between q field low high
call q (assign field val) = set_field q field val
call q (ordered order) = order_by q order

unfoldable pub chain : Query → List Call → Query
chain q [] = q
chain q (c ∷ calls) = chain (call q c) calls

-- A condition of the client has a `?` for each of its values.
abbrev pub WellCounted : Call → Type 0
WellCounted (both condition vals) = count_char b'?' condition ≡ length vals
WellCounted (either condition vals) = count_char b'?' condition ≡ length vals
WellCounted (null field) = Unit
WellCounted (not_null field) = Unit
WellCounted (among field vals) = Unit
WellCounted (between field low high) = Unit
WellCounted (assign field val) = Unit
WellCounted (ordered order) = Unit

-- As many placeholders as parameters, and each one a plain `?`.
pub record Even (q : Query) : Type 0 where
  pub balanced : count_char b'?' q.where_clause + count_char b'?' q.set_clause ≡ length q.params
  pub served : Served q
  pub plain : (i : ℕ) → placeholder_str (backend_type q) i 16 ≡ codes "?"

count-glued :
    (glue clause t : Text)
    → count_char b'?' glue ≡ 0
    → count_char b'?' (glued glue clause t) ≡ count_char b'?' clause + count_char b'?' t
count-glued glue [] t h = omega arith
count-glued glue (c ∷ clause) t h =
    omega (arith, count_char-append b'?' (c ∷ clause) (glue ++ t), count_char-append b'?' glue t, h)

-- Text without a placeholder behind the condition.
Even-text :
    (q : Query) (t : Text)
    → count_char b'?' t ≡ 0
    → Even q
    → Even (record q { where_clause = q.where_clause ++ t })
Even-text q t h e = record {
  balanced = omega (arith, count_char-append b'?' q.where_clause t, h, e.balanced);
  plain = e.plain;
  served = e.served;
}

Even-and_where : (q : Query) (t : Text) → count_char b'?' t ≡ 0 → Even q → Even (and_where q t)
unfolding and_where
Even-and_where q t h e = record {
  balanced = omega (arith, count-glued and_glue q.where_clause t refl, h, e.balanced);
  plain = e.plain;
  served = e.served;
}

Even-appended : (q : Query) (v : Value) → Even q → Even (appended q v)
Even-appended q v e = record {
  balanced =
      ap (λ (t : Text). count_char b'?' (q.where_clause ++ t) + count_char b'?' q.set_clause)
        (e.plain (length q.params))
      ∙ omega (
        arith,
        count_char-append b'?' q.where_clause (codes "?"),
        length-append q.params (v ∷ []),
        e.balanced,
      );
  plain = e.plain;
  served = e.served;
}

Even-append_bound : (q : Query) (v : Value) → Even q → Even (append_bound q v)
Even-append_bound q v e =
    subst Even (sym (append_bound-appended q v e.served)) (Even-appended q v e)

Even-in_loop : (first : Bool) (q : Query) (vals : List Value) → Even q → Even (in_loop first q vals)
unfolding in_loop
Even-in_loop first q [] e = e
Even-in_loop true q (v ∷ vals) e =
    Even-in_loop false _ vals (Even-append_bound _ v (Even-text q [] refl e))
Even-in_loop false q (v ∷ vals) e =
    Even-in_loop false _ vals (Even-append_bound _ v (Even-text q (codes ", ") refl e))

-- A field that is not valid leaves the query alone.
Even-with_field :
    (q : Query) (field : Option Text) (k : Text → Query)
    → Even q
    → ((f : Text) → is_valid_identifier (some f) ≡ true → Even (k f))
    → Even (with_field q field k)
Even-with_field q none k e h = e
Even-with_field q (some f) k e h = elim (Bool-cases (is_valid_identifier (some f))) [
  | inl valid ↦ rw valid (h f valid)
  | inr invalid ↦ rw invalid e
]

no_mark : (f : Text) → is_valid_identifier (some f) ≡ true → count_char b'?' f ≡ 0
unfolding is_identifier_char
no_mark f h = count-is_valid_identifier b'?' f refl h

-- Text behind a valid field.
no_mark-behind :
    (f t : Text)
    → is_valid_identifier (some f) ≡ true
    → count_char b'?' t ≡ 0
    → count_char b'?' (f ++ t) ≡ 0
no_mark-behind f t h g = omega (arith, count_char-append b'?' f t, no_mark f h, g)

no_mark-quote : (bt : BackendType) (f : Text) → count_char b'?' (quote bt f) ≡ 0
unfolding quote
no_mark-quote sqlite f = refl
no_mark-quote mysql f = refl
no_mark-quote postgres f = refl

-- What a query is short of is bound.
Even-bind_each :
    (q : Query) (vals : List Value)
    → count_char b'?' q.where_clause + count_char b'?' q.set_clause ≡ length q.params + length vals
    → ((i : ℕ) → placeholder_str (backend_type q) i 16 ≡ codes "?")
    → Served q
    → Even (bind_each q vals)
unfolding bind_each
Even-bind_each q [] h p k = record { balanced = omega (arith, h); plain = p; served = k }
Even-bind_each q (v ∷ vals) h p k =
    subst (λ (s : Query). Even (bind_each s vals)) (sym (bind-bound q v k))
      (Even-bind_each (bound q v) vals (omega (arith, h, length-append q.params (v ∷ []))) p k)

Even-set_field : (q : Query) (field : Option Text) (v : Value) → Even q → Even (set_field q field v)
unfolding set_field
Even-set_field q field v e = Even-with_field q field _ e (λ f h.
    let assigned : Query = record q {
      set_clause =
          glued (codes ", ") q.set_clause
            (mark f ++ (f ++ (mark f ++ (codes " = " ++ next_placeholder q))));
    } in
    subst (λ (s : Query). Even (record s { op = op_update })) (sym (bind-bound assigned v e.served))
      (record {
        balanced =
            ap
              (λ (t : Text).
                count_char b'?' q.where_clause
                + count_char b'?' (
                    glued (codes ", ") q.set_clause
                      (mark f ++ (f ++ (mark f ++ (codes " = " ++ t))))))
              (e.plain (length q.params))
            ∙ omega (
              arith,
              count-glued (codes ", ") q.set_clause (mark f ++ (f ++ (mark f ++ codes " = ?")))
                  refl,
              count_char-append b'?' (mark f) (f ++ (mark f ++ codes " = ?")),
              count_char-append b'?' f (mark f ++ codes " = ?"),
              count_char-append b'?' (mark f) (codes " = ?"),
              no_mark f h,
              no_mark-quote (backend_type q) f,
              length-append q.params (v ∷ []),
              e.balanced,
            );
        plain = e.plain;
        served = e.served;
      }))
  where
    mark : Text → Text
    mark f = quote (backend_type q) f

Even-call : (q : Query) (c : Call) → WellCounted c → Even q → Even (call q c)
unfolding call where_null where_not_null where_in where_between order_by and_where or_where
Even-call q (both t vals) h e =
    Even-bind_each (and_where q t) vals
      (omega (arith, count-glued and_glue q.where_clause t refl, h, e.balanced)) e.plain e.served
Even-call q (either t vals) h e =
    Even-bind_each (or_where q t) vals
      (omega (arith, count-glued (codes " OR ") q.where_clause t refl, h, e.balanced)) e.plain
      e.served
Even-call q (null field) h e =
    Even-with_field q field _ e
      (λ f v. Even-and_where q (f ++ codes " IS NULL") (no_mark-behind f _ v refl) e)
Even-call q (not_null field) h e =
    Even-with_field q field _ e
      (λ f v. Even-and_where q (f ++ codes " IS NOT NULL") (no_mark-behind f _ v refl) e)
Even-call q (among field []) h e = e
Even-call q (among field (val ∷ vals)) h e = Even-with_field q field _ e (λ f v.
    Even-text _ (codes ")") refl (
      Even-in_loop true _ (val ∷ vals)
        (Even-and_where q (f ++ codes " IN (") (no_mark-behind f _ v refl) e)))
Even-call q (between field low high) h e = Even-with_field q field _ e (λ f v.
    Even-append_bound _ high (
      Even-text _ and_glue refl (
        Even-append_bound _ low
          (Even-and_where q (f ++ codes " BETWEEN ") (no_mark-behind f _ v refl) e))))
Even-call q (assign field val) h e = Even-set_field q field val e
Even-call q (ordered none) h e = e
Even-call q (ordered (some s)) h e = record {
  balanced = e.balanced;
  plain = e.plain;
  served = e.served;
}

-- Where the placeholders of the backend are plain `?`, as on SQLite and MySQL: along any chain of calls that
-- add conditions, assignments and an order, in which every condition of the client comes with a value for each
-- of its `?`, the condition and the SET clause of the query together have as many `?` as it has parameters, if
-- they had before, the array of parameters can grow to any capacity, and memory for the texts is served. Fields
-- may be NULL or no identifiers.
pub chain-Even :
    (q : Query) (calls : List Call) → All WellCounted calls → Even q → Even (chain q calls)
unfolding chain
chain-Even q [] h e = e
chain-Even q (c ∷ calls) h e = chain-Even (call q c) calls h.1 (Even-call q c h.0 e)

-- A new query on SQLite has neither placeholders nor parameters.
pub new-Even :
    (realloc : ℕ → Bool) (model : Model)
    → ((n : ℕ) → realloc n ≡ true)
    → Even (new realloc (some sqlite) model)
unfolding new placeholder_str
new-Even realloc model h = record { balanced = refl; plain = λ i. refl; served = h }
