-- ===== src/Migration/Missing.antt =====
-- Which columns of a model a table lacks, by the description that the driver gives of it.
use corm.Base.{
  ◌≡◌, refl, sym, ◌∙◌, ◌⊎◌, inl, inr, true, false, List, [], ◌∷◌, Option, none, some, Bool-cases,
  Option-cases, map, Text, text_eq, text_eq_refl, eq_of_text_eq, Err, is_ok,
}
use corm.Model.{Field, Model, name_of, has_flag, flag_primary}
use corm.Session.{Db, Backend, exec}
use corm.Migration.{alter_sql, has_column, skips, describe, alter_loop}
use corm.Migration.Statements.{run_all}

-- `x` stands in the list.
abbrev pub Among : Text → List Text → Type 0
Among x [] = ⊥
Among x (y ∷ ys) = (y ≡ x) ⊎ Among x ys

-- The field is a primary key, or its column stands in the table's description, where there is one.
abbrev pub Present : Option (List Text) → Field → Type 0
Present none f = has_flag flag_primary f ≡ true
Present (some cs) f = (has_flag flag_primary f ≡ true) ⊎ Among (name_of f.name) cs

-- The fields of the first list that are not present, in their order, are the second list.
pub data Missing (existing : Option (List Text)) : List Field → List Field → Type 0 where
  done : Missing existing [] []
  kept :
      (f : Field) (fs out : List Field)
      → Present existing f
      → Missing existing fs out
      → Missing existing (f ∷ fs) out
  added :
      (f : Field) (fs out : List Field)
      → ¬ Present existing f
      → Missing existing fs out
      → Missing existing (f ∷ fs) (f ∷ out)

-- What is known of a table's columns when the driver was asked, and the session behind that.
pub data Described {W : Type 0} (B : Backend W) (db : Db W) (table : Text)
    : Option (List Text) → Db W → Type 0 where
  cannot_tell : B.describe_table ≡ none → Described B db table none db
  failed :
      (ask : Text → Db W → Err × Option (List Text) × Db W) (err : Err)
      (existing : Option (List Text)) (db₁ : Db W)
      → B.describe_table ≡ some ask
      → ask table db ≡ (err, existing, db₁)
      → is_ok err ≡ false
      → Described B db table none db₁
  told :
      (ask : Text → Db W → Err × Option (List Text) × Db W) (err : Err)
      (existing : Option (List Text)) (db₁ : Db W)
      → B.describe_table ≡ some ask
      → ask table db ≡ (err, existing, db₁)
      → is_ok err ≡ true
      → Described B db table existing db₁

has_column-Among : (name : Text) (cs : List Text) → Among name cs → has_column name cs ≡ true
unfolding has_column
has_column-Among name [] h = elim h [ ]
has_column-Among name (c ∷ cs) (inl e) = rw (e, text_eq_refl name) refl
has_column-Among name (c ∷ cs) (inr h) = elim (Bool-cases (text_eq c name)) [
  | inl e ↦ rw e refl
  | inr e ↦ rw e (has_column-Among name cs h)
]

Among-has_column : (name : Text) (cs : List Text) → has_column name cs ≡ true → Among name cs
unfolding has_column
Among-has_column name [] h = absurd (cc h)
Among-has_column name (c ∷ cs) h = elim (Bool-cases (text_eq c name)) [
  | inl e ↦ inl (eq_of_text_eq c name e)
  | inr e ↦
      let rest : has_column name (c ∷ cs) ≡ has_column name cs = rw e refl in
      inr (Among-has_column name cs (sym rest ∙ h))
]

Present-skips :
    (existing : Option (List Text)) (f : Field) → skips existing f ≡ true → Present existing f
unfolding skips
Present-skips none f h = elim (Bool-cases (has_flag flag_primary f)) [
  | inl e ↦ e
  | inr e ↦ let rest : skips none f ≡ false = rw e refl in absurd (cc (rest, h))
]
Present-skips (some cs) f h = elim (Bool-cases (has_flag flag_primary f)) [
  | inl e ↦ inl e
  | inr e ↦
      let rest : skips (some cs) f ≡ has_column (name_of f.name) cs = rw e refl in
      inr (Among-has_column (name_of f.name) cs (sym rest ∙ h))
]

skips-Present :
    (existing : Option (List Text)) (f : Field) → Present existing f → skips existing f ≡ true
unfolding skips
skips-Present none f h = rw h refl
skips-Present (some cs) f (inl h) = rw h refl
skips-Present (some cs) f (inr h) = elim (Bool-cases (has_flag flag_primary f)) [
  | inl e ↦ rw e refl
  | inr e ↦ rw e (has_column-Among (name_of f.name) cs h)
]

absent_of_skips :
    (existing : Option (List Text)) (f : Field) → skips existing f ≡ false → ¬ Present existing f
absent_of_skips existing f e = λ h. let s = skips-Present existing f h in cc (e, s)

module _ {W : Type 0} (B : Backend W) where
  pub describe-Described :
      (db : Db W) (table : Text)
      → (existing : Option (List Text)) × (db₁ : Db W) × Described B db table existing db₁
        × (describe B db table ≡ (existing, db₁))
  unfolding describe
  describe-Described db table = elim (Option-cases B.describe_table) [
    | inl e ↦ (none, db, cannot_tell e, rw e refl)
    | inr (ask, e) ↦
        let answer = ask table db in
        elim (Bool-cases (is_ok answer.0)) [
          | inl good ↦ (
            answer.1,
            answer.2,
            told ask answer.0 answer.1 answer.2 e refl good,
            rw (e, good) refl,
          )
          | inr bad ↦
              (none, answer.2, failed ask answer.0 answer.1 answer.2 e refl bad, rw (e, bad) refl)
        ]
  ]

  pub alter_loop-Missing :
      (m : Model) (existing : Option (List Text)) (db : Db W) (fs : List Field)
      → (out : List Field) × Missing existing fs out
        × (alter_loop B m existing db fs ≡ run_all B db (map (alter_sql B.type m) out))
  unfolding alter_loop run_all
  alter_loop-Missing m existing db [] = ([], done, refl)
  alter_loop-Missing m existing db (f ∷ fs) = elim (Bool-cases (skips existing f)) [
    | inl e ↦
        let (out, missing, same) = alter_loop-Missing m existing db fs in
        (out, kept f fs out (Present-skips existing f e) missing, rw (e, alter_loop) same)
    | inr e ↦
        let (out, missing, same) =
          alter_loop-Missing m existing (exec B db (alter_sql B.type m f)).1 fs in
        (f ∷ out, added f fs out (absent_of_skips existing f e) missing, rw (e, alter_loop) same)
  ]
