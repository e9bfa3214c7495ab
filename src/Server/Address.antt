-- ===== src/Server/Address.antt =====
-- What the parser of connection strings reads back.
use corm.Base.{
  ℕ, ◌-◌, ◌<◌, ◌≤◌, ◌≡◌, refl, sym, ap, ◌∙◌, inl, inr, ◌⊎◌, arith, true, ◌&&◌, ◌==◌, [], ◌∷◌, ◌++◌,
  Option, none, some, if◌then◌else◌, ltb, leb, length, length-append, take, take_all, drop, Text,
  codes, nonempty, ℤ, pos, show, show-IsDigits, IsDigits, show_int, count_char, count_char-append,
  Bool-cases, append-nil,
}
use corm.Builder.{split_at}
use corm.Server.{
  Server, overlay, read_user, split_port, read_host, read_server, append_info, append_field,
  conninfo,
}

-- A text without the character, and what follows it.
split_at-first : (c : ℕ) (a b : Text) → count_char c a ≡ 0 → split_at c (a ++ (c ∷ b)) ≡ some (a, b)
unfolding split_at
split_at-first c [] b h = ground arith
split_at-first c (x ∷ a) b h = elim (Bool-cases (x == c)) [
  | inl e ↦ absurd (ground (arith, e, h))
  | inr e ↦
      let rest : count_char c a ≡ 0 = ground (arith, e, h) in
      rw (e, split_at) (rw (split_at-first c a b rest) refl)
]

split_at_missing : (c : ℕ) (a : Text) → count_char c a ≡ 0 → split_at c a ≡ none
unfolding split_at
split_at_missing c [] h = refl
split_at_missing c (x ∷ a) h = elim (Bool-cases (x == c)) [
  | inl e ↦ absurd (ground (arith, e, h))
  | inr e ↦
      let rest : count_char c a ≡ 0 = ground (arith, e, h) in
      rw (e, split_at) (rw (split_at_missing c a rest) refl)
]

count_char-IsDigits : (c : ℕ) (s : Text) → IsDigits s → (c < 48) ⊎ (57 < c) → count_char c s ≡ 0
count_char-IsDigits c [] d h = refl
count_char-IsDigits c (x ∷ s) d h = ground (arith, d.0, d.1, h, count_char-IsDigits c s d.2 h)

leb-true : (m n : ℕ) → m ≤ n → leb m n ≡ true
leb-true m n h = ground arith

ltb-true : (m n : ℕ) → m < n → ltb m n ≡ true
ltb-true m n h = ground arith

-- `user:pass@host:port/dbname`
abbrev pub formatted : (user pass host : Text) → ℕ → Text → Text
formatted user pass host port dbname =
    (user ++ (b':' ∷ pass)) ++ (b'@' ∷ ((host ++ (b':' ∷ show port)) ++ (b'/' ∷ dbname)))

module _ (atoi : Text → ℤ) (atoi-show : (n : ℕ) → n < 2_147_483_648 → atoi (show n) ≡ pos n) where
  read_user_lem :
      (d : Server) (user pass : Text)
      → count_char b':' user ≡ 0
      → length user < 256
      → length pass ≤ 255
      → read_user d (user ++ (b':' ∷ pass))
        ≡ some (record d { user = overlay user d.user; pass = pass })
  unfolding read_user
  read_user_lem d user pass plain short fits =
      rw (split_at-first b':' user pass plain, read_user)
        (rw (ltb-true (length user) 256 short, take_all 255 pass fits) refl)

  kept :
      (t d : Text)
      → 0 < length t
      → length t < 256
      → (if ltb 0 (length t) && ltb (length t) 256 then t else d) ≡ t
  kept t d h k = ground arith

  split_port_lem :
      (s : Server) (host : Text) (port : ℕ)
      → count_char b':' host ≡ 0
      → port < 2_147_483_648
      → split_port atoi (record s { host = host ++ (b':' ∷ show port) })
        ≡ record s { host = host; port = pos port }
  unfolding split_port
  split_port_lem s host port plain small =
      rw (split_at-first b':' host (show port) plain, split_port)
        (ap (λ (z : ℤ). let made : Server = record s { host = host; port = z } in made)
          (atoi-show port small))

  read_host_lem :
      (s : Server) (host : Text) (port : ℕ) (dbname : Text)
      → count_char b':' host ≡ 0
      → count_char b'/' host ≡ 0
      → length (host ++ (b':' ∷ show port)) < 256
      → length dbname ≤ 255
      → port < 2_147_483_648
      → read_host atoi s ((host ++ (b':' ∷ show port)) ++ (b'/' ∷ dbname))
        ≡ some (record s { host = host; port = pos port; dbname = dbname })
  unfolding read_host
  read_host_lem s host port dbname plain whole short fits small =
      let address = host ++ (b':' ∷ show port) in
      let digits : count_char b'/' (show port) ≡ 0 =
        count_char-IsDigits b'/' (show port) (show-IsDigits port) (inl (omega arith)) in
      let no_slash : count_char b'/' address ≡ 0 =
        omega (arith, count_char-append b'/' host (b':' ∷ show port), whole, digits) in
      let some_text : 0 < length address = omega (arith, length-append host (b':' ∷ show port)) in
      rw (split_at-first b'/' address dbname no_slash, read_host)
        (ap some (
          ap (λ (t : Text). split_port atoi (record s { dbname = take 255 dbname; host = t }))
            (kept address s.host some_text short)
          ∙ ap (λ (b : Text). split_port atoi (record s { dbname = b; host = address }))
              (take_all 255 dbname fits)
          ∙ split_port_lem (record s { dbname = dbname }) host port plain small))

  -- A connection string `user:pass@host:port/dbname` of at most 1022 characters, whose parts fit their buffers,
  -- whose user has no `:`, whose host no `:` or `/`, whose user and password no `@`, and whose port is an
  -- int, where atoi reads what decimal notation writes: the parser gives the password, host, port and
  -- database back, and as user the one given followed by what is left of a longer default.
  pub read_server_lem :
      (d : Server) (user pass host : Text) (port : ℕ) (dbname : Text)
      → count_char b':' user ≡ 0
      → count_char b'@' user ≡ 0
      → count_char b'@' pass ≡ 0
      → count_char b':' host ≡ 0
      → count_char b'/' host ≡ 0
      → length user < 256
      → length pass ≤ 255
      → length (host ++ (b':' ∷ show port)) < 256
      → length dbname ≤ 255
      → port < 2_147_483_648
      → length (formatted user pass host port dbname) < 1023
      → read_server atoi d (formatted user pass host port dbname)
        ≡ some (record {
          user = user ++ drop (length user) d.user;
          pass = pass;
          host = host;
          port = pos port;
          dbname = dbname;
        })
  unfolding read_server overlay
  read_server_lem d user pass host port dbname colon at_user at_pass host_colon host_slash u p h n
        small whole =
      let login = user ++ (b':' ∷ pass) in
      let no_at : count_char b'@' login ≡ 0 =
        omega (arith, count_char-append b'@' user (b':' ∷ pass), at_user, at_pass) in
      rw
        (
          ltb-true (length (formatted user pass host port dbname)) 1023 whole,
          split_at-first b'@' login ((host ++ (b':' ∷ show port)) ++ (b'/' ∷ dbname)) no_at,
          read_server,
        )
        (rw (read_user_lem d user pass colon u p) (
          read_host_lem (record d { user = overlay user d.user; pass = pass }) host port dbname
            host_colon host_slash h n small))

abbrev field_text : Text → Text → Text
field_text keyword value = if nonempty value then keyword ++ value else []

-- The keywords and values of a server, those without a value left out.
abbrev pub info_text : Server → Text
info_text s =
    (((codes "host=" ++ (s.host ++ (codes " port=" ++ show_int s.port)))
        ++ field_text (codes " dbname=") s.dbname)
      ++ field_text (codes " user=") s.user)
    ++ field_text (codes " password=") s.pass

-- A text that is in the buffer as a whole.
abbrev whole : Text → Option (Text × ℕ)
whole t = some (t, length t)

append_info-whole :
    (t piece : Text) → length (t ++ piece) < 1024 → append_info (whole t) piece ≡ whole (t ++ piece)
unfolding append_info
append_info-whole t piece h =
    let long = length-append t piece in
    rw
      (
        leb-true (length t) 1024 (omega (arith, long, h)),
        take_all (1024 - length t - 1) piece (omega (arith, long, h)),
        long,
      )
      refl

append_field-whole :
    (t keyword value : Text)
    → length (t ++ field_text keyword value) < 1024
    → append_field (whole t) keyword value ≡ whole (t ++ field_text keyword value)
unfolding append_field
append_field-whole t keyword [] h = ap (λ (r : Text). whole r) (sym (append-nil t))
append_field-whole t keyword (c ∷ value) h = append_info-whole t (keyword ++ (c ∷ value)) h

shorter : (a b : Text) → length (a ++ b) < 1024 → length a < 1024
shorter a b h = omega (arith, length-append a b, h)

-- When all keywords and values together are shorter than the buffer of 1024 bytes, PostgreSQL is given exactly
-- them: the host and the port, and the database, the user and the password where they are not empty.
pub conninfo_lem :
    (s : Server)
    → length (info_text s) < 1024
    → conninfo s ≡ some (info_text s, length (info_text s))
unfolding conninfo
conninfo_lem s h =
    let base = codes "host=" ++ (s.host ++ (codes " port=" ++ show_int s.port)) in
    let db = base ++ field_text (codes " dbname=") s.dbname in
    let user = db ++ field_text (codes " user=") s.user in
    let h₂ = shorter user (field_text (codes " password=") s.pass) h in
    let h₁ = shorter db (field_text (codes " user=") s.user) h₂ in
    let h₀ = shorter base (field_text (codes " dbname=") s.dbname) h₁ in
    ap
      (λ (o : Option (Text × ℕ)).
        append_field
          (append_field (append_field o (codes " dbname=") s.dbname) (codes " user=") s.user)
          (codes " password=") s.pass)
      (append_info-whole [] base h₀)
    ∙ ap
        (λ (o : Option (Text × ℕ)).
          append_field (append_field o (codes " user=") s.user) (codes " password=") s.pass)
        (append_field-whole base (codes " dbname=") s.dbname h₁)
    ∙ ap (λ (o : Option (Text × ℕ)). append_field o (codes " password=") s.pass)
        (append_field-whole db (codes " user=") s.user h₂)
    ∙ append_field-whole user (codes " password=") s.pass h
