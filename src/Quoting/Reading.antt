-- ===== src/Quoting/Reading.antt =====
-- Quoted values are read back as they were (src/bootstrap.go, src/db.go).
use pg_guard.Prelude.{
  ℕ, ◌≡◌, refl, ap, ◌∙◌, inl, inr, Bool-cases, Bool, true, false, Option, none, some, [], ◌∷◌, ◌++◌,
  Text, is_empty, append_assoc, is_empty-append, ◌==◌, if◌then◌else◌, arith,
}
use pg_guard.Quoting.{
  replace_byte, doubled, pg_ident, pg_literal, dsn_quote, double_quote, single_quote, backslash,
}

abbrev pub push : ℕ → Option (Text × Text) → Option (Text × Text)
push c none = none
push c (some (s, rest)) = some (c ∷ s, rest)

-- How SQL reads what follows an opening quote: two quotes stand for one, a single one ends the value.
-- The value and what follows it, or `none` if it has no end.
pub read_sql : ℕ → Text → Option (Text × Text)
read_sql q [] = none
read_sql q (c ∷ []) = if c == q then some ([], []) else none
read_sql q (c ∷ (d ∷ s)) =
    let inner = read_sql q s in
    let next = read_sql q (d ∷ s) in
    if c == q then (if d == q then push q inner else some ([], d ∷ s)) else push c next

-- The text does not begin with the quote.
abbrev pub ends_quote : ℕ → Text → Bool
ends_quote q [] = true
ends_quote q (c ∷ s) = if c == q then false else true

read_sql_pair : (q : ℕ) (t : Text) → read_sql q (q ∷ (q ∷ t)) ≡ push q (read_sql q t)
unfolding read_sql
read_sql_pair q t = ground arith

same_byte : (c q : ℕ) → (c == q) ≡ true → q ≡ c
same_byte c q h = ground (arith, h)

read_sql_other :
    (q c : ℕ) (t : Text)
    → (c == q) ≡ false
    → is_empty t ≡ false
    → read_sql q (c ∷ t) ≡ push c (read_sql q t)
unfolding read_sql
read_sql_other q c [] h n = absurd (ground (arith, n))
read_sql_other q c (d ∷ t) h n = ground (arith, h)

read_sql-replaced :
    (q : ℕ) (s rest : Text)
    → ends_quote q rest ≡ true
    → read_sql q (replace_byte q (doubled q) s ++ (q ∷ rest)) ≡ some (s, rest)
unfolding read_sql replace_byte
read_sql-replaced q [] [] h = ground arith
read_sql-replaced q [] (c ∷ rest) h = ground (arith, h)
read_sql-replaced q (c ∷ s) rest h =
    let u = replace_byte q (doubled q) s in
    let before = read_sql-replaced q s rest h in
    elim (Bool-cases (c == q)) [
      | inl same ↦ rw same (
          read_sql_pair q (u ++ (q ∷ rest))
          ∙ (ap (push q) before ∙ ap (λ x. some (x ∷ s, rest)) (same_byte c q same)))
      | inr other ↦ rw other (
          read_sql_other q c (u ++ (q ∷ rest)) other (is_empty-append u q rest)
          ∙ ap (push c) before)
    ]

-- What SQL makes of a text that begins with a quote: the value and what follows it.
abbrev pub sql_value : ℕ → Text → Option (Text × Text)
sql_value q [] = none
sql_value q (c ∷ s) = if c == q then read_sql q s else none

-- An identifier and a literal that the program puts into a statement are read back by SQL as the text
-- that was quoted, whatever it holds, and what follows the closing quote is left over, provided it
-- does not begin with the same quote.
pub sql_quoting_safe :
    (s rest : Text)
    → ends_quote double_quote rest ≡ true
    → ends_quote single_quote rest ≡ true
    → (sql_value double_quote (pg_ident s ++ rest) ≡ some (s, rest))
      × (sql_value single_quote (pg_literal s ++ rest) ≡ some (s, rest))
unfolding pg_ident pg_literal
sql_quoting_safe s rest hd hs = (
  rw (append_assoc (replace_byte double_quote (doubled double_quote) s) (double_quote ∷ []) rest)
      (read_sql-replaced double_quote s rest hd),
  rw (append_assoc (replace_byte single_quote (doubled single_quote) s) (single_quote ∷ []) rest)
      (read_sql-replaced single_quote s rest hs),
)

-- How libpq reads what follows an opening quote: a backslash stands before a byte that is taken as it
-- is, and a single quote ends the value.
pub read_dsn : Text → Option (Text × Text)
read_dsn [] = none
read_dsn (c ∷ []) = if c == single_quote then some ([], []) else none
read_dsn (c ∷ (d ∷ s)) =
    let inner = read_dsn s in
    let next = read_dsn (d ∷ s) in
    if c == backslash
    then push d inner
    else if c == single_quote
    then some ([], d ∷ s)
    else push c next

read_dsn_end : (rest : Text) → read_dsn (single_quote ∷ rest) ≡ some ([], rest)
unfolding read_dsn
read_dsn_end [] = refl
read_dsn_end (d ∷ rest) = refl

read_dsn_other :
    (c : ℕ) (t : Text)
    → (c == backslash) ≡ false
    → (c == single_quote) ≡ false
    → is_empty t ≡ false
    → read_dsn (c ∷ t) ≡ push c (read_dsn t)
unfolding read_dsn
read_dsn_other c [] h k n = absurd (ground (arith, n))
read_dsn_other c (d ∷ t) h k n = rw (h, k) refl

abbrev escape_quotes : Text → Text
escape_quotes s = replace_byte single_quote (backslash ∷ (single_quote ∷ [])) s

read_dsn-escaped :
    (s rest : Text)
    → read_dsn
        (escape_quotes (replace_byte backslash (doubled backslash) s) ++ (single_quote ∷ rest))
      ≡ some (s, rest)
unfolding read_dsn replace_byte
read_dsn-escaped [] rest = read_dsn_end rest
read_dsn-escaped (c ∷ s) rest =
    let u = escape_quotes (replace_byte backslash (doubled backslash) s) in
    let before = read_dsn-escaped s rest in
    elim (Bool-cases (c == backslash)) [
      | inl escape ↦
          rw escape (
            ap (push backslash) before
            ∙ ap (λ x. some (x ∷ s, rest)) (same_byte c backslash escape))
      | inr plain ↦ elim (Bool-cases (c == single_quote)) [
        | inl ending ↦
            rw (plain, ending)
              (ap (push single_quote) before
                ∙ ap (λ x. some (x ∷ s, rest)) (same_byte c single_quote ending))
        | inr other ↦
            rw (plain, other)
              (read_dsn_other c (u ++ (single_quote ∷ rest)) plain other
                  (is_empty-append u single_quote rest)
                ∙ ap (push c) before)
      ]
    ]

-- What libpq makes of a text that begins with a quote.
abbrev pub dsn_value : Text → Option (Text × Text)
dsn_value [] = none
dsn_value (c ∷ s) = if c == single_quote then read_dsn s else none

-- A value that is quoted for a connection string is read back by libpq as it was, whatever it holds
-- and whatever follows it.
pub dsn_quoting_safe : (s rest : Text) → dsn_value (dsn_quote s ++ rest) ≡ some (s, rest)
unfolding dsn_quote
dsn_quoting_safe s rest =
    rw
      (append_assoc (escape_quotes (replace_byte backslash (doubled backslash) s))
        (single_quote ∷ []) rest)
      (read_dsn-escaped s rest)
