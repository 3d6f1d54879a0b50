-- ===== src/Queries/Values.antt =====
-- What libpq reads where a value stands in a connection string: quoted by dsnQuote (src/db.go),
-- plain, or a number.
use Prim.Native.Nat.{◌%◌, ◌/◌}
use mathlib.Core.List.{append-nil}
use pg_guard.Prelude.{
  ℕ, zero, suc, ℤ, ◌+◌, Bool, true, false, not, ◌||◌, [], ◌∷◌, ◌++◌, ◌≡◌, refl, ap, ◌∙◌, inl, inr,
  Bool-cases, ==_iff, Text, append_assoc, is_empty, All, ◌==◌, is_space, ltb, if◌then◌else◌, arith,
}
use pg_guard.Quoting.{replace_byte, doubled, dsn_quote}
use pg_guard.Queries.{digits, itoa}
use pg_guard.Queries.Conninfo.{
  Pairs, Mode, step_in, between, before_value, bare, quoted, Reader, read_from,
}

abbrev pub at : Pairs → Mode → Reader
at ps m = record { pairs = ps; mode = m }

abbrev pub add : Pairs → Text → Text → Pairs
add ps key value = ps ++ ((key, value) ∷ [])

read_from-append : (r : Reader) (s t : Text) → read_from r (s ++ t) ≡ read_from (read_from r s) t
unfolding read_from
read_from-append r [] t = refl
read_from-append r (c ∷ s) t = read_from-append (step_in r.mode c r.pairs) s t

abbrev dsn_escaped : Text → Text
dsn_escaped v = replace_byte 39 (92 ∷ (39 ∷ [])) (replace_byte 92 (doubled 92) v)

append_one : (a : Text) (c : ℕ) (b : Text) → (a ++ (c ∷ [])) ++ b ≡ a ++ (c ∷ b)
append_one [] c b = refl
append_one (x ∷ a) c b = ap (λ s. x ∷ s) (append_one a c b)

abbrev escape_byte : ℕ → Text
escape_byte c = if c == 92 then 92 ∷ (92 ∷ []) else if c == 39 then 92 ∷ (39 ∷ []) else c ∷ []

escaped-cons : (c : ℕ) (v : Text) → dsn_escaped (c ∷ v) ≡ escape_byte c ++ dsn_escaped v
unfolding replace_byte
escaped-cons c v = ground arith

step_in-quoted :
    (key acc : Text) (ps : Pairs) (c : ℕ)
    → (c == 92) ≡ false
    → (c == 39) ≡ false
    → step_in (quoted key acc) c ps ≡ at ps (quoted key (acc ++ (c ∷ [])))
step_in-quoted key acc ps c n m = rw (m, n) refl

-- Reading what one byte became puts that byte to the value.
read_from-escape_byte :
    (key acc t : Text) (ps : Pairs) (c : ℕ)
    → read_from (at ps (quoted key acc)) (escape_byte c ++ t)
      ≡ read_from (at ps (quoted key (acc ++ (c ∷ [])))) t
unfolding read_from
read_from-escape_byte key acc t ps c = elim (Bool-cases (c == 92)) [
  | inl e ↦ rw ((==_iff c 92).0 e) refl
  | inr n ↦ elim (Bool-cases (c == 39)) [
    | inl e ↦ rw ((==_iff c 39).0 e) refl
    | inr m ↦ rw (n, m) (ap (λ r. read_from r t) (step_in-quoted key acc ps c n m))
  ]
]

-- A quoted value is read as it was, and what follows is read between two pairs.
read_from-escaped :
    (key acc v rest : Text) (ps : Pairs)
    → read_from (at ps (quoted key acc)) (dsn_escaped v ++ (39 ∷ rest))
      ≡ read_from (at (add ps key (acc ++ v)) between) rest
unfolding read_from replace_byte
read_from-escaped key acc [] rest ps = rw (append-nil acc) refl
read_from-escaped key acc (c ∷ v) rest ps =
    rw
      (
        escaped-cons c v,
        append_assoc (escape_byte c) (dsn_escaped v) (39 ∷ rest),
        read_from-escape_byte key acc (dsn_escaped v ++ (39 ∷ rest)) ps c,
        read_from-escaped key (acc ++ (c ∷ [])) v rest ps,
        append_one acc c v,
      )
      refl

-- The same for a value with its quotes.
pub read_from-dsn_quote :
    (key v rest : Text) (ps : Pairs)
    → read_from (at ps (before_value key)) (dsn_quote v ++ rest)
      ≡ read_from (at (add ps key v) between) rest
unfolding read_from dsn_quote
read_from-dsn_quote key v rest ps =
    rw (append_assoc (dsn_escaped v) (39 ∷ []) rest) (read_from-escaped key [] v rest ps)

-- A byte that stands for itself in a value without quotes.
abbrev pub is_plain : ℕ → Bool
is_plain c = not (is_space c || (c == 92 || c == 39))

abbrev pub Plain : Text → Type 0
Plain v = All (λ c. is_plain c ≡ true) v × (is_empty v ≡ false)

step_in-bare :
    (key acc : Text) (ps : Pairs) (c : ℕ)
    → is_plain c ≡ true
    → step_in (bare key acc) c ps ≡ at ps (bare key (acc ++ (c ∷ [])))
step_in-bare key acc ps c h = ground arith

step_in-before_value :
    (key : Text) (ps : Pairs) (c : ℕ)
    → is_plain c ≡ true
    → step_in (before_value key) c ps ≡ at ps (bare key (c ∷ []))
step_in-before_value key ps c h = ground arith

read_from-bare :
    (key acc v rest : Text) (ps : Pairs)
    → All (λ c. is_plain c ≡ true) v
    → read_from (at ps (bare key acc)) (v ++ (32 ∷ rest))
      ≡ read_from (at (add ps key (acc ++ v)) between) rest
unfolding read_from
read_from-bare key acc [] rest ps h = rw (append-nil acc) refl
read_from-bare key acc (c ∷ v) rest ps h =
    ap (λ r. read_from r (v ++ (32 ∷ rest))) (step_in-bare key acc ps c h.0)
    ∙ rw (read_from-bare key (acc ++ (c ∷ [])) v rest ps h.1, append_one acc c v) refl

pub read_from-Plain :
    (key v rest : Text) (ps : Pairs)
    → Plain v
    → read_from (at ps (before_value key)) (v ++ (32 ∷ rest))
      ≡ read_from (at (add ps key v) between) rest
unfolding read_from
read_from-Plain key [] rest ps h = absurd (ground (arith, h))
read_from-Plain key (c ∷ v) rest ps h =
    ap (λ r. read_from r (v ++ (32 ∷ rest))) (step_in-before_value key ps c h.0.0)
    ∙ read_from-bare key (c ∷ []) v rest ps h.0.1

digit_plain : (n : ℕ) → is_plain (48 + n % 10) ≡ true
digit_plain n = ground arith

digits-All :
    (fuel n : ℕ) (s : Text)
    → All (λ c. is_plain c ≡ true) s
    → All (λ c. is_plain c ≡ true) (digits fuel n s)
unfolding digits
digits-All zero n s h = h
digits-All (suc fuel) n s h = elim (Bool-cases (ltb n 10)) [
  | inl last ↦ rw last (digit_plain n, h)
  | inr more ↦ rw more (digits-All fuel (n / 10) ((48 + n % 10) ∷ s) (digit_plain n, h))
]

digits_any : (fuel n d : ℕ) (s : Text) → is_empty (digits fuel n (d ∷ s)) ≡ false
unfolding digits
digits_any zero n d s = refl
digits_any (suc fuel) n d s = elim (Bool-cases (ltb n 10)) [
  | inl last ↦ rw last refl
  | inr more ↦ rw more (digits_any fuel (n / 10) (48 + n % 10) (d ∷ s))
]

digits-Plain : (fuel n : ℕ) → Plain (digits (suc fuel) n [])
unfolding digits
digits-Plain fuel n = (digits-All (suc fuel) n [] tt, filled)
  where
    filled : is_empty (digits (suc fuel) n []) ≡ false
    filled = elim (Bool-cases (ltb n 10)) [
      | inl last ↦ rw last refl
      | inr more ↦ rw more (digits_any fuel (n / 10) (48 + n % 10) [])
    ]

pub itoa-Plain : (z : ℤ) → Plain (itoa z)
unfolding itoa
itoa-Plain (ℤ.pos n) = digits-Plain 19 n
itoa-Plain (ℤ.negsuc n) = ((refl, (digits-Plain 19 (suc n)).0), refl)
