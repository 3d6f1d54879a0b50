-- ===== src/Quoting.antt =====
-- Values quoted for SQL and for libpq's connection strings (pgIdent and pgLiteral of
-- src/bootstrap.go, dsnQuote of src/db.go).
pub mod Reading
use pg_guard.Prelude.{ℕ, List, [], ◌∷◌, ◌++◌, Text, ◌==◌, if◌then◌else◌}

-- strings.ReplaceAll of one byte by two.
unfoldable pub replace_byte : ℕ → Text → Text → Text
replace_byte b by [] = []
replace_byte b by (c ∷ s) =
    let rest = replace_byte b by s in if c == b then by ++ rest else c ∷ rest

abbrev pub double_quote : ℕ
double_quote = 34

abbrev pub single_quote : ℕ
single_quote = 39

abbrev pub backslash : ℕ
backslash = 92

abbrev pub doubled : ℕ → Text
doubled q = q ∷ (q ∷ [])

abbrev pub enclosed : ℕ → Text → Text
enclosed q s = q ∷ (s ++ (q ∷ []))

unfoldable pub pg_ident : Text → Text
unfolding replace_byte
pg_ident s = enclosed double_quote (replace_byte double_quote (doubled double_quote) s)

unfoldable pub pg_literal : Text → Text
unfolding replace_byte
pg_literal s = enclosed single_quote (replace_byte single_quote (doubled single_quote) s)

unfoldable pub dsn_quote : Text → Text
unfolding replace_byte
dsn_quote s = enclosed single_quote (
    replace_byte single_quote (backslash ∷ (single_quote ∷ []))
      (replace_byte backslash (doubled backslash) s))
