-- ===== src/Filters/Literals.antt =====
-- literalFor (executor/extfilter.go).
use dux.Base.{
  ℕ, ℤ, Bool, List, [], ◌∷◌, ◌++◌, Text, codes, to_lower, starts_with, any, if◌then◌else◌,
}
use dux.Ast.{Literal, string, number}
use dux.Filters.{
  Value, null, json_number, float64, float32, int, int32, int64, text, boolean, unsupported, Try,
  ok, err, not_numeric, null_value, unsupported_value,
}

-- What the code uses of packages strconv and strings.
pub record Strconv : Type 0 where
  -- FormatFloat(x, 'f', -1, 64) and (x, 'f', -1, 32)
  pub format_float64 : ℕ → Text
  pub format_float32 : ℕ → Text
  -- FormatInt(x, 10)
  pub format_int : ℤ → Text
  -- ParseFloat(s, 64) gives no error
  pub parses_float : Text → Bool
  pub trim_space : Text → Text

abbrev pub numeric_types : List Text
numeric_types =
    codes "TINYINT"
    ∷ codes "SMALLINT"
    ∷ codes "INTEGER"
    ∷ codes "BIGINT"
    ∷ codes "HUGEINT"
    ∷ codes "UTINYINT"
    ∷ codes "USMALLINT"
    ∷ codes "UINTEGER"
    ∷ codes "UBIGINT"
    ∷ codes "DOUBLE"
    ∷ codes "FLOAT"
    ∷ codes "REAL"
    ∷ codes "DECIMAL"
    ∷ codes "NUMERIC"
    ∷ []

-- numericTypeRe.MatchString
unfoldable pub is_numeric_type : Text → Bool
is_numeric_type data_type = any (λ t. starts_with (to_lower data_type) (to_lower t)) numeric_types

-- str: the raw token of a string, with its quotes
unfoldable pub str : Text → Literal
str s = string (34 ∷ (s ++ 34 ∷ []))

module _ (sc : Strconv) where
  -- The case of a string.
  unfoldable pub literal_of_text : Text → Bool → Try Literal
  unfolding str
  literal_of_text t numeric =
      let n = sc.trim_space t in
      if numeric
      then (if sc.parses_float n then ok (number n) else err (not_numeric t))
      else ok (str t)

  -- literalFor
  unfoldable pub literal_for : Value → Bool → Try Literal
  unfolding literal_of_text
  literal_for (json_number t) numeric = literal_of_text t numeric
  literal_for (float64 x) numeric =
      if numeric then ok (number (sc.format_float64 x)) else ok (str (sc.format_float64 x))
  literal_for (int x) numeric = literal_of_text (sc.format_int x) numeric
  literal_for (int32 x) numeric = literal_of_text (sc.format_int x) numeric
  literal_for (int64 x) numeric = literal_of_text (sc.format_int x) numeric
  literal_for (float32 x) numeric = literal_of_text (sc.format_float32 x) numeric
  literal_for (text t) numeric = literal_of_text t numeric
  literal_for (boolean b) numeric = ok (Literal.boolean (if b then codes "TRUE" else codes "FALSE"))
  literal_for null numeric = err null_value
  literal_for unsupported numeric = err unsupported_value
