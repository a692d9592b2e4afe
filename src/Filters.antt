-- ===== src/Filters.antt =====
-- executor/extfilter.go: filters that come with a query, and the syntax they become.
pub mod Literals
pub mod Build
pub mod Predicate
pub mod Resolve
pub mod Inject
pub mod Apply
pub mod Meaning
pub mod Chains
pub mod Selects
pub mod Refines
pub mod Place
pub mod Arguments
pub mod Inserted
pub mod BaseTable
pub mod BaseFound
pub mod Wrapped
pub mod Ends
pub mod Typed
pub mod Single
pub mod Accepted
pub mod Steps
pub mod Outcome
use dux.Base.{ℕ, ℤ, Bool, Option, List, Text, codes, none, some}
use dux.Ast.{Position, Literal}

-- The dynamic type of a value decoded from JSON: the cases of the switch in literalFor. A float is
-- held as its bits, and `unsupported` stands for every type of the default case.
pub data Value : Type 0 where
  null : Value
  json_number : Text → Value
  float64 float32 : ℕ → Value
  int int32 int64 : ℤ → Value
  text : Text → Value
  boolean : Bool → Value
  unsupported : Value

pub record FilterColumn : Type 0 where
  pub table : Text
  pub column : Text

pub record ExternalFilter : Type 0 where
  pub table : Text
  pub column : Text
  pub op : Text
  pub values : List Value
  pub value : Value
  pub from : Value
  pub to : Value
  pub columns : List FilterColumn
  pub tuples : List (List Value)

-- The keys of validFilterOps.
pub data FilterOp : Type 0 where
  op_in op_between op_contains op_in_tuples op_eq op_ne op_lt op_le op_gt op_ge : FilterOp

pub record ResolvedColumn : Type 0 where
  pub table : Text
  pub column : Text
  pub numeric : Bool

-- resolvedFilter; a nil pointer is none
pub record ResolvedFilter : Type 0 where
  pub table : Text
  pub column : Text
  pub op : FilterOp
  pub numeric : Bool
  pub values : List Literal
  pub value : Option Literal
  pub from : Option Literal
  pub to : Option Literal
  pub columns : List ResolvedColumn
  pub tuples : List (List Literal)

-- The errors, by what they say.
pub data FilterError : Type 0 where
  not_numeric : Text → FilterError
  null_value : FilterError
  unsupported_value : FilterError
  table_and_column_required : FilterError
  unknown_table : FilterError
  unknown_column : FilterError
  unsupported_op : Text → FilterError
  values_required : FilterError
  from_and_to_required : FilterError
  value_required : Text → FilterError
  contains_on_numeric : FilterError
  columns_required : FilterError
  tuples_required : FilterError
  several_tables : Text → Text → FilterError
  tuple_length : ℕ → ℕ → ℕ → FilterError
  -- The part of the filter that the inner error is about.
  operand : Text → FilterError → FilterError
  column_number : ℕ → FilterError → FilterError
  tuple_value : ℕ → ℕ → FilterError → FilterError
  filter_number : ℕ → Text → Text → FilterError → FilterError
  -- The shape of the query.
  no_base_table : FilterError
  other_table : ℕ → Text → Text → FilterError

pub data Try {ℓ} (A : Type ℓ) : Type ℓ where
  ok : A → Try A
  err : FilterError → Try A

infixl 5 ◌>>=◌
abbrev pub ◌>>=◌ {ℓ κ} : {A : Type ℓ} {B : Type κ} → Try A → (A → Try B) → Try B
ok a >>= f = f a
err e >>= f = err e

-- The position of a node that the program makes.
abbrev pub nowhere : Position
nowhere = record { line = 0; column = 0 }
