-- ===== src/Result.antt =====
-- semantic.SemanticError: each message of the semantic pass is a constructor over the values that
-- the message shows. A call that may fail returns a `Result`.
use dux.Base.{List, Text, ◌≡◌, refl, ◌⊎◌, inl, inr}

pub data Error : Type 0 where
  -- ambiguous table; qualify it as one of
  ambiguous_table : Text → List Text → Error
  -- AmbiguousPathError: ambiguous relationship path between tables
  ambiguous_path : Text → Text → Error
  -- no relationship path between tables
  no_path : Text → Text → Error
  -- ambiguous relationship graph: connected by more than one path
  ambiguous_graph : Text → Text → Error
  -- measure name already defined in table
  measure_defined : Text → Text → Error
  -- ambiguous measure reference: defined in both tables
  ambiguous_measure : Text → Text → Text → Error
  -- circular measure reference
  circular_measure : Text → Text → Error
  unknown_measure : Text → Error
  unknown_table : Text → Error
  unknown_column : Text → Text → Error

pub data Result {ℓ} (A : Type ℓ) : Type ℓ where
  ok : A → Result A
  err : Error → Result A

infixl 5 ◌>>=◌
abbrev pub ◌>>=◌ {ℓ κ} : {A : Type ℓ} {B : Type κ} → Result A → (A → Result B) → Result B
ok a >>= f = f a
err e >>= f = err e

pub Result-cases {ℓ} :
    {A : Type ℓ} (r : Result A) → ((a : A) × (r ≡ ok a)) ⊎ ((e : Error) × (r ≡ err e))
Result-cases (ok a) = inl (a, refl)
Result-cases (err e) = inr (e, refl)

pub ok-injective {ℓ} : {A : Type ℓ} {a b : A} → ok a ≡ ok b → a ≡ b
ok-injective h = cc
