-- ===== src/Base/Dicts.antt =====
-- Go maps with string keys as association lists, in the order in which a loop over the map runs.
use mathlib.Core.Bool.{Bool, false, ◌||◌}
use mathlib.Core.List.{List, [], ◌∷◌}
use mathlib.Core.Option.{Option, none, some}
use mathlib.Core.Path.{◌≡◌, refl}
use native.Mathlib.Omega.{arith}
use dux.Base.Tests.{if◌then◌else◌}
use dux.Base.Texts.{Text, ◌==◌, eq_iff}

abbrev pub Dict {ℓ} : Type ℓ → Type ℓ
Dict V = List (Text × V)

module _ {ℓ} {V : Type ℓ} where
  -- m[key], with none where the key is missing
  unfoldable pub lookup : Text → Dict V → Option V
  lookup key [] = none
  lookup key ((k, held) ∷ rest) = if k == key then some held else lookup key rest

  -- m[key] = new
  unfoldable pub insert : Text → V → Dict V → Dict V
  insert key new [] = (key, new) ∷ []
  insert key new ((k, held) ∷ rest) =
      let kept = (k, held) ∷ insert key new rest in if k == key then (key, new) ∷ rest else kept

  -- delete(m, key)
  unfoldable pub delete : Text → Dict V → Dict V
  delete key [] = []
  delete key ((k, held) ∷ rest) =
      let others = delete key rest in if k == key then others else (k, held) ∷ others

  pub lookup-insert :
      (key other : Text) (new : V) (dict : Dict V)
      → lookup other (insert key new dict) ≡ (if key == other then some new else lookup other dict)
  unfolding lookup insert
  lookup-insert key other new [] = refl
  lookup-insert key other new ((k, held) ∷ rest) =
      ground
        (arith, lookup-insert key other new rest, eq_iff k other, eq_iff key other, eq_iff k key)

  pub lookup-delete :
      (key other : Text) (dict : Dict V)
      → lookup other (delete key dict) ≡ (if key == other then none else lookup other dict)
  unfolding lookup delete
  lookup-delete key other [] = ground arith
  lookup-delete key other ((k, held) ∷ rest) =
      ground (arith, lookup-delete key other rest, eq_iff k other, eq_iff key other, eq_iff k key)

-- A set of strings: map[string]bool, all of whose values are true.
unfoldable pub mem : Text → List Text → Bool
mem k [] = false
mem k (x ∷ xs) = x == k || mem k xs
