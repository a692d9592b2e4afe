-- ===== src/Format/Valid.antt =====
-- Validate (semantic/format.go): the formats that it accepts.
use dux.Base.{
  ℤ, true, false, Option, none, some, [], Text, codes, length, ◌≤◌, ◌==◌, eq_iff, nat_eq,
  nat_eq_iff, below, above, any, if◌then◌else◌, ◌≡◌, ◌≢◌, ◌↔◌, ◌⊎◌, refl, arith,
}
use dux.Schema.{MeasureFormat}
use dux.Format.{currency_required, currency_not_allowed, format_kinds, is_out_of_range, validate}

-- No decimals, or between 0 and 10.
unfoldable pub IsShort : Option ℤ → Type 0
IsShort none = Unit {0}
IsShort (some (ℤ.pos n)) = n ≤ 10
IsShort (some (ℤ.negsuc n)) = 1 ≤ 0

unfoldable pub IsCurrency : MeasureFormat → Type 0
IsCurrency f =
    ((f.kind ≡ codes "currency") × (length f.currency ≡ 3))
    ⊎ ((f.kind ≢ codes "currency") × (f.currency ≡ []))

unfoldable pub IsKind : Text → Type 0
IsKind t =
    (codes "number" ≡ t)
    ⊎ (codes "decimal" ≡ t)
    ⊎ (codes "percent" ≡ t)
    ⊎ (codes "currency" ≡ t)
    ⊎ (codes "compact" ≡ t)

IsKind-iff : (t : Text) → (any (λ k. k == t) format_kinds ≡ true) ↔ IsKind t
unfolding any IsKind
IsKind-iff t = ground (
  arith,
  eq_iff (codes "number") t,
  eq_iff (codes "decimal") t,
  eq_iff (codes "percent") t,
  eq_iff (codes "currency") t,
  eq_iff (codes "compact") t,
)

in_range_iff : (d : Option ℤ) → (is_out_of_range d ≡ false) ↔ IsShort d
unfolding is_out_of_range IsShort below above
in_range_iff none = (λ _. tt, λ _. refl)
in_range_iff (some (ℤ.pos n)) = ground arith
in_range_iff (some (ℤ.negsuc n)) = ground arith

currency_iff :
    (f : MeasureFormat)
    → ((if f.kind == codes "currency"
          then (if nat_eq (length f.currency) 3 then none else some (currency_required f.currency))
          else if f.currency == []
          then none
          else some currency_not_allowed)
        ≡ none)
      ↔ IsCurrency f
unfolding IsCurrency
currency_iff f = ground (
  arith,
  eq_iff f.kind (codes "currency"),
  eq_iff f.currency [],
  nat_eq_iff (length f.currency) 3,
)

-- Validate returns no error exactly where the kind is one of the five, the decimals, if there are
-- any, are between 0 and 10, and the currency has three bytes for the kind currency and is empty
-- for every other kind.
pub validate_iff :
    (f : MeasureFormat) → (validate f ≡ none) ↔ (IsKind f.kind × IsShort f.decimals × IsCurrency f)
unfolding validate
validate_iff f = ground (arith, IsKind-iff f.kind, in_range_iff f.decimals, currency_iff f)
