-- ===== src/Names.antt =====
-- StripBrackets and StripSingleQuotes (semantic/resolver.go): the name that a token stands for.
use dux.Base.{
  ℕ, zero, suc, ◌-◌, Bool, true, false, [], ◌∷◌, ◌++◌, Text, ◌&&◌, leb, nat_eq, take, drop, length,
  length-append, if◌then◌else◌, ◌≡◌, refl, ap, ◌∙◌, arith, inl, inr, Bool-cases,
}

-- s[i] is the byte
is_byte_at : ℕ → ℕ → Text → Bool
is_byte_at b i [] = false
is_byte_at b zero (x ∷ s) = nat_eq x b
is_byte_at b (suc i) (x ∷ s) = is_byte_at b i s

-- strings.ReplaceAll(s, cc, c) for a byte c written twice
unfoldable pub undouble : ℕ → Text → Text
undouble c [] = []
undouble c (x ∷ []) = x ∷ []
undouble c (x ∷ y ∷ s) =
    let pair = x ∷ undouble c s in
    let single = x ∷ undouble c (y ∷ s) in if nat_eq x c && nat_eq y c then pair else single

-- The byte c of s written twice, as the token of a name has it.
unfoldable pub double : ℕ → Text → Text
double c [] = []
double c (x ∷ s) = if nat_eq x c then x ∷ x ∷ double c s else x ∷ double c s

-- The test and the slice of both functions: s[1:len(s)-1] between the two delimiters.
unfoldable pub strip : ℕ → ℕ → Text → Text
unfolding is_byte_at undouble
strip open' close s =
    if leb 2 (length s) && is_byte_at open' 0 s && is_byte_at close (length s - 1) s
    then undouble close (take (length s - 2) (drop 1 s))
    else s

-- StripBrackets
unfoldable pub strip_brackets : Text → Text
unfolding strip
strip_brackets = strip b'[' b']'

-- StripSingleQuotes
unfoldable pub strip_single_quotes : Text → Text
unfolding strip
strip_single_quotes = strip 39 39

-- A byte other than c stays.
undouble-other : (c x : ℕ) (t : Text) → nat_eq x c ≡ false → undouble c (x ∷ t) ≡ x ∷ undouble c t
unfolding undouble
undouble-other c x [] e = refl
undouble-other c x (y ∷ t) e = ground arith

-- A pair of c becomes one.
undouble-pair : (c x : ℕ) (t : Text) → nat_eq x c ≡ true → undouble c (x ∷ x ∷ t) ≡ x ∷ undouble c t
unfolding undouble
undouble-pair c x t e = ground arith

pub undouble-double : (c : ℕ) (s : Text) → undouble c (double c s) ≡ s
unfolding double
undouble-double c [] = unfold undouble in refl
undouble-double c (x ∷ s) = elim (Bool-cases (nat_eq x c)) [
  | inl e ↦ rw e (undouble-pair c x (double c s) e ∙ ap (λ r. x ∷ r) (undouble-double c s))
  | inr e ↦ rw e (undouble-other c x (double c s) e ∙ ap (λ r. x ∷ r) (undouble-double c s))
]

pub take-length : (s t : Text) → take (length s) (s ++ t) ≡ s
take-length [] t = refl
take-length (x ∷ s) t = ap (λ r. x ∷ r) (take-length s t)

is_byte_at-length : (b : ℕ) (s : Text) → is_byte_at b (length s) (s ++ b ∷ []) ≡ true
unfolding is_byte_at
is_byte_at-length b [] = ground arith
is_byte_at-length b (x ∷ s) = is_byte_at-length b s

strip-wrap :
    (open' close : ℕ) (s : Text) → strip open' close (open' ∷ (s ++ close ∷ [])) ≡ undouble close s
unfolding strip
strip-wrap open' close s =
    let len : length (s ++ close ∷ []) ≡ suc (length s) =
      length-append s (close ∷ []) ∙ omega arith in
    let long : leb 2 (suc (suc (length s))) ≡ true = ground arith in
    let first : nat_eq open' open' ≡ true = ground arith in
    let one : suc (suc (length s)) - 1 ≡ suc (length s) = omega arith in
    let two : suc (suc (length s)) - 2 ≡ length s = omega arith in
    rw (len, long, one, two)
      (rw (is_byte_at-length close s, take-length s (close ∷ []), first) refl)

-- A name in brackets, its closing brackets doubled, and a name in single quotes, its quotes
-- doubled, are read back as the name, whatever bytes the name has.
pub strip-double :
    (s : Text)
    → (strip_brackets (b'[' ∷ (double b']' s ++ b']' ∷ [])) ≡ s)
      × (strip_single_quotes (39 ∷ (double 39 s ++ 39 ∷ [])) ≡ s)
unfolding strip_brackets strip_single_quotes
strip-double s = (
  strip-wrap b'[' b']' (double b']' s) ∙ undouble-double b']' s,
  strip-wrap 39 39 (double 39 s) ∙ undouble-double 39 s,
)
