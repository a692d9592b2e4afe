-- ===== src/Join/Path/Levels.antt =====
-- The measures by which bfsJoin ends (semantic/join.go): the keys of each depth, and what a queue
-- can still lead to.
use mathlib.Core.List.Memᴰ
use dux.Base.{
  ℕ, zero, suc, ◌+◌, ◌-◌, ◌≤◌, ◌<◌, none, some, List, [], ◌∷◌, ◌++◌, Text, Dict, lookup, length,
  ◌≡◌, ap, Memᴰ, arith, ltb, if◌then◌else◌,
}
use dux.Join.Path.{SearchState, weight}

-- The keys of `us` whose depth is below `n`.
pub shallow : Dict ℕ → List Text → ℕ → ℕ
shallow best [] n = 0
shallow best (u ∷ us) n =
    let rest = shallow best us n in
    elim (lookup u best) [ none ↦ rest | some d ↦ if ltb d n then suc rest else rest ]

pub shallow-le : (best : Dict ℕ) (us : List Text) (n : ℕ) → shallow best us n ≤ length us
unfolding shallow
shallow-le best [] n = omega arith
shallow-le best (u ∷ us) n = ground (arith, shallow-le best us n)

shallow_mono :
    (best : Dict ℕ) (us : List Text) (n : ℕ) → shallow best us n ≤ shallow best us (suc n)
unfolding shallow
shallow_mono best [] n = omega arith
shallow_mono best (u ∷ us) n = ground (arith, shallow_mono best us n)

shallow-suc :
    (best : Dict ℕ) (us : List Text) (n : ℕ) (k : Text)
    → Memᴰ k us
    → lookup k best ≡ some n
    → suc (shallow best us n) ≤ shallow best us (suc n)
unfolding shallow
shallow-suc best [] n k m e = absurd (Memᴰ.not-nil m)
shallow-suc best (u ∷ us) n k (Memᴰ.head same) e =
    ground (arith, shallow_mono best us n, ap (λ x. lookup x best) same)
shallow-suc best (u ∷ us) n k (Memᴰ.tail m) e = ground (arith, shallow-suc best us n k m e)

-- Each level below `n` has a key.
abbrev pub Levels : Dict ℕ → List Text → ℕ → Type 0
Levels best us n = (j : ℕ) → j < n → (k : Text) × Memᴰ k us × (lookup k best ≡ some j)

pub le-shallow : (best : Dict ℕ) (us : List Text) (n : ℕ) → Levels best us n → n ≤ shallow best us n
le-shallow best us zero h = omega arith
le-shallow best us (suc n) h =
    let (k, m, e) = h n (omega arith) in
    omega (arith, le-shallow best us n (λ j lt. h j (omega arith)), shallow-suc best us n k m e)

-- What the states of a queue can still lead to, with `r` relationships and `n` levels.
unfoldable pub potential : ℕ → ℕ → List SearchState → ℕ
potential r n [] = 0
potential r n (e ∷ q) = weight r (n - length e.steps) + potential r n q

pub potential-append :
    (r n : ℕ) (q p : List SearchState) → potential r n (q ++ p) ≡ potential r n q + potential r n p
unfolding potential
potential-append r n [] p = omega arith
potential-append r n (e ∷ q) p = omega (arith, potential-append r n q p)
