-- ===== src/Join/Explore/Loop.antt =====
-- The breadth-first loop as a whole (semantic/join.go): it decides whether a walk leads to a target,
-- and it ends within as many rounds as there are keys.
use mathlib.Core.List.Memᴰ
use dux.Base.{
  ℕ, zero, suc, ◌+◌, ◌≤◌, Bool, true, false, Option, some, List, [], ◌∷◌, Text, mem, ◌≡◌, ◌≢◌, refl,
  ◌∙◌, Memᴰ, arith, ◌⊎◌, inl, inr, eq_iff, eq_refl, length,
}
use dux.Schema.{Relationship}
use dux.Join.Explore.{
  Pass, hit, more, scan, Outcome, found, exhausted, out_of_fuel, explore, Walk, here, step,
}
use dux.Join.Explore.Round.{unseen, scan-Scanned, scan-hit}

pub unseen-le : (us v : List Text) → unseen us v ≤ length us
unseen-le [] v = omega arith
unseen-le (u ∷ us) v = ground (arith, unseen-le us v)

pub Outcome-cases :
    (o : Outcome) → (o ≡ found) ⊎ ((v : List Text) × (o ≡ exhausted v)) ⊎ (o ≡ out_of_fuel)
Outcome-cases found = inl refl
Outcome-cases (exhausted v) = inr (inl (v, refl))
Outcome-cases out_of_fuel = inr (inr refl)

pub Pass-cases : (p : Pass) → (p ≡ hit) ⊎ ((v q : List Text) × (p ≡ more v q))
Pass-cases hit = inl refl
Pass-cases (more v q) = inr (v, q, refl)

module _ (key : Text → Text) (is_target : Text → Bool) (next : Text → Relationship → Option Text)
    (rels : List Relationship) (src : Text) where
  -- A table from which a walk came to a target.
  abbrev pub Hit : Type 0
  Hit = (d : Text) × Walk next rels src d × (is_target (key d) ≡ true)

  pub record Inv (v q : List Text) : Type 0 where
    pub queue_sound : (c : Text) → Memᴰ c q → Walk next rels src c
    pub visited_sound :
        (k : Text) → mem k v ≡ true → (d : Text) × Walk next rels src d × (key d ≡ k)
    pub clear : (k : Text) → mem k v ≡ true → is_target k ≡ false
    pub closed :
        (d e : Text) (rel : Relationship)
        → mem (key d) v ≡ true
        → Memᴰ rel rels
        → next d rel ≡ some e
        → ((c : Text) × Memᴰ c q × (key c ≡ key d)) ⊎ (mem (key e) v ≡ true)
    pub source : mem (key src) v ≡ true

  pub Inv-start : is_target (key src) ≡ false → Inv (key src ∷ []) (src ∷ [])
  unfolding mem
  Inv-start plain = record {
    queue_sound = λ c m. rw (Memᴰ.eq_of_singleton m) here;
    visited_sound = λ k m. (src, here, ground (arith, eq_iff (key src) k));
    clear = λ k m. ground (arith, eq_iff (key src) k);
    closed = λ d e rel m r f. inl (src, Memᴰ.head refl, ground (arith, eq_iff (key src) (key d)));
    source = ground (arith, eq_refl (key src));
  }

  module _
      (congruent : (c d : Text) (rel : Relationship)
        → key c ≡ key d
        → next c rel ≡ next d rel) where
    Inv-scan :
        (curr : Text) (rest v v' q' : List Text)
        → Inv v (curr ∷ rest)
        → scan key is_target (next curr) rels v rest ≡ more v' q'
        → Inv v' q'
    Inv-scan curr rest v v' q' inv h =
        let s = scan-Scanned key is_target (next curr) rels v rest v' q' h in
        let to_curr = inv.queue_sound curr (Memᴰ.head refl) in
        record {
          queue_sound = λ c m. elim (s.queued c m) [
            | inl old ↦ inv.queue_sound c (Memᴰ.tail old)
            | inr (rel, r, e) ↦ step rel to_curr r e
          ];
          visited_sound = λ k m. elim (s.fresh k m) [
            | inl old ↦ inv.visited_sound k old
            | inr (n, rel, waits, same, r, e, plain) ↦ (n, step rel to_curr r e, same)
          ];
          clear = λ k m. elim (s.fresh k m) [
            | inl old ↦ inv.clear k old
            | inr (n, rel, waits, same, r, e, plain) ↦ plain
          ];
          closed = λ d e rel m r f. elim (s.fresh (key d) m) [
            | inl old ↦ elim (inv.closed d e rel old r f) [
              | inl (c, waits, same) ↦ elim (Memᴰ.cases_cons waits) [
                | inl this ↦ inr (s.covered rel e r (congruent curr d rel (rw (← this) same) ∙ f))
                | inr later ↦ inl (c, s.kept c later, same)
              ]
              | inr done ↦ inr (s.grows (key e) done)
            ]
            | inr (n, _, waits, same, _, _, _) ↦ inl (n, waits, same)
          ];
          source = s.grows (key src) inv.source;
        }

    -- The loop that finds a target has walked to one.
    pub explore-found :
        (fuel : ℕ) (v q : List Text)
        → Inv v q
        → explore key is_target next rels fuel v q ≡ found
        → Hit
    unfolding explore
    explore-found zero v [] inv h = cc
    explore-found zero v (c ∷ q) inv h = cc
    explore-found (suc fuel) v [] inv h = cc
    explore-found (suc fuel) v (c ∷ q) inv h =
        elim (Pass-cases (scan key is_target (next c) rels v q)) [
          | inl e ↦
              let (rel, n, r, f, target) = scan-hit key is_target (next c) rels v q e in
              (n, step rel (inv.queue_sound c (Memᴰ.head refl)) r f, target)
          | inr (v', q', e) ↦ explore-found fuel v' q' (Inv-scan c q v v' q' inv e) (ground arith)
        ]

    -- The loop that empties its queue keeps the invariant.
    pub explore-exhausted :
        (fuel : ℕ) (v q v' : List Text)
        → Inv v q
        → explore key is_target next rels fuel v q ≡ exhausted v'
        → Inv v' []
    unfolding explore
    explore-exhausted zero v [] v' inv h = let same : v ≡ v' = cc in rw (← same) inv
    explore-exhausted zero v (c ∷ q) v' inv h = cc
    explore-exhausted (suc fuel) v [] v' inv h = let same : v ≡ v' = cc in rw (← same) inv
    explore-exhausted (suc fuel) v (c ∷ q) v' inv h =
        elim (Pass-cases (scan key is_target (next c) rels v q)) [
          | inl e ↦ cc (e)
          | inr (w, q', e) ↦
              explore-exhausted fuel w q' v' (Inv-scan c q v w q' inv e) (ground arith)
        ]

    -- With no table left in the queue every walk has been followed.
    pub mem-of_Walk :
        (v : List Text) {d : Text} → Inv v [] → Walk next rels src d → mem (key d) v ≡ true
    mem-of_Walk v inv here = inv.source
    mem-of_Walk v inv (step {c} {d} rel w r e) =
        elim (inv.closed c d rel (mem-of_Walk v inv w) r e) [
          | inl (x, waits, same) ↦ absurd (Memᴰ.not-nil waits)
          | inr done ↦ done
        ]

  -- A round takes one table from the queue and adds only tables whose keys were not visited.
  pub explore-ends :
      (us : List Text)
      → ((c d : Text) (rel : Relationship) → Memᴰ rel rels → next c rel ≡ some d → Memᴰ (key d) us)
      → (fuel : ℕ) (v q : List Text) → unseen us v + length q ≤ fuel
      → explore key is_target next rels fuel v q ≢ out_of_fuel
  unfolding explore
  explore-ends us within zero v [] n h = cc
  explore-ends us within zero v (c ∷ q) n h = absurd (omega arith)
  explore-ends us within (suc fuel) v [] n h = cc
  explore-ends us within (suc fuel) v (c ∷ q) n h =
      elim (Pass-cases (scan key is_target (next c) rels v q)) [
        | inl e ↦ cc
        | inr (v', q', e) ↦
            let s = scan-Scanned key is_target (next c) rels v q v' q' e in
            explore-ends us within fuel v' q'
              (omega (arith, s.budget us (λ rel n r f. within c n rel r f))) (ground arith)
      ]
