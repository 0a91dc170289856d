-- ===== src/Prelude/Best.antt =====
-- Rust's `filter_map(..).max_by_key(..)`: the last of the elements with the highest score.
use Prim.Native.Nat.{ℕ, ◌≤◌}
use mathlib.Core.Path.{◌≡◌, refl, ap, subst}
use mathlib.Core.List.{List, [], ◌∷◌}
use mathlib.Core.Option.{Option, none, some}
use mathlib.Core.Logic.{◌⊎◌, inl, inr}
use native.Mathlib.Omega.{arith}
use pulsate.Prelude.Tests.{leb, if◌then◌else◌, Option-cases, Bool-cases}
use pulsate.Prelude.Lists.{All, In, here, there, In-skip}

-- A missing score lies below every score.
abbrev pub ScoreLe : Option ℕ → ℕ → Type 0
ScoreLe none s = Unit
ScoreLe (some t) s = t ≤ s

module _ {ℓ} {A : Type ℓ} where
  abbrev pub scored : (A → Option ℕ) → List A → List (ℕ × A)
  scored f [] = []
  scored f (x ∷ xs) = elim (f x) [ none ↦ scored f xs | some s ↦ (s, x) ∷ scored f xs ]

  unfoldable pub max_from : ℕ × A → List (ℕ × A) → ℕ × A
  max_from p [] = p
  max_from p (q ∷ qs) = max_from (if leb p.0 q.0 then q else p) qs

  abbrev pub max_by_key : List (ℕ × A) → Option A
  max_by_key [] = none
  max_by_key (p ∷ ps) = some (max_from p ps).1

  abbrev pub best_of : (A → Option ℕ) → List A → Option A
  best_of f xs = max_by_key (scored f xs)

  -- `x` is in the list, has a score, and nothing in the list has a higher one.
  pub record IsBest (f : A → Option ℕ) (xs : List A) (x : A) : Type ℓ where
    pub score : ℕ
    pub found : In x xs
    pub is_score : f x ≡ some score
    pub highest : All (λ y. ScoreLe (f y) score) xs

  max_from-highest :
      (p : ℕ × A) (ps : List (ℕ × A))
      → (p.0 ≤ (max_from p ps).0) × All (λ q. q.0 ≤ (max_from p ps).0) ps
  unfolding max_from
  max_from-highest p [] = (omega arith, tt)
  max_from-highest p (q ∷ qs) =
      let (h, hs) = max_from-highest (if leb p.0 q.0 then q else p) qs in
      (ground arith, (ground arith, hs))

  max_from-In : (p : ℕ × A) (ps : List (ℕ × A)) → In (max_from p ps) (p ∷ ps)
  unfolding max_from
  max_from-In p [] = here refl
  max_from-In p (q ∷ qs) = elim (Bool-cases (leb p.0 q.0)) [
    | inl h ↦ rw h (there (max_from-In q qs))
    | inr h ↦ rw h (In-skip (max_from-In p qs))
  ]

  In-scored_cons :
      (f : A → Option ℕ) (xs : List A) {p : ℕ × A} {s : ℕ} {x : A}
      → f x ≡ some s
      → (In p (scored f xs) → In p.1 xs × (f p.1 ≡ some p.0))
      → In p ((s, x) ∷ scored f xs)
      → In p.1 (x ∷ xs) × (f p.1 ≡ some p.0)
  In-scored_cons f xs {p} {s} {x} e ih (here h) =
      let same : p.1 ≡ x = ap (λ q. q.1) h in
      let score : p.0 ≡ s = ap (λ q. q.0) h in (here same, rw (same, score) e)
  In-scored_cons f xs e ih (there m) = let (i, h) = ih m in (there i, h)

  scored-In :
      (f : A → Option ℕ) (xs : List A) (p : ℕ × A)
      → In p (scored f xs)
      → In p.1 xs × (f p.1 ≡ some p.0)
  scored-In f [] p m = elim m [ ]
  scored-In f (x ∷ xs) p m = elim (Option-cases (f x)) [
    | inl e ↦ let (i, h) = scored-In f xs p (rw (e, scored) at m) in (there i, h)
    | inr (s, e) ↦ In-scored_cons f xs e (scored-In f xs p) (rw (e, scored) at m)
  ]

  scored-highest :
      (f : A → Option ℕ) (n : ℕ) (xs : List A)
      → All (λ q. q.0 ≤ n) (scored f xs)
      → All (λ y. ScoreLe (f y) n) xs
  scored-highest f n [] h = tt
  scored-highest f n (x ∷ xs) h = elim (Option-cases (f x)) [
    | inl e ↦ (rw e tt, scored-highest f n xs (rw (e, scored) at h))
    | inr (s, e) ↦
        let h' : (s ≤ n) × All (λ q. q.0 ≤ n) (scored f xs) = rw (e, scored) at h in
        (rw e h'.0, scored-highest f n xs h'.1)
  ]

  scored_nil : (f : A → Option ℕ) (xs : List A) → scored f xs ≡ [] → All (λ y. f y ≡ none) xs
  scored_nil f [] h = tt
  scored_nil f (x ∷ xs) h = elim (Option-cases (f x)) [
    | inl e ↦ (e, scored_nil f xs (rw (e, scored) at h))
    | inr (s, e) ↦ absurd (cons_not_nil (rw (e, scored) at h))
  ]
    where
      cons_not_nil : {p : ℕ × A} {ps : List (ℕ × A)} → p ∷ ps ≡ [] → ⊥
      cons_not_nil h = cc

  IsBest-of_scored :
      (f : A → Option ℕ) (xs : List A) (ps : List (ℕ × A))
      → scored f xs ≡ ps
      → ((max_by_key ps ≡ none) × All (λ y. f y ≡ none) xs)
        ⊎ ((x : A) × (max_by_key ps ≡ some x) × IsBest f xs x)
  IsBest-of_scored f xs [] e = inl (refl, scored_nil f xs e)
  IsBest-of_scored f xs (p ∷ ps) e =
      let (i, h) = scored-In f xs (max_from p ps) (rw e (max_from-In p ps)) in
      let (first, rest) = max_from-highest p ps in
      inr (
        (max_from p ps).1,
        refl,
        record {
          score = (max_from p ps).0;
          found = i;
          is_score = h;
          highest = scored-highest f _ xs (rw e (first, rest));
        },
      )

  -- The choice fails where nothing has a score, and otherwise has the highest one.
  pub best_of_cases :
      (f : A → Option ℕ) (xs : List A)
      → ((best_of f xs ≡ none) × All (λ y. f y ≡ none) xs)
        ⊎ ((x : A) × (best_of f xs ≡ some x) × IsBest f xs x)
  best_of_cases f xs = IsBest-of_scored f xs (scored f xs) refl

  pub best_of_one : (f : A → Option ℕ) (x : A) (s : ℕ) → f x ≡ some s → best_of f (x ∷ []) ≡ some x
  unfolding max_from
  best_of_one f x s h = ground arith

  -- Of two elements with one score the later one is chosen.
  pub best_of_tie :
      (f : A → Option ℕ) (x y : A) (s : ℕ)
      → f x ≡ some s
      → f y ≡ some s
      → best_of f (x ∷ y ∷ []) ≡ some y
  unfolding max_from
  best_of_tie f x y s hx hy = ground arith

  pub best_of-IsBest :
      (f : A → Option ℕ) (xs : List A) (x : A) → best_of f xs ≡ some x → IsBest f xs x
  best_of-IsBest f xs x h = elim (best_of_cases f xs) [
    | inl (e, _) ↦ cc
    | inr (y, e, b) ↦ let same : y ≡ x = cc in subst (IsBest f xs) same b
  ]
