-- ===== src/Config/Terminal.antt =====
-- The step that a route's handler is built from.
use pulsate.Prelude.{
  ℕ, suc, ◌+◌, ◌-◌, ◌≡◌, inl, inr, refl, sym, ◌∙◌, ap, Bool, true, Option, none, some, List, [],
  ◌∷◌, length, In, here, there, is_some, ◌==◌, arith, Bool-cases,
}
use pulsate.Flow.Ast.{Step, Route}
use pulsate.Config.Routing.{is_plugin, indexed, last_index, plugin_at, step_at, handler_at}
use pulsate.Config.Compile.{errors_of}
use pulsate.Config.Valid.{errors_of-cons}

pub indexed-step_at :
    (test : Step → Bool) (k i : ℕ) (s : Step) (ss : List Step)
    → In (i, s) (indexed test k ss)
    → (j : ℕ) × (i ≡ k + j) × (step_at j ss ≡ some s)
unfolding indexed
indexed-step_at test k i s [] m = elim m [ ]
indexed-step_at test k i s (t ∷ ss) m = elim (Bool-cases (test t)) [
  | inl e ↦ first (rw (indexed, e) at m) (indexed-step_at test (suc k) i s ss)
  | inr e ↦
      let (j, at, found) = indexed-step_at test (suc k) i s ss (rw (indexed, e) at m) in
      (suc j, omega arith, found)
]
  where
    first :
        In (i, s) ((k, t) ∷ indexed test (suc k) ss)
        → (In (i, s) (indexed test (suc k) ss)
            → (j : ℕ) × (i ≡ suc k + j) × (step_at j ss ≡ some s))
        → (j : ℕ) × (i ≡ k + j) × (step_at j (t ∷ ss) ≡ some s)
    first (here e) ih = (0, (ap (λ p. p.0) e ∙ omega arith), ap some (sym (ap (λ p. p.1) e)))
    first (there m) ih = let (j, at, found) = ih m in (suc j, omega arith, found)

pub step_at-handled :
    (i : ℕ) (s : Step) (ss : List Step)
    → step_at i ss ≡ some s
    → is_some (handler_at (some i) ss) ≡ true
step_at-handled i s ss h = rw (handler_at, h) refl

last-handled : (s : Step) (ss : List Step) → is_some (handler_at (some (length ss)) (s ∷ ss)) ≡ true
last-handled s ss = step_at-handled (length ss) (last s ss) (s ∷ ss) (at s ss)
  where
    last : Step → List Step → Step
    last s [] = s
    last s (t ∷ ss) = last t ss

    at : (s : Step) (ss : List Step) → step_at (length ss) (s ∷ ss) ≡ some (last s ss)
    at s [] = refl
    at s (t ∷ ss) = at t ss

pub plugin_at-handled :
    (r : Route) (o : Option ℕ)
    → last_index (indexed is_plugin 0 r.steps) ≡ o
    → errors_of (plugin_at r o).1 ≡ []
    → is_some (handler_at (plugin_at r o).0 r.steps) ≡ true
unfolding indexed
plugin_at-handled r none at h = absurd (errors_of-cons _ [] refl h)
plugin_at-handled r (some i) at h = elim (Bool-cases (i == length r.steps - 1)) [
  | inr e ↦ absurd (errors_of-cons _ [] refl (rw (plugin_at, e) at h))
  | inl e ↦ rw (plugin_at, e) (by_steps r.steps refl (ground (arith, e)))
]
  where
    none_some : ◌≡◌ {A = Option ℕ} none (some i) → ⊥
    none_some x = cc

    by_steps :
        (ss : List Step)
        → r.steps ≡ ss
        → i ≡ length r.steps - 1
        → is_some (handler_at (some i) r.steps) ≡ true
    by_steps [] same last = absurd (none_some (rw (same, indexed) at at))
    by_steps (s ∷ ss) same last =
        let here : i ≡ length ss = last ∙ ap (λ x. length x - 1) same ∙ omega arith in
        rw (same, here) (last-handled s ss)
