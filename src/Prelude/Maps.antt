-- ===== src/Prelude/Maps.antt =====
-- `HashMap` as an association list with one entry for each key. The order of the list stands for
-- the map's iteration order: what is proved holds for every order.
use Prim.Native.Nat.{ℕ, ◌+◌, ◌≤◌}
use mathlib.Core.Path.{◌≡◌, sym, refl}
use mathlib.Core.Logic.{inl, inr}
use mathlib.Core.Bool.{Bool, false, not}
use mathlib.Core.List.{List, [], ◌∷◌}
use mathlib.Core.Option.{Option, none, some}
use native.Mathlib.Omega.{arith}
use pulsate.Prelude.Tests.{Option-cases, if◌then◌else◌, Bool-cases}
use pulsate.Prelude.Lists.{length, In, here, there}
use pulsate.Prelude.Equality.{Eq, ◌=?◌}

abbrev pub Map {ℓ κ} : Type ℓ → Type κ → Type (ℓ ⊔ κ)
Map K V = List (K × V)

abbrev pub filter_option {ℓ} : {V : Type ℓ} → (V → Bool) → Option V → Option V
filter_option p none = none
filter_option p (some v) = if p v then some v else none

module _ {ℓ κ} {K : Type ℓ} {V : Type κ} where
  -- Adding up a weight of the values.
  abbrev pub total : (V → ℕ) → Map K V → ℕ
  total f [] = 0
  total f ((k, v) ∷ m) = f v + total f m

  -- Keeping the entries whose value passes a test, as `HashMap::retain`.
  abbrev pub keep_if : (V → Bool) → Map K V → Map K V
  keep_if p [] = []
  keep_if p ((k, v) ∷ m) = if p v then (k, v) ∷ keep_if p m else keep_if p m

module _ {ℓ κ} {K : Type ℓ} {V : Type κ} ⦃e : Eq K⦄ where
  abbrev pub get : K → Map K V → Option V
  get k [] = none
  get k ((j, v) ∷ m) = if j =? k then some v else get k m

  abbrev pub insert : K → V → Map K V → Map K V
  insert k v [] = (k, v) ∷ []
  insert k v ((j, w) ∷ m) = if j =? k then (k, v) ∷ m else (j, w) ∷ insert k v m

  abbrev pub remove : K → Map K V → Map K V
  remove k [] = []
  remove k ((j, w) ∷ m) = if j =? k then remove k m else (j, w) ∷ remove k m

  -- One entry for each key.
  abbrev pub Distinct : Map K V → Type κ
  Distinct [] = Unit
  Distinct ((k, v) ∷ m) = (get k m ≡ none) × Distinct m

  pub get-insert :
      (k j : K) (v : V) (m : Map K V) → get j (insert k v m) ≡ (if k =? j then some v else get j m)
  get-insert k j v [] = refl
  get-insert k j v ((i, w) ∷ m) =
      ground (arith, e.beq_iff k j, e.beq_iff i k, e.beq_iff i j, get-insert k j v m)

  pub get-remove : (k j : K) (m : Map K V) → get j (remove k m) ≡ (if k =? j then none else get j m)
  get-remove k j [] = ground arith
  get-remove k j ((i, w) ∷ m) =
      ground (arith, e.beq_iff k j, e.beq_iff i k, e.beq_iff i j, get-remove k j m)

  pub insert-Distinct : (k : K) (v : V) (m : Map K V) → Distinct m → Distinct (insert k v m)
  insert-Distinct k v [] d = (refl, tt)
  insert-Distinct k v ((i, w) ∷ m) d =
      ground (arith, e.beq_iff i k, e.beq_iff k i, insert-Distinct k v m d.1, get-insert k i v m)

  pub remove-Distinct : (k : K) (m : Map K V) → Distinct m → Distinct (remove k m)
  remove-Distinct k [] d = tt
  remove-Distinct k ((i, w) ∷ m) d = ground (arith, remove-Distinct k m d.1, get-remove k i m)

  pub remove_absent : (k : K) (m : Map K V) → get k m ≡ none → remove k m ≡ m
  remove_absent k [] h = refl
  remove_absent k ((i, w) ∷ m) h = ground (arith, remove_absent k m)

  pub length-remove-le : (k : K) (m : Map K V) → length (remove k m) ≤ length m
  length-remove-le k [] = omega arith
  length-remove-le k ((i, w) ∷ m) = ground (arith, length-remove-le k m)

  pub length-remove :
      (k : K) (v : V) (m : Map K V)
      → Distinct m
      → get k m ≡ some v
      → length (remove k m) + 1 ≡ length m
  length-remove k v [] d h = cc
  length-remove k v ((i, w) ∷ m) d h =
      ground (arith, e.beq_iff i k, length-remove k v m, remove_absent k m)

  pub length-insert-le : (k : K) (v : V) (m : Map K V) → length (insert k v m) ≤ length m + 1
  length-insert-le k v [] = omega arith
  length-insert-le k v ((i, w) ∷ m) = ground (arith, length-insert-le k v m)

  pub length-insert_new :
      (k : K) (v : V) (m : Map K V) → get k m ≡ none → length (insert k v m) ≡ length m + 1
  length-insert_new k v [] h = refl
  length-insert_new k v ((i, w) ∷ m) h = ground (arith, length-insert_new k v m)

  pub total-remove :
      (f : V → ℕ) (k : K) (v : V) (m : Map K V)
      → Distinct m
      → get k m ≡ some v
      → total f (remove k m) + f v ≡ total f m
  total-remove f k v [] d h = cc
  total-remove f k v ((i, w) ∷ m) d h =
      ground (arith, e.beq_iff i k, total-remove f k v m, remove_absent k m)

  pub total-insert_new :
      (f : V → ℕ) (k : K) (v : V) (m : Map K V)
      → get k m ≡ none
      → total f (insert k v m) ≡ total f m + f v
  total-insert_new f k v [] h = omega arith
  total-insert_new f k v ((i, w) ∷ m) h = ground (arith, total-insert_new f k v m)

  -- What a key adds to the total.
  abbrev pub weight : (V → ℕ) → K → Map K V → ℕ
  weight f k m = elim (get k m) [ none ↦ 0 | some v ↦ f v ]

  weightless : (f : V → ℕ) (m : Map K V) → Distinct m → ((k : K) → weight f k m ≡ 0) → total f m ≡ 0
  weightless f [] d h = refl
  weightless f ((i, w) ∷ m) d h =
      let first : f w ≡ 0 = ground (arith, h i, e.beq_iff i i) in
      let rest : total f m ≡ 0 = weightless f m d.1 (λ j. ground (arith, h j, e.beq_iff i j)) in
      omega arith

  -- Two maps in which every key has the same weight have the same total: no order of iteration
  -- matters.
  pub total-eq_of_weight :
      (f : V → ℕ) (m n : Map K V)
      → Distinct m
      → Distinct n
      → ((k : K) → weight f k m ≡ weight f k n)
      → total f m ≡ total f n
  total-eq_of_weight f [] n dm dn h = sym (weightless f n dn (λ k. sym (h k)))
  total-eq_of_weight f ((k, v) ∷ m) n dm dn h = elim (Option-cases (get k n)) [
    | inl missing ↦
        let zero_weight : f v ≡ 0 = ground (arith, h k, e.beq_iff k k) in
        let rest : total f m ≡ total f n =
          total-eq_of_weight f m n dm.1 dn (λ j. ground (arith, h j, e.beq_iff k j)) in
        omega arith
    | inr (w, found) ↦
        let same : f v ≡ f w = ground (arith, h k, e.beq_iff k k) in
        let rest : total f m ≡ total f (remove k n) =
          total-eq_of_weight f m (remove k n) dm.1 (remove-Distinct k n dn)
            (λ j. ground (arith, h j, get-remove k j n, e.beq_iff k j)) in
        omega (arith, total-remove f k w n dn found)
  ]

  pub keep_if_absent :
      (p : V → Bool) (k : K) (m : Map K V) → get k m ≡ none → get k (keep_if p m) ≡ none
  keep_if_absent p k [] h = refl
  keep_if_absent p k ((i, w) ∷ m) h = ground (arith, keep_if_absent p k m)

  pub keep_if-Distinct : (p : V → Bool) (m : Map K V) → Distinct m → Distinct (keep_if p m)
  keep_if-Distinct p [] d = tt
  keep_if-Distinct p ((k, v) ∷ m) d =
      ground (arith, keep_if-Distinct p m d.1, keep_if_absent p k m d.0)

  pub get-keep_if :
      (p : V → Bool) (k : K) (m : Map K V)
      → Distinct m
      → get k (keep_if p m) ≡ filter_option p (get k m)
  get-keep_if p k [] d = refl
  get-keep_if p k ((i, w) ∷ m) d =
      ground (arith, e.beq_iff i k, get-keep_if p k m d.1, keep_if_absent p k m)

  pub total-keep_if :
      (f : V → ℕ) (p : V → Bool) (m : Map K V)
      → total f (keep_if p m) + total f (keep_if (λ v. not (p v)) m) ≡ total f m
  total-keep_if f p [] = omega arith
  total-keep_if f p ((k, v) ∷ m) = ground (arith, total-keep_if f p m)

  pub length-keep_if-le : (p : V → Bool) (m : Map K V) → length (keep_if p m) ≤ length m
  length-keep_if-le p [] = omega arith
  length-keep_if-le p ((k, v) ∷ m) = ground (arith, length-keep_if-le p m)

  pub get_of_In : (k : K) (v : V) (m : Map K V) → Distinct m → In (k, v) m → get k m ≡ some v
  get_of_In k v [] d h = elim h [ ]
  get_of_In k v ((i, w) ∷ m) d (here h) = ground (arith, e.beq_iff i k)
  get_of_In k v ((i, w) ∷ m) d (there h) = ground (arith, e.beq_iff i k, get_of_In k v m d.1 h)

  pub In-of_get : (k : K) (v : V) (m : Map K V) → get k m ≡ some v → In (k, v) m
  In-of_get k v [] h = cc
  In-of_get k v ((i, w) ∷ m) h = elim (Bool-cases (i =? k)) [
    | inl hit ↦ here (ground (arith, e.beq_iff i k))
    | inr miss ↦ there (In-of_get k v m (ground arith))
  ]

  In-cons : {p q : K × V} {m n : Map K V} → (In p m → In p n) → In p (q ∷ m) → In p (q ∷ n)
  In-cons f (here x) = here x
  In-cons f (there x) = there (f x)

  pub In-remove : (k : K) {p : K × V} (m : Map K V) → In p (remove k m) → In p m
  In-remove k [] h = h
  In-remove k ((i, w) ∷ m) h = elim (Bool-cases (i =? k)) [
    | inl hit ↦ there (In-remove k m (rw hit at h))
    | inr miss ↦ In-cons (In-remove k m) (rw miss at h)
  ]

  pub In-remove_ne :
      (k : K) (p : K × V) (m : Map K V) → In p m → (k =? p.0) ≡ false → In p (remove k m)
  In-remove_ne k p [] h n = elim h [ ]
  In-remove_ne k p ((i, w) ∷ m) (here h) n = elim (Bool-cases (i =? k)) [
    | inl hit ↦ absurd (ground (arith, e.beq_iff i k, e.beq_iff k p.0))
    | inr miss ↦ rw miss (here h)
  ]
  In-remove_ne k p ((i, w) ∷ m) (there h) n = elim (Bool-cases (i =? k)) [
    | inl hit ↦ rw hit (In-remove_ne k p m h n)
    | inr miss ↦ rw miss (there (In-remove_ne k p m h n))
  ]

  -- Two entries with one key are one entry.
  pub In-unique : (p q : K × V) (m : Map K V) → Distinct m → In p m → In q m → p.0 ≡ q.0 → p.1 ≡ q.1
  In-unique p q m d hp hq h = cc (get_of_In p.0 p.1 m d hp, get_of_In q.0 q.1 m d hq)
