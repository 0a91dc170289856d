-- ===== src/Util/Bounds.antt =====
-- What the parsers of units yield is within 64 bits.
use pulsate.Prelude.{
  ℕ, ◌+◌, ◌*◌, ◌-◌, ◌^◌, ◌<◌, ◌≡◌, ◌⊎◌, ltb, refl, sym, ◌∙◌, ap, subst, inl, inr, Option, some,
  none, [], ◌∷◌, ◌++◌, Str, str_eq, str_eq_iff, bytes, min, is_digit, Bool-cases, true, trim,
  parse_uint, parse_digits, arith, Option-cases,
}
use pulsate.Util.Units.{
  value, invalid, unknown_time_unit, unknown_size_unit, size_overflow, size_factor, checked_size,
  to_ascii_uppercase, split_digits, number_unit, split_number_unit, duration_of, parse_duration,
  size_of, parse_size,
}

pub parse_digits-lt :
    (bound acc : ℕ) (s : Str) (n : ℕ) → acc < bound → parse_digits bound acc s ≡ some n → n < bound
unfolding parse_digits
parse_digits-lt bound acc [] n small h = ground arith
parse_digits-lt bound acc (c ∷ s) n small h =
    ground (arith, parse_digits-lt bound (acc * 10 + (c - 48)) s n)

pub parse_uint-lt :
    (bound : ℕ) (s : Str) (n : ℕ) → 0 < bound → parse_uint bound s ≡ some n → n < bound
unfolding parse_uint
parse_uint-lt bound [] n pos h = cc
parse_uint-lt bound (c ∷ []) n pos h = parse_digits-lt bound 0 (c ∷ []) n pos h
parse_uint-lt bound (c ∷ d ∷ s) n pos h =
    ground (arith, parse_digits-lt bound 0 (d ∷ s) n, parse_digits-lt bound 0 (c ∷ d ∷ s) n)

number_unit-lt :
    (num rest : Str) (n : ℕ) (unit : Str) → number_unit num rest ≡ some (n, unit) → n < 2 ^ 64
number_unit-lt num [] n unit h = cc
number_unit-lt [] (c ∷ rest) n unit h = cc
number_unit-lt (d ∷ num) (c ∷ rest) n unit h = elim (Option-cases (parse_uint (2 ^ 64) (d ∷ num))) [
  | inl e ↦ ground (arith, e)
  | inr (m, e) ↦
      let got : ◌≡◌ {A = Option (ℕ × Str)} (some (m, trim (c ∷ rest))) (some (n, unit)) =
        rw (number_unit, e) at h in
      let same : m ≡ n = cc in rw (← same) (parse_uint-lt (2 ^ 64) (d ∷ num) m (omega arith) e)
]

split_number_unit-lt :
    (s : Str) (n : ℕ) (unit : Str) → split_number_unit s ≡ some (n, unit) → n < 2 ^ 64
unfolding split_number_unit
split_number_unit-lt s n unit h =
    number_unit-lt (split_digits (trim s)).0 (split_digits (trim s)).1 n unit h

duration_of-lt :
    (n : ℕ) (unit : Str) (d : ℕ)
    → n < 2 ^ 64
    → duration_of n unit ≡ value d
    → d < 2 ^ 64 * 1_000_000_000
unfolding duration_of
duration_of-lt n unit d small h = ground arith

size_of-lt : (n : ℕ) (unit : Str) (k : ℕ) → size_of n unit ≡ value k → k < 2 ^ 64
unfolding size_of
size_of-lt n unit k h = ground arith

-- A duration that is read is shorter than 2^64 seconds: a product that does not fit is cut off.
pub parse_duration-lt : (s : Str) (d : ℕ) → parse_duration s ≡ value d → d < 2 ^ 64 * 1_000_000_000
unfolding parse_duration
parse_duration-lt s d h = elim (Option-cases (split_number_unit (trim s))) [
  | inl e ↦ ground (arith, e)
  | inr ((n, unit), e) ↦
      ground (arith, e, duration_of-lt n unit d (split_number_unit-lt (trim s) n unit e))
]

-- A size that is read is below 2^64 bytes: a product that does not fit is refused.
pub parse_size-lt : (s : Str) (n : ℕ) → parse_size s ≡ value n → n < 2 ^ 64
unfolding parse_size
parse_size-lt s n h = elim (Option-cases (split_number_unit (trim s))) [
  | inl e ↦ ground (arith, e, parse_uint-lt (2 ^ 64) (trim s) n)
  | inr ((m, unit), e) ↦ ground (arith, e, size_of-lt m unit n, parse_uint-lt (2 ^ 64) (trim s) n)
]

split_digits-append : (s : Str) → s ≡ (split_digits s).0 ++ (split_digits s).1
unfolding split_digits
split_digits-append [] = refl
split_digits-append (c ∷ s) = elim (Bool-cases (is_digit c)) [
  | inl e ↦ rw e (ap (λ t. c ∷ t) (split_digits-append s))
  | inr e ↦ rw e refl
]

-- A number of 64 bits, and a unit behind it.
pub record IsQuantity (s : Str) (n : ℕ) (unit : Str) : Type 0 where
  pub digits : Str
  pub behind : Str
  pub split : s ≡ digits ++ behind
  pub reads : parse_uint (2 ^ 64) digits ≡ some n
  pub is_unit : unit ≡ trim behind

number_unit-IsQuantity :
    (num rest : Str) (n : ℕ) (unit : Str)
    → number_unit num rest ≡ some (n, unit)
    → IsQuantity (num ++ rest) n unit
number_unit-IsQuantity num [] n unit h = cc
number_unit-IsQuantity [] (c ∷ rest) n unit h = cc
number_unit-IsQuantity (d ∷ num) (c ∷ rest) n unit h =
    elim (Option-cases (parse_uint (2 ^ 64) (d ∷ num))) [
      | inl e ↦ absurd (ground (arith, e))
      | inr (m, e) ↦
          let got : ◌≡◌ {A = Option (ℕ × Str)} (some (m, trim (c ∷ rest))) (some (n, unit)) =
            rw (number_unit, e) at h in
          record {
            digits = d ∷ num;
            behind = c ∷ rest;
            split = refl;
            reads = (let same : m ≡ n = cc in e ∙ ap some same);
            is_unit = cc;
          }
    ]

split_number_unit-IsQuantity :
    (s : Str) (n : ℕ) (unit : Str)
    → split_number_unit s ≡ some (n, unit)
    → IsQuantity (trim s) n unit
unfolding split_number_unit
split_number_unit-IsQuantity s n unit h =
    subst (λ t. IsQuantity t n unit) (sym (split_digits-append (trim s)))
      (number_unit-IsQuantity (split_digits (trim s)).0 (split_digits (trim s)).1 n unit h)

-- The nanoseconds of a number of some unit; minutes, hours and days of more seconds than 64 bits hold
-- are cut off.
pub data IsSpan (n : ℕ) : Str → ℕ → Type 0 where
  of_millis : IsSpan n (bytes "ms") (n * 1_000_000)
  of_seconds : IsSpan n (bytes "s") (n * 1_000_000_000)
  of_minutes : IsSpan n (bytes "m") (min (n * 60) 18_446_744_073_709_551_615 * 1_000_000_000)
  of_hours : IsSpan n (bytes "h") (min (n * 3_600) 18_446_744_073_709_551_615 * 1_000_000_000)
  of_days : IsSpan n (bytes "d") (min (n * 86_400) 18_446_744_073_709_551_615 * 1_000_000_000)

value-injective : (d e : ℕ) → value d ≡ value e → d ≡ e
value-injective d e h = cc

duration_of-IsSpan : (n : ℕ) (unit : Str) (d : ℕ) → duration_of n unit ≡ value d → IsSpan n unit d
unfolding duration_of
duration_of-IsSpan n unit d h = elim (Bool-cases (str_eq unit (bytes "ms"))) [
  | inl e ↦ is (bytes "ms") _ e (value-injective _ d (rw (duration_of, e) at h)) of_millis
  | inr e ↦ elim (Bool-cases (str_eq unit (bytes "s"))) [
    | inl f ↦ is (bytes "s") _ f (value-injective _ d (rw (duration_of, e, f) at h)) of_seconds
    | inr f ↦ elim (Bool-cases (str_eq unit (bytes "m"))) [
      | inl g ↦ is (bytes "m") _ g (value-injective _ d (rw (duration_of, e, f, g) at h)) of_minutes
      | inr g ↦ elim (Bool-cases (str_eq unit (bytes "h"))) [
        | inl k ↦
            is (bytes "h") _ k (value-injective _ d (rw (duration_of, e, f, g, k) at h)) of_hours
        | inr k ↦ elim (Bool-cases (str_eq unit (bytes "d"))) [
          | inl l ↦
              is (bytes "d") _ l (value-injective _ d (rw (duration_of, e, f, g, k, l) at h))
                of_days
          | inr l ↦ absurd (no_value (rw (duration_of, e, f, g, k, l) at h))
        ]
      ]
    ]
  ]
]
  where
    is : (word : Str) (x : ℕ) → str_eq unit word ≡ true → x ≡ d → IsSpan n word x → IsSpan n unit d
    is word x same e span = rw ((str_eq_iff unit word).0 same, ← e) span

    no_value : invalid unknown_time_unit ≡ value d → ⊥
    no_value x = cc

-- A duration is read off a number of 64 bits and one of five units behind it.
pub parse_duration-IsSpan :
    (s : Str) (d : ℕ)
    → parse_duration s ≡ value d
    → (n : ℕ) × (unit : Str) × IsQuantity (trim (trim s)) n unit × IsSpan n unit d
unfolding parse_duration
parse_duration-IsSpan s d h = elim (Option-cases (split_number_unit (trim s))) [
  | inl e ↦ absurd (ground (arith, e))
  | inr ((n, unit), e) ↦ (
    n,
    unit,
    split_number_unit-IsQuantity (trim s) n unit e,
    duration_of-IsSpan n unit d (ground (arith, e, h)),
  )
]

-- The bytes of a number of some unit, written in capitals.
pub data IsAmount (n : ℕ) : Str → ℕ → Type 0 where
  of_bytes : IsAmount n (bytes "B") (n * 1)
  of_kilo : IsAmount n (bytes "KB") (n * 1_000)
  of_mega : IsAmount n (bytes "MB") (n * 1_000_000)
  of_giga : IsAmount n (bytes "GB") (n * 1_000_000_000)
  of_tera : IsAmount n (bytes "TB") (n * 1_000_000_000_000)

size_factor-IsAmount :
    (n : ℕ) (unit : Str) (k : ℕ) → size_factor unit ≡ some k → IsAmount n unit (n * k)
unfolding size_factor
size_factor-IsAmount n unit k h = elim (Bool-cases (str_eq unit (bytes "B"))) [
  | inl e ↦ is (bytes "B") 1 e (rw (size_factor, e) at h) of_bytes
  | inr e ↦ elim (Bool-cases (str_eq unit (bytes "KB"))) [
    | inl f ↦ is (bytes "KB") 1_000 f (rw (size_factor, e, f) at h) of_kilo
    | inr f ↦ elim (Bool-cases (str_eq unit (bytes "MB"))) [
      | inl g ↦ is (bytes "MB") 1_000_000 g (rw (size_factor, e, f, g) at h) of_mega
      | inr g ↦ elim (Bool-cases (str_eq unit (bytes "GB"))) [
        | inl i ↦ is (bytes "GB") 1_000_000_000 i (rw (size_factor, e, f, g, i) at h) of_giga
        | inr i ↦ elim (Bool-cases (str_eq unit (bytes "TB"))) [
          | inl l ↦
              is (bytes "TB") 1_000_000_000_000 l (rw (size_factor, e, f, g, i, l) at h) of_tera
          | inr l ↦ absurd (no_factor (rw (size_factor, e, f, g, i, l) at h))
        ]
      ]
    ]
  ]
]
  where
    is :
        (word : Str) (x : ℕ)
        → str_eq unit word ≡ true
        → ◌≡◌ {A = Option ℕ} (some x) (some k)
        → IsAmount n word (n * x)
        → IsAmount n unit (n * k)
    is word x same e amount =
        let factor : x ≡ k = cc in rw ((str_eq_iff unit word).0 same, ← factor) amount

    no_factor : ◌≡◌ {A = Option ℕ} none (some k) → ⊥
    no_factor x = cc

checked_size-eq : (n k m : ℕ) → checked_size n k ≡ value m → n * k ≡ m
checked_size-eq n k m h = elim (Bool-cases (ltb (n * k) (2 ^ 64))) [
  | inl e ↦ value-injective (n * k) m (rw (checked_size, e) at h)
  | inr e ↦ absurd (overflows (rw (checked_size, e) at h))
]
  where
    overflows : invalid size_overflow ≡ value m → ⊥
    overflows x = cc

size_of-IsAmount :
    (n : ℕ) (unit : Str) (m : ℕ) → size_of n unit ≡ value m → IsAmount n (to_ascii_uppercase unit) m
unfolding size_of
size_of-IsAmount n unit m h = elim (Option-cases (size_factor (to_ascii_uppercase unit))) [
  | inl e ↦ absurd (unknown (rw (size_of, e) at h))
  | inr (k, e) ↦
      subst (IsAmount n (to_ascii_uppercase unit)) (checked_size-eq n k m (rw (size_of, e) at h))
        (size_factor-IsAmount n (to_ascii_uppercase unit) k e)
]
  where
    unknown : invalid unknown_size_unit ≡ value m → ⊥
    unknown x = cc

-- A size is a number of 64 bits, or is read off one and one of five units behind it.
pub parse_size-IsAmount :
    (s : Str) (m : ℕ)
    → parse_size s ≡ value m
    → (parse_uint (2 ^ 64) (trim s) ≡ some m)
      ⊎ ((n : ℕ) × (unit : Str) × IsQuantity (trim (trim s)) n unit
          × IsAmount n (to_ascii_uppercase unit) m)
unfolding parse_size
parse_size-IsAmount s m h = elim (Option-cases (parse_uint (2 ^ 64) (trim s))) [
  | inr (k, f) ↦ inl (ground (arith, f, h))
  | inl f ↦ elim (Option-cases (split_number_unit (trim s))) [
    | inl e ↦ absurd (ground (arith, e, f, h))
    | inr ((n, unit), e) ↦ inr (
      n,
      unit,
      split_number_unit-IsQuantity (trim s) n unit e,
      size_of-IsAmount n unit m (ground (arith, e, f, h)),
    )
  ]
]
