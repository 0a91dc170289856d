-- ===== src/Prelude/Sorted.antt =====
-- `BTreeSet<String>`: a list of byte strings in strictly ascending order.
use mathlib.Core.Path.{◌≡◌, refl}
use mathlib.Core.Logic.{inl, inr, ◌≢◌}
use mathlib.Core.Bool.{Bool, true, false, ◌&&◌, ◌||◌, not}
use mathlib.Core.List.{List, [], ◌∷◌}
use native.Mathlib.Omega.{arith}
use pulsate.Prelude.Tests.{ltb, ◌==◌, if◌then◌else◌, Bool-cases}
use pulsate.Prelude.Equality.{Str, str_eq, str_eq_iff}

-- The order of byte strings.
abbrev pub str_lt : Str → Str → Bool
str_lt [] [] = false
str_lt [] (d ∷ t) = true
str_lt (c ∷ s) [] = false
str_lt (c ∷ s) (d ∷ t) = ltb c d || (c == d && str_lt s t)

pub str_lt_irrefl : (s : Str) → str_lt s s ≡ false
str_lt_irrefl [] = refl
str_lt_irrefl (c ∷ s) = ground (arith, str_lt_irrefl s)

pub str_lt_trans : (s t u : Str) → str_lt s t ≡ true → str_lt t u ≡ true → str_lt s u ≡ true
str_lt_trans [] [] u h g = cc
str_lt_trans [] (d ∷ t) [] h g = cc
str_lt_trans [] (d ∷ t) (x ∷ u) h g = refl
str_lt_trans (c ∷ s) [] u h g = cc
str_lt_trans (c ∷ s) (d ∷ t) [] h g = cc
str_lt_trans (c ∷ s) (d ∷ t) (x ∷ u) h g = ground (arith, str_lt_trans s t u)

pub str_lt_total : (s t : Str) → str_lt s t ≡ false → s ≢ t → str_lt t s ≡ true
str_lt_total [] [] h n = absurd (n refl)
str_lt_total [] (d ∷ t) h n = cc
str_lt_total (c ∷ s) [] h n = refl
str_lt_total (c ∷ s) (d ∷ t) h n = elim (Bool-cases (c == d)) [
  | inl e ↦ ground (arith, str_lt_total s t (ground arith) (λ same. n (ground arith)))
  | inr e ↦ ground arith
]

-- Every element lies above `s`.
abbrev pub AllAbove : Str → List Str → Type 0
AllAbove s [] = Unit {0}
AllAbove s (t ∷ ts) = (str_lt s t ≡ true) × AllAbove s ts

abbrev pub IsAscending : List Str → Type 0
IsAscending [] = Unit {0}
IsAscending (s ∷ ts) = AllAbove s ts × IsAscending ts

abbrev pub contains : Str → List Str → Bool
contains s [] = false
contains s (t ∷ ts) = str_eq t s || contains s ts

abbrev pub insert_sorted : Str → List Str → List Str
insert_sorted s [] = s ∷ []
insert_sorted s (t ∷ ts) =
    if str_eq t s then t ∷ ts else if str_lt s t then s ∷ t ∷ ts else t ∷ insert_sorted s ts

abbrev pub remove_sorted : Str → List Str → List Str
remove_sorted s [] = []
remove_sorted s (t ∷ ts) = if str_eq t s then ts else t ∷ remove_sorted s ts

pub AllAbove-trans : (s t : Str) (ts : List Str) → str_lt s t ≡ true → AllAbove t ts → AllAbove s ts
AllAbove-trans s t [] h a = tt
AllAbove-trans s t (u ∷ ts) h a = (str_lt_trans s t u h a.0, AllAbove-trans s t ts h a.1)

insert_sorted-AllAbove :
    (s t : Str) (ts : List Str)
    → str_lt t s ≡ true
    → AllAbove t ts
    → AllAbove t (insert_sorted s ts)
insert_sorted-AllAbove s t [] h a = (h, tt)
insert_sorted-AllAbove s t (u ∷ ts) h a = ground (arith, insert_sorted-AllAbove s t ts h a.1)

pub insert_sorted-IsAscending :
    (s : Str) (ts : List Str) → IsAscending ts → IsAscending (insert_sorted s ts)
insert_sorted-IsAscending s [] a = (tt, tt)
insert_sorted-IsAscending s (t ∷ ts) a = elim (Bool-cases (str_eq t s)) [
  | inl e ↦ rw e a
  | inr e ↦ elim (Bool-cases (str_lt s t)) [
    | inl l ↦ rw (e, l) ((l, AllAbove-trans s t ts l a.0), a)
    | inr l ↦
        let above : str_lt t s ≡ true = str_lt_total s t l (λ q. ground (arith, str_eq_iff t s)) in
        rw (e, l) (insert_sorted-AllAbove s t ts above a.0, insert_sorted-IsAscending s ts a.1)
  ]
]

remove_sorted-AllAbove :
    (s t : Str) (ts : List Str) → AllAbove t ts → AllAbove t (remove_sorted s ts)
remove_sorted-AllAbove s t [] a = tt
remove_sorted-AllAbove s t (u ∷ ts) a = ground (arith, remove_sorted-AllAbove s t ts a.1)

pub remove_sorted-IsAscending :
    (s : Str) (ts : List Str) → IsAscending ts → IsAscending (remove_sorted s ts)
remove_sorted-IsAscending s [] a = tt
remove_sorted-IsAscending s (t ∷ ts) a =
    ground (arith, remove_sorted-IsAscending s ts a.1, remove_sorted-AllAbove s t ts a.0)

pub not-contains_above : (s : Str) (ts : List Str) → AllAbove s ts → contains s ts ≡ false
not-contains_above s [] a = refl
not-contains_above s (t ∷ ts) a =
    ground (arith, str_eq_iff t s, str_lt_irrefl s, not-contains_above s ts a.1)

pub contains-insert_sorted :
    (s u : Str) (ts : List Str) → contains u (insert_sorted s ts) ≡ (str_eq s u || contains u ts)
contains-insert_sorted s u [] = refl
contains-insert_sorted s u (t ∷ ts) =
    ground (arith, contains-insert_sorted s u ts, str_eq_iff t s, str_eq_iff s u, str_eq_iff t u)

pub contains-remove_sorted :
    (s u : Str) (ts : List Str)
    → IsAscending ts
    → contains u (remove_sorted s ts) ≡ (not (str_eq s u) && contains u ts)
contains-remove_sorted s u [] a = ground arith
contains-remove_sorted s u (t ∷ ts) a = ground (
  arith,
  contains-remove_sorted s u ts a.1,
  not-contains_above t ts a.0,
  str_eq_iff t s,
  str_eq_iff s u,
  str_eq_iff t u,
)
