-- ===== src/Util/Units.antt =====
-- crates/pulsate-util/src/parse.rs: durations and sizes. A duration is in nanoseconds; an error stands
-- for its reason.
use pulsate.Prelude.{
  ℕ, ◌*◌, ◌-◌, ◌^◌, min, ◌&&◌, Option, none, some, [], ◌∷◌, Str, str_eq, bytes, trim, parse_uint,
  is_digit, is_empty, map, leb, ltb, if◌then◌else◌,
}

pub data ParseError : Type 0 where
  empty_duration empty_size no_number_unit unknown_time_unit unknown_size_unit size_overflow :
      ParseError

pub data Parsed : Type 0 where
  value : ℕ → Parsed
  invalid : ParseError → Parsed

-- `s.find(|c| !c.is_ascii_digit())` and `split_at` there; the first part is never empty.
unfoldable pub split_digits : Str → Str × Str
split_digits [] = ([], [])
split_digits (c ∷ s) =
    let more = split_digits s in if is_digit c then (c ∷ more.0, more.1) else ([], c ∷ s)

-- `split_number_unit` behind the search.
abbrev pub number_unit : Str → Str → Option (ℕ × Str)
number_unit num [] = none
number_unit [] (c ∷ unit) = none
number_unit (d ∷ num) (c ∷ unit) = elim (parse_uint (2 ^ 64) (d ∷ num)) [
  | none ↦ none
  | some n ↦ some (n, trim (c ∷ unit))
]

unfoldable pub split_number_unit : Str → Option (ℕ × Str)
split_number_unit s = number_unit (split_digits (trim s)).0 (split_digits (trim s)).1

-- `u64::saturating_mul`
abbrev pub saturating_mul : ℕ → ℕ → ℕ
saturating_mul a b = min (a * b) (2 ^ 64 - 1)

-- The `match` on the unit of a duration.
unfoldable pub duration_of : ℕ → Str → Parsed
duration_of n unit =
    if str_eq unit (bytes "ms")
    then value (n * 1_000_000)
    else if str_eq unit (bytes "s")
    then value (n * 1_000_000_000)
    else if str_eq unit (bytes "m")
    then value (saturating_mul n 60 * 1_000_000_000)
    else if str_eq unit (bytes "h")
    then value (saturating_mul n 3_600 * 1_000_000_000)
    else if str_eq unit (bytes "d")
    then value (saturating_mul n 86_400 * 1_000_000_000)
    else invalid unknown_time_unit

unfoldable pub parse_duration : Str → Parsed
parse_duration s =
    if is_empty (trim s) then invalid empty_duration else elim (split_number_unit (trim s)) [
      | none ↦ invalid no_number_unit
      | some (n, unit) ↦ duration_of n unit
    ]

abbrev pub upper : ℕ → ℕ
upper c = if leb 97 c && leb c 122 then c - 32 else c

abbrev pub to_ascii_uppercase : Str → Str
to_ascii_uppercase s = map upper s

-- The `match` on the unit of a size.
unfoldable pub size_factor : Str → Option ℕ
size_factor unit =
    if str_eq unit (bytes "B")
    then some 1
    else if str_eq unit (bytes "KB")
    then some 1_000
    else if str_eq unit (bytes "MB")
    then some 1_000_000
    else if str_eq unit (bytes "GB")
    then some 1_000_000_000
    else if str_eq unit (bytes "TB")
    then some 1_000_000_000_000
    else none

-- `checked_mul`
abbrev pub checked_size : ℕ → ℕ → Parsed
checked_size n factor =
    if ltb (n * factor) (2 ^ 64) then value (n * factor) else invalid size_overflow

unfoldable pub size_of : ℕ → Str → Parsed
size_of n unit = elim (size_factor (to_ascii_uppercase unit)) [
  | none ↦ invalid unknown_size_unit
  | some factor ↦ checked_size n factor
]

unfoldable pub parse_size : Str → Parsed
parse_size s =
    if is_empty (trim s) then invalid empty_size else elim (parse_uint (2 ^ 64) (trim s)) [
      | some n ↦ value n
      | none ↦ elim (split_number_unit (trim s)) [
        | none ↦ invalid no_number_unit
        | some (n, unit) ↦ size_of n unit
      ]
    ]
