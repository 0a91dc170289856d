-- ===== src/Flow/Value.antt =====
-- crates/pulsate-flow/src/value.rs: typed values and the typing of bare atoms. A float is the text
-- that it is read from; a duration is in nanoseconds.
use pulsate.Prelude.{
  ℕ, zero, suc, ◌+◌, ◌-◌, ◌^◌, Bool, true, false, ◌||◌, ◌&&◌, Option, none, some, [], ◌∷◌, Str,
  str_eq, bytes, trim, parse_uint, parse_digits, is_digit, strip_prefix, split_once, ◌==◌,
  if◌then◌else◌,
}
use pulsate.Flow.Span.{Span}
use pulsate.Util.Units.{Parsed, value, invalid, parse_duration, parse_size}

-- An `i64`: `negsuc n` is -(n + 1).
pub data ℤ : Type 0 where
  pos negsuc : ℕ → ℤ

pub data RateWindow : Type 0 where
  second minute hour : RateWindow

pub record Spanned {ℓ} (A : Type ℓ) : Type ℓ where
  pub node : A
  pub span : Span

mutual
  pub data Value : Type 0 where
    str : Str → Value
    int : ℤ → Value
    float : Str → Value
    bool : Bool → Value
    duration size : ℕ → Value
    rate : ℕ → RateWindow → Value
    array : Items → Value
    ref secret : Str → Value
    env : Str → Option Str → Value

  -- The items of an array.
  pub data Items : Type 0 where
    end_of_items : Items
    item : Value → Span → Items → Items

-- `str::parse::<i64>`
unfoldable pub parse_i64 : Str → Option ℤ
parse_i64 [] = none
parse_i64 (c ∷ []) = if is_digit c then some (pos (c - 48)) else none
parse_i64 (c ∷ d ∷ s) =
    if c == b'-'
    then elim (parse_digits (2 ^ 63 + 1) 0 (d ∷ s)) [
      | none ↦ none
      | some zero ↦ some (pos zero)
      | some (suc n) ↦ some (negsuc n)
    ]
    else elim (parse_uint (2 ^ 63) (c ∷ d ∷ s)) [ none ↦ none | some n ↦ some (pos n) ]

unfoldable pub window_of : Str → Option RateWindow
window_of unit =
    if str_eq unit (bytes "s") || str_eq unit (bytes "sec")
    then some second
    else if str_eq unit (bytes "min") || str_eq unit (bytes "m")
    then some minute
    else if str_eq unit (bytes "h") || str_eq unit (bytes "hr")
    then some hour
    else none

abbrev pub rate_of : Option ℕ → Option RateWindow → Option Value
rate_of (some count) (some per) = some (rate count per)
rate_of none per = none
rate_of (some count) none = none

unfoldable pub try_rate : Str → Option Value
try_rate s = elim (split_once b'/' s) [
  | none ↦ none
  | some (num, unit) ↦ rate_of (parse_uint (2 ^ 64) num) (window_of unit)
]

abbrev pub count_dots : Str → ℕ
count_dots [] = 0
count_dots (c ∷ s) = if c == b'.' then suc (count_dots s) else count_dots s

abbrev pub all_float : Str → Bool
all_float [] = true
all_float (c ∷ s) = (is_digit c || c == b'.') && all_float s

abbrev pub any_digit : Str → Bool
any_digit [] = false
any_digit (c ∷ s) = is_digit c || any_digit s

-- Of digits and dots, `str::parse::<f64>` reads the texts with at most one dot and at least one digit.
unfoldable pub try_float : Str → Option Str
try_float s = if all_float s && (count_dots s == 1 && any_digit s) then some s else none

abbrev pub has_numeric_prefix : Str → Bool
has_numeric_prefix [] = false
has_numeric_prefix (c ∷ s) = is_digit c

abbrev pub with_unit : Str → Parsed → Parsed → Value
with_unit raw (value d) s = duration d
with_unit raw (invalid e) (value s) = size s
with_unit raw (invalid e) (invalid f) = str raw

-- `type_atom` behind the tests for prefixes and words.
unfoldable pub type_number : Str → Value
type_number raw = elim (try_rate raw) [
  | some r ↦ r
  | none ↦ elim (parse_i64 raw) [
    | some i ↦ int i
    | none ↦ elim (try_float raw) [
      | some f ↦ float f
      | none ↦
          if has_numeric_prefix raw
          then with_unit raw (parse_duration raw) (parse_size raw)
          else str raw
    ]
  ]
]

unfoldable pub type_word : Str → Value
type_word raw =
    if str_eq raw (bytes "true") || str_eq raw (bytes "on")
    then bool true
    else if str_eq raw (bytes "false") || str_eq raw (bytes "off")
    then bool false
    else type_number raw

unfoldable pub type_atom : Str → Value
type_atom raw = elim (strip_prefix raw (bytes "@")) [
  | some name ↦ ref name
  | none ↦ elim (strip_prefix raw (bytes "secret://")) [
    | some name ↦ secret name
    | none ↦ type_word raw
  ]
]

-- `inner.split_once(":-")`
unfoldable pub split_default : Str → Option (Str × Str)
split_default [] = none
split_default (c ∷ s) = elim (strip_prefix (c ∷ s) (bytes ":-")) [
  | some d ↦ some ([], d)
  | none ↦ elim (split_default s) [ none ↦ none | some (var, d) ↦ some (c ∷ var, d) ]
]

unfoldable pub type_env : Str → Value
type_env inner = elim (split_default inner) [
  | some (var, d) ↦ env (trim var) (some d)
  | none ↦ env (trim inner) none
]
