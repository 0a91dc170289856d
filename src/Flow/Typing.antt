-- ===== src/Flow/Typing.antt =====
-- What an atom is typed as fits the machine's numbers.
use pulsate.Prelude.{ℕ, ◌*◌, ◌^◌, ◌<◌, ◌≡◌, ◌⊎◌, trim, some, Str, parse_uint}
use pulsate.Util.Units.{to_ascii_uppercase}
use pulsate.Util.Bounds.{IsQuantity, IsSpan, IsAmount}
use pulsate.Flow.Value.{pos, negsuc, Value, int, duration, size, rate, array, env}

-- The text is a number and a unit, and the duration is that many of the unit.
abbrev pub SpanOf : Str → ℕ → Type 0
SpanOf raw d = (n : ℕ) × (unit : Str) × IsQuantity (trim (trim raw)) n unit × IsSpan n unit d

-- The text is a number, or a number and a unit, and the size is that many bytes or of the unit.
abbrev pub AmountOf : Str → ℕ → Type 0
AmountOf raw m =
    (parse_uint (2 ^ 64) (trim raw) ≡ some m)
    ⊎ ((n : ℕ) × (unit : Str) × IsQuantity (trim (trim raw)) n unit
        × IsAmount n (to_ascii_uppercase unit) m)

-- The number of a value is one of the type that holds it in the source, a duration and a size are
-- what the text says; an atom is no array and no environment reference.
pub IsSized : Str → Value → Type 0
IsSized raw (int (pos n)) = n < 2 ^ 63
IsSized raw (int (negsuc n)) = n < 2 ^ 63
IsSized raw (duration d) = (d < 2 ^ 64 * 1_000_000_000) × SpanOf raw d
IsSized raw (size n) = (n < 2 ^ 64) × AmountOf raw n
IsSized raw (rate count per) = count < 2 ^ 64
IsSized raw (array vs) = ⊥
IsSized raw (env var d) = ⊥
IsSized raw v = Unit {0}
