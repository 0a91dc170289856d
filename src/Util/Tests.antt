-- ===== src/Util/Tests.antt =====
-- Runs of the unit parsers and the buffer pool.
use pulsate.Prelude.{◌≡◌, refl, bytes, trim, parse_uint, parse_digits}
use pulsate.Util.Units.{
  value, invalid, unknown_time_unit, size_overflow, split_digits, split_number_unit, duration_of,
  parse_duration, size_factor, size_of, parse_size,
}

-- What the runs compute through.
program : Unit {0}
unfolding trim parse_uint parse_digits split_digits split_number_unit duration_of parse_duration
    size_factor size_of parse_size
program = tt

duration_run : parse_duration (bytes " 15 m") ≡ value 900_000_000_000
unfolding program
duration_run = refl

bad_unit_run : parse_duration (bytes "15y") ≡ invalid unknown_time_unit
unfolding program
bad_unit_run = refl

size_run : parse_size (bytes "10mb") ≡ value 10_000_000
unfolding program
size_run = refl

overflow_run : parse_size (bytes "18446744073709551615KB") ≡ invalid size_overflow
unfolding program
overflow_run = refl
