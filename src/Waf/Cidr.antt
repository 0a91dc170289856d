-- ===== src/Waf/Cidr.antt =====
-- crates/pulsate-waf/src/cidr.rs: `Cidr`. An address is its value as a big-endian number. Parsing an
-- address is the standard library's, a parameter; an error stands for its message.
use pulsate.Prelude.{
  ℕ, zero, suc, ◌+◌, ◌-◌, ◌*◌, ◌/◌, ◌%◌, ◌^◌, Bool, false, Option, none, some, Str, ◌==◌, leb, ltb,
  if◌then◌else◌, split_once, parse_uint,
}
use pulsate.Net.{IpAddr, v4, v6}

pub record Cidr : Type 0 where
  pub base : IpAddr
  pub prefix : ℕ

-- `x & y` on `w` bits.
unfoldable pub bit_and : ℕ → ℕ → ℕ → ℕ
bit_and zero x y = 0
bit_and (suc w) x y = (x % 2) * (y % 2) + 2 * bit_and w (x / 2) (y / 2)

-- `x << k` on `w` bits, bit by bit.
unfoldable pub shift_left : ℕ → ℕ → ℕ → ℕ
shift_left w x zero = x
shift_left w x (suc k) = shift_left w x k * 2 % 2 ^ w

unfoldable pub v4_mask : ℕ → ℕ
v4_mask prefix =
    if prefix == 0
    then 0
    else if leb 32 prefix
    then 2 ^ 32 - 1
    else shift_left 32 (2 ^ 32 - 1) (32 - prefix)

unfoldable pub v6_mask : ℕ → ℕ
v6_mask prefix =
    if prefix == 0
    then 0
    else if leb 128 prefix
    then 2 ^ 128 - 1
    else shift_left 128 (2 ^ 128 - 1) (128 - prefix)

abbrev in_family : IpAddr → ℕ → IpAddr → Bool
in_family (v4 base) prefix (v4 ip) =
    bit_and 32 base (v4_mask prefix) == bit_and 32 ip (v4_mask prefix)
in_family (v6 base) prefix (v6 ip) =
    bit_and 128 base (v6_mask prefix) == bit_and 128 ip (v6_mask prefix)
in_family (v4 base) prefix (v6 ip) = false
in_family (v6 base) prefix (v4 ip) = false

unfoldable pub contains : Cidr → IpAddr → Bool
contains c ip = in_family c.base c.prefix ip

pub data CidrResult : Type 0 where
  invalid_address invalid_prefix : Str → CidrResult
  prefix_too_large : ℕ → Str → CidrResult
  parsed : Cidr → CidrResult

abbrev pub width : IpAddr → ℕ
width (v4 a) = 32
width (v6 a) = 128

-- The last test of `from_str`.
abbrev pub bounded : Str → IpAddr → ℕ → CidrResult
bounded s base prefix =
    if ltb (width base) prefix
    then prefix_too_large prefix s
    else parsed (record { base = base; prefix = prefix })

module _ (parse_ip : Str → Option IpAddr) where
  -- `from_str` behind the split at the slash.
  unfoldable pub from_parts : Str → Str → Option Str → CidrResult
  from_parts s addr prefix = elim (parse_ip addr) [
    | none ↦ invalid_address s
    | some base ↦ elim prefix [
      | none ↦ bounded s base (width base)
      | some p ↦ elim (parse_uint 256 p) [ none ↦ invalid_prefix s | some n ↦ bounded s base n ]
    ]
  ]

  unfoldable pub from_str : Str → CidrResult
  from_str s = elim (split_once b'/' s) [
    | none ↦ from_parts s s none
    | some (a, p) ↦ from_parts s a (some p)
  ]
