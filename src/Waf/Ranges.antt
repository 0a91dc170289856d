-- ===== src/Waf/Ranges.antt =====
-- `Cidr::contains` and `IpAcl::check` against what a range of addresses is.
use pulsate.Prelude.{
  ℕ, zero, suc, ◌+◌, ◌-◌, ◌*◌, ◌/◌, ◌%◌, ◌^◌, ◌≤◌, ◌<◌, ◌≡◌, inl, inr, refl, ◌∙◌, ap, Bool, false,
  ◌==◌, ==_iff, leb, arith, Bool-cases,
}
use native.Mathlib.Nat.{mod-eq_of_lt, add-mod_right}
use pulsate.Net.{IpAddr, v4, v6}
use pulsate.Waf.Cidr.{Cidr, bit_and, shift_left, v4_mask, v6_mask, contains}

-- `x` without its `k` low bits.
unfoldable pub high_bits : ℕ → ℕ → ℕ
high_bits zero x = x
high_bits (suc k) x = high_bits k (x / 2)

-- `x` with `k` zero bits behind it.
padded : ℕ → ℕ → ℕ
padded zero x = x
padded (suc k) x = 2 * padded k x

abbrev same_range : IpAddr → ℕ → IpAddr → Bool
same_range (v4 a) prefix (v4 b) = high_bits (32 - prefix) a == high_bits (32 - prefix) b
same_range (v6 a) prefix (v6 b) = high_bits (128 - prefix) a == high_bits (128 - prefix) b
same_range (v4 a) prefix (v6 b) = false
same_range (v6 a) prefix (v4 b) = false

-- The address shares the first bits of the base, as many as the prefix says, in its family.
abbrev pub in_range : Cidr → IpAddr → Bool
in_range c ip = same_range c.base c.prefix ip

-- An address is below the bound of its family.
abbrev pub IsAddr : IpAddr → Type 0
IsAddr (v4 a) = a < 2 ^ 32
IsAddr (v6 a) = a < 2 ^ 128

padded-injective : (k x y : ℕ) → padded k x ≡ padded k y → x ≡ y
unfolding padded
padded-injective zero x y h = h
padded-injective (suc k) x y h = padded-injective k x y (omega arith)

bit_and_ones : (w x m : ℕ) → m + 1 ≡ 2 ^ w → x < 2 ^ w → bit_and w x m ≡ x
unfolding bit_and
bit_and_ones zero x m h l = omega arith
bit_and_ones (suc w) x m h l =
    let ih = bit_and_ones w (x / 2) (m / 2) (omega arith) (omega arith) in
    let odd : m % 2 ≡ 1 = omega arith in rw (ih, odd) (omega arith)

bit_and_mask :
    (w k x m : ℕ) → k ≤ w → m + 2 ^ k ≡ 2 ^ w → x < 2 ^ w → bit_and w x m ≡ padded k (high_bits k x)
unfolding padded high_bits bit_and
bit_and_mask w zero x m le h l = bit_and_ones w x m h l
bit_and_mask zero (suc k) x m le h l = absurd (omega arith)
bit_and_mask (suc w) (suc k) x m le h l =
    let ih = bit_and_mask w k (x / 2) (m / 2) (omega arith) (omega arith) (omega arith) in
    let even : m % 2 ≡ 0 = omega arith in rw (even) (omega (arith, ih))

power_le : (k w : ℕ) → k ≤ w → 2 ^ k ≤ 2 ^ w
power_le zero zero h = omega arith
power_le zero (suc w) h = omega (arith, power_le zero w (omega arith))
power_le (suc k) zero h = absurd (omega arith)
power_le (suc k) (suc w) h = omega (arith, power_le k w (omega arith))

shift_left_lem : (w k m : ℕ) → k ≤ w → m + 1 ≡ 2 ^ w → shift_left w m k + 2 ^ k ≡ 2 ^ w
unfolding shift_left
shift_left_lem w zero m h e = omega arith
shift_left_lem w (suc k) m h e =
    let ih = shift_left_lem w k m (omega arith) e in
    let room = power_le (suc k) w h in
    let some_bits = power_le 0 k (omega arith) in
    let rest = 2 ^ w - 2 ^ suc k in
    let twice : shift_left w m k * 2 ≡ rest + 2 ^ w = omega (arith, ih, room) in
    let wrapped : shift_left w m k * 2 % 2 ^ w ≡ rest =
      ap (λ t. t % 2 ^ w) twice
      ∙ add-mod_right rest (2 ^ w)
      ∙ mod-eq_of_lt (omega (arith, room, some_bits)) in
    omega (arith, wrapped, room)

-- The masks of the two families at a prefix: all but the low bits.
v4_mask_lem : (p : ℕ) → v4_mask p + 2 ^ (32 - p) ≡ 2 ^ 32
unfolding v4_mask
v4_mask_lem p = elim (Bool-cases (p == 0)) [
  | inl z ↦ let zero_bits : p ≡ 0 = ground arith in rw zero_bits (omega arith)
  | inr pos ↦ elim (Bool-cases (leb 32 p)) [
    | inl all ↦ let none_left : 32 - p ≡ 0 = ground arith in rw (pos, all, none_left) (omega arith)
    | inr part ↦ rw (pos, part) (shift_left_lem 32 (32 - p) (2 ^ 32 - 1) (omega arith) refl)
  ]
]

v6_mask_lem : (p : ℕ) → v6_mask p + 2 ^ (128 - p) ≡ 2 ^ 128
unfolding v6_mask
v6_mask_lem p = elim (Bool-cases (p == 0)) [
  | inl z ↦ let zero_bits : p ≡ 0 = ground arith in rw zero_bits (omega arith)
  | inr pos ↦ elim (Bool-cases (leb 128 p)) [
    | inl all ↦ let none_left : 128 - p ≡ 0 = ground arith in rw (pos, all, none_left) (omega arith)
    | inr part ↦ rw (pos, part) (shift_left_lem 128 (128 - p) (2 ^ 128 - 1) (omega arith) refl)
  ]
]

masked_alike :
    (w k m a b : ℕ)
    → k ≤ w
    → m + 2 ^ k ≡ 2 ^ w
    → a < 2 ^ w
    → b < 2 ^ w
    → (bit_and w a m == bit_and w b m) ≡ (high_bits k a == high_bits k b)
masked_alike w k m a b le h la lb =
    let ma = bit_and_mask w k a m le h la in
    let mb = bit_and_mask w k b m le h lb in
    ground (
      arith,
      ==_iff (bit_and w a m) (bit_and w b m),
      ==_iff (high_bits k a) (high_bits k b),
      ma,
      mb,
      padded-injective k (high_bits k a) (high_bits k b),
    )

-- A range contains an address exactly if the address is of the base's family and shares as many of
-- its first bits as the prefix says.
pub contains_lem :
    (c : Cidr) (ip : IpAddr) → IsAddr c.base → IsAddr ip → contains c ip ≡ in_range c ip
unfolding contains
contains_lem c ip lc li = of_base c.base c.prefix ip lc li
  where
    of_base :
        (base : IpAddr) (p : ℕ) (ip : IpAddr)
        → IsAddr base
        → IsAddr ip
        → contains (record { base = base; prefix = p }) ip
          ≡ in_range (record { base = base; prefix = p }) ip
    of_base (v4 a) p (v4 b) la lb =
        masked_alike 32 (32 - p) (v4_mask p) a b (omega arith) (v4_mask_lem p) la lb
    of_base (v6 a) p (v6 b) la lb =
        masked_alike 128 (128 - p) (v6_mask p) a b (omega arith) (v6_mask_lem p) la lb
    of_base (v4 a) p (v6 b) la lb = refl
    of_base (v6 a) p (v4 b) la lb = refl
