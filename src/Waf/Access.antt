-- ===== src/Waf/Access.antt =====
-- `IpAcl::check`: who is let in.
use pulsate.Prelude.{
  ℕ, ◌+◌, ◌*◌, ◌/◌, ◌%◌, ◌^◌, ◌<◌, ◌≤◌, ◌≡◌, ◌≢◌, ◌⊎◌, inl, inr, refl, sym, ◌∙◌, ap, true, false,
  Option, none, some, List, [], ◌∷◌, Str, split_once, parse_uint, In, In-of_any, any, any-false,
  All, is_empty, arith, Bool-cases, Option-cases,
}
use pulsate.Net.{IpAddr, v4, v6}
use pulsate.Waf.Cidr.{
  Cidr, contains, invalid_address, invalid_prefix, parsed, width, bounded, from_parts, from_str,
}
use pulsate.Waf.Acl.{Block, IpAcl, to_canonical, not_listed, denied, check}

-- A range of the list takes the address.
abbrev pub Takes : List Cidr → IpAddr → Type 0
Takes cs ip = (c : Cidr) × In c cs × (contains c ip ≡ true)

abbrev pub TakesNot : List Cidr → IpAddr → Type 0
TakesNot cs ip = All (λ c. contains c ip ≡ false) cs

-- An address is let in exactly if an allowed range takes it, or if nothing is allowed by name and no
-- denied range takes it. Otherwise it is blocked with status 403.
pub check_lem :
    (show_ip : IpAddr → Str) (acl : IpAcl) (ip : IpAddr)
    → ((check show_ip acl ip ≡ none)
        × (Takes acl.allow (to_canonical ip)
            ⊎ ((acl.allow ≡ []) × TakesNot acl.deny (to_canonical ip))))
      ⊎ ((b : Block) × (check show_ip acl ip ≡ some b)
          × (b.status ≡ 403)
          × TakesNot acl.allow (to_canonical ip)
          × ((acl.allow ≢ []) ⊎ Takes acl.deny (to_canonical ip)))
unfolding check
check_lem show_ip acl ip = elim (Bool-cases (any (λ c. contains c ip') acl.allow)) [
  | inl hit ↦ inl (rw hit refl, inl (In-of_any _ acl.allow hit))
  | inr miss ↦ elim (Bool-cases (is_empty acl.allow)) [
    | inr listed ↦ inr (
      not_listed show_ip ip',
      rw (miss, listed) refl,
      refl,
      any-false _ acl.allow miss,
      inl (λ h. ground arith),
    )
    | inl unlisted ↦ elim (Bool-cases (any (λ c. contains c ip') acl.deny)) [
      | inl hit ↦ inr (
        denied show_ip ip',
        rw (miss, unlisted, hit) refl,
        refl,
        any-false _ acl.allow miss,
        inr (In-of_any _ acl.deny hit),
      )
      | inr clear ↦ inl (
        rw (miss, unlisted, clear) refl,
        inr (nil_of_empty acl.allow unlisted, any-false _ acl.deny clear),
      )
    ]
  ]
]
  where
    ip' : IpAddr
    ip' = to_canonical ip

    nil_of_empty : (cs : List Cidr) → is_empty cs ≡ true → cs ≡ []
    nil_of_empty [] h = refl
    nil_of_empty (c ∷ cs) h = cc

-- An IPv4 address is treated alike however it is written: as itself or mapped into IPv6.
pub check-mapped :
    (show_ip : IpAddr → Str) (acl : IpAcl) (a : ℕ)
    → a < 2 ^ 32
    → check show_ip acl (v6 (65_535 * 2 ^ 32 + a)) ≡ check show_ip acl (v4 a)
unfolding check to_canonical
check-mapped show_ip acl a small =
    let top : (65_535 * 2 ^ 32 + a) / 2 ^ 32 ≡ 65_535 = omega arith in
    let low : (65_535 * 2 ^ 32 + a) % 2 ^ 32 ≡ a = omega arith in
    let same : to_canonical (v6 (65_535 * 2 ^ 32 + a)) ≡ v4 a = rw (top, low) refl in rw same refl

-- A range that `from_str` reads has the address in front of the slash, and a prefix within the
-- family's width: the number behind the slash, and the full width where there is no slash.
pub from_str_lem :
    (parse_ip : Str → Option IpAddr) (s : Str) (c : Cidr)
    → from_str parse_ip s ≡ parsed c
    → (c.prefix ≤ width c.base)
      × (((split_once b'/' s ≡ none) × (parse_ip s ≡ some c.base) × (c.prefix ≡ width c.base))
          ⊎ ((a : Str) × (p : Str) × (split_once b'/' s ≡ some (a, p))
              × (parse_ip a ≡ some c.base)
              × (parse_uint 256 p ≡ some c.prefix)))
unfolding from_str from_parts
from_str_lem parse_ip s c h = elim (Option-cases (split_once b'/' s)) [
  | inl whole ↦ elim (Option-cases (parse_ip s)) [
    | inl bad ↦ absurd (is_error (rw (whole, from_str, from_parts, bad) at h))
    | inr (b, good) ↦
        let (base, prefix, small) =
          of_bounded b (width b) (rw (whole, from_str, from_parts, good) at h) in
        (rw base (rw prefix small), inl (whole, good ∙ ap some (sym base), rw base prefix))
  ]
  | inr ((a, p), parts) ↦ elim (Option-cases (parse_ip a)) [
    | inl bad ↦ absurd (is_error (rw (parts, from_str, from_parts, bad) at h))
    | inr (b, good) ↦ elim (Option-cases (parse_uint 256 p)) [
      | inl bad ↦ absurd (is_wrong (rw (parts, from_str, from_parts, good, bad) at h))
      | inr (n, number) ↦
          let (base, prefix, small) =
            of_bounded b n (rw (parts, from_str, from_parts, good, number) at h) in
          (
            rw base (rw prefix small),
            inr (a, p, parts, good ∙ ap some (sym base), number ∙ ap some (sym prefix)),
          )
    ]
  ]
]
  where
    is_error : invalid_address s ≡ parsed c → ⊥
    is_error x = cc

    is_wrong : invalid_prefix s ≡ parsed c → ⊥
    is_wrong x = cc

    of_bounded :
        (b : IpAddr) (n : ℕ)
        → bounded s b n ≡ parsed c
        → (c.base ≡ b) × (c.prefix ≡ n) × (n ≤ width b)
    of_bounded b n x = ground arith
