-- ===== src/Waf/Acl.antt =====
-- crates/pulsate-waf/src/lib.rs: `Block` and `IpAcl`. The text of an address in a reason is the
-- standard library's, a parameter.
use pulsate.Prelude.{
  ℕ, ◌/◌, ◌%◌, ◌^◌, not, Option, none, some, List, [], ◌∷◌, ◌++◌, Str, bytes, ◌==◌, if◌then◌else◌,
  is_empty, any,
}
use pulsate.Core.{Code, http_status, waf_ip_denied}
use pulsate.Net.{IpAddr, v4, v6}
use pulsate.Waf.Cidr.{Cidr, contains}

pub record Block : Type 0 where
  pub code : Code
  pub status : ℕ
  pub reason : Str

abbrev pub new_block : Code → Str → Block
new_block code reason = record { code = code; status = http_status code; reason = reason }

pub record IpAcl : Type 0 where
  pub allow : List Cidr
  pub deny : List Cidr

abbrev pub open_acl : IpAcl
open_acl = record { allow = []; deny = [] }

abbrev pub allow : Cidr → IpAcl → IpAcl
allow cidr acl = record acl { allow = acl.allow ++ (cidr ∷ []) }

abbrev pub deny : Cidr → IpAcl → IpAcl
deny cidr acl = record acl { deny = acl.deny ++ (cidr ∷ []) }

-- `IpAddr::to_canonical`: an IPv4-mapped address, `::ffff:0:0/96`, becomes its IPv4 address.
unfoldable pub to_canonical : IpAddr → IpAddr
to_canonical (v4 a) = v4 a
to_canonical (v6 a) = if a / 2 ^ 32 == 65_535 then v4 (a % 2 ^ 32) else v6 a

module _ (show_ip : IpAddr → Str) where
  abbrev pub not_listed : IpAddr → Block
  not_listed ip =
      new_block waf_ip_denied (bytes "ip " ++ (show_ip ip ++ bytes " not in allow list"))

  abbrev pub denied : IpAddr → Block
  denied ip = new_block waf_ip_denied (bytes "ip " ++ (show_ip ip ++ bytes " denied"))

  unfoldable pub check : IpAcl → IpAddr → Option Block
  check acl ip =
      let ip' = to_canonical ip in
      if any (λ c. contains c ip') acl.allow
      then none
      else if not (is_empty acl.allow)
      then some (not_listed ip')
      else if any (λ c. contains c ip') acl.deny
      then some (denied ip')
      else none
