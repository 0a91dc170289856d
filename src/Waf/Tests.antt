-- ===== src/Waf/Tests.antt =====
-- Runs of the firewall's operations, and its theorems at concrete inputs.
use pulsate.Prelude.{
  ℕ, ◌+◌, ◌*◌, ◌/◌, ◌%◌, ◌<◌, ◌≡◌, ◌≢◌, refl, ◌⊎◌, min, map, true, false, none, some, List, [], ◌∷◌,
  ◌++◌, In, Str, string_eq, bytes, arith, All, split_once, parse_uint,
}
use pulsate.Net.{IpAddr, v4}
use pulsate.Waf.Audit.{AuditEntry, hex, to_le_bytes, chain_hash, append, verify_from, verify}
use pulsate.Waf.Tampering.{Collision, forge, edit_detected, forgery_accepted}
use pulsate.Waf.Chain.{append_all, numbers_from, verify-append_all}
use pulsate.Waf.RateLimiter.{RateLimit, asked, check, granted, granted_lem}
use pulsate.Waf.Cidr.{
  Cidr, bit_and, shift_left, v4_mask, v6_mask, contains, parsed, from_parts, from_str,
}
use pulsate.Waf.Ranges.{in_range, contains_lem}
use pulsate.Waf.Acl.{Block, IpAcl, open_acl, allow, deny, to_canonical}
use pulsate.Waf.Acl
use pulsate.Waf.Access.{Takes, TakesNot, check_lem}
use pulsate.Waf.Engine.{
  block, detect_only, Signature, signatures, decode_bytes, strip_comments, collapse, has_text,
  find_in, decode_passes, normalize, detect, inspect,
}
use pulsate.Waf.Evasion.{is_plain, inspect_lem, open_comment_hides}

-- What the runs compute through.
program : Unit {0}
unfolding hex to_le_bytes chain_hash append verify_from verify append_all check granted bit_and
    shift_left v4_mask v6_mask contains from_parts from_str to_canonical decode_bytes strip_comments
    collapse has_text find_in decode_passes normalize detect inspect split_once parse_uint
program = tt

-- A digest to run with: four bytes.
abbrev sum : List ℕ → ℕ
sum [] = 7
sum (c ∷ s) = c + 3 * sum s

abbrev digest : List ℕ → List ℕ
digest m = sum m % 256 ∷ (sum m / 256) % 256 ∷ 5 ∷ 9 ∷ []

digest_bytes : (m : List ℕ) → All (λ c. c < 256) (digest m)
digest_bytes m = (omega arith, (omega arith, (omega arith, (omega arith, tt))))

abbrev entry_one : AuditEntry
entry_one = record { seq = 0; event = bytes "a"; prev_hash = []; hash = bytes "36d00509" }

abbrev entry_two : AuditEntry
entry_two = record {
  seq = 1;
  event = bytes "b";
  prev_hash = bytes "36d00509";
  hash = bytes "63e30509";
}

two_written : append_all digest (bytes "a" ∷ bytes "b" ∷ []) [] ≡ entry_one ∷ entry_two ∷ []
unfolding program
two_written = refl

blocked_run : inspect (λ s. s) block (bytes "/x?q=union%2520select%2520*") ≢ none
unfolding program
blocked_run h = cc

hidden_run : detect (λ s. s) (bytes "/*/../../etc/passwd") ≡ none
unfolding program
hidden_run = refl

read_range :
    from_str (λ s. some (v4 167772160)) (bytes "10.0.0.0/8")
    ≡ parsed (record { base = v4 167772160; prefix = 8 })
unfolding program
read_range = refl

abbrev acl : IpAcl
acl =
    allow (record { base = v4 167772160; prefix = 16 })
      (deny (record { base = v4 167772160; prefix = 8 }) open_acl)

abbrev show_nothing : IpAddr → Str
show_nothing ip = []

abbrev limit_two : RateLimit
limit_two = record { limit = 2; window = 60 }

abbrev checks : List (Str × ℕ)
checks = (bytes "j", 3) ∷ (bytes "k", 20) ∷ (bytes "k", 59) ∷ (bytes "j", 99) ∷ []

verify-append_all_example :
    (verify digest (append_all digest (bytes "a" ∷ bytes "b" ∷ []) []) ≡ true)
    × (map (λ e. e.event) (append_all digest (bytes "a" ∷ bytes "b" ∷ []) [])
        ≡ bytes "a" ∷ bytes "b" ∷ [])
    × (map (λ e. e.seq) (append_all digest (bytes "a" ∷ bytes "b" ∷ []) [])
        ≡ numbers_from 0 (bytes "a" ∷ bytes "b" ∷ []))
verify-append_all_example = verify-append_all digest (bytes "a" ∷ bytes "b" ∷ []) (omega arith)

edit_detected_example :
    (verify digest (entry_one ∷ record entry_two { event = bytes "c" } ∷ []) ≡ false)
    ⊎ Collision digest
unfolding program
edit_detected_example =
    edit_detected digest (entry_one ∷ []) [] entry_two (bytes "c") digest_bytes refl
      (λ h. ground arith)

forgery_accepted_example :
    (verify digest (entry_one ∷ []) ≡ true) × (verify digest (forge entry_two ∷ []) ≡ true)
unfolding program
forgery_accepted_example =
    forgery_accepted digest (entry_one ∷ []) [] entry_two
      (
        omega arith,
        (
          omega arith,
          (
            omega arith,
            (omega arith, (omega arith, (omega arith, (omega arith, (omega arith, tt))))),
          ),
        ),
      )
      (omega arith) refl

granted_lem_example :
    granted limit_two (bytes "k") ((bytes "k", 2) ∷ checks) []
    ≡ min 2 (asked (bytes "k") ((bytes "k", 2) ∷ checks))
granted_lem_example =
    granted_lem limit_two (bytes "k") 2 checks [] refl (refl, (refl, (refl, (refl, tt))))
      (omega arith)

contains_lem_example :
    contains (record { base = v4 167772160; prefix = 8 }) (v4 167772161)
    ≡ in_range (record { base = v4 167772160; prefix = 8 }) (v4 167772161)
contains_lem_example =
    contains_lem (record { base = v4 167772160; prefix = 8 }) (v4 167772161) (omega arith)
      (omega arith)

check_lem_example :
    ((Acl.check show_nothing acl (v4 167837697) ≡ none)
      × (Takes acl.allow (to_canonical (v4 167837697))
          ⊎ ((acl.allow ≡ []) × TakesNot acl.deny (to_canonical (v4 167837697)))))
    ⊎ ((b : Block) × (Acl.check show_nothing acl (v4 167837697) ≡ some b)
        × (b.status ≡ 403)
        × TakesNot acl.allow (to_canonical (v4 167837697))
        × ((acl.allow ≢ []) ⊎ Takes acl.deny (to_canonical (v4 167837697))))
check_lem_example = check_lem show_nothing acl (v4 167837697)

abbrev ten : Cidr
ten = record { base = v4 167772160; prefix = 8 }

inspect_lem_example :
    ((inspect (λ s. s) block (bytes "/?q=%3Cscript") ≡ none)
      × ((block ≡ detect_only)
          ⊎ All
              (λ g. has_text (normalize (λ s. s) (bytes "/?q=%3Cscript")) g.needle ≡ false)
              signatures))
    ⊎ ((b : Block) × (g : Signature) × (inspect (λ s. s) block (bytes "/?q=%3Cscript") ≡ some b)
        × (b.status ≡ 403)
        × (block ≡ block)
        × In g signatures
        × (has_text (normalize (λ s. s) (bytes "/?q=%3Cscript")) g.needle ≡ true))
inspect_lem_example = inspect_lem (λ s. s) block (bytes "/?q=%3Cscript")

open_comment_hides_example : detect (λ s. s) (bytes "/*" ++ bytes "/../../etc/passwd") ≡ none
unfolding program
open_comment_hides_example =
    open_comment_hides (λ s. s) (λ s h. refl) (bytes "/../../etc/passwd") plain refl
  where
    plain : All (λ c. is_plain c ≡ true) (bytes "/../../etc/passwd")
    plain = ground arith
