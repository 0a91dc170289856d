-- ===== src/Pipeline/Tests.antt =====
-- Runs of the ingress phase, and its theorems at concrete inputs.
use pulsate.Prelude.{◌≡◌, refl, false, none, some, List, [], ◌∷◌, Str, All, bytes}
use pulsate.Net.{IpAddr, v4}
use pulsate.Waf.Cidr.{contains, bit_and, shift_left, v4_mask, v6_mask}
use pulsate.Waf.Engine.{
  block, decode_bytes, strip_comments, collapse, has_text, find_in, decode_passes, normalize,
  detect, inspect,
}
use pulsate.Waf.Acl.{check, to_canonical}
use pulsate.Waf.RateLimiter.{Buckets}
use pulsate.Pipeline.{
  Mw, strips_prefix, cors_for, ip_acl, waf_engine, blocked, RequestView, preflight, normalize_path,
  mw_round, ingress,
}
use pulsate.Pipeline.Passage.{Permits, ingress-Permits}

-- What the runs compute through.
program : Unit {0}
unfolding normalize_path mw_round ingress check to_canonical contains bit_and shift_left v4_mask
    v6_mask decode_bytes strip_comments collapse has_text find_in decode_passes normalize detect
    inspect
program = tt

abbrev show_ip : IpAddr → Str
show_ip ip = bytes "ip"

abbrev lossy : Str → Str
lossy s = s

abbrev request : RequestView
request = record {
  method = bytes "OPTIONS";
  path = bytes "/api";
  path_and_query = bytes "/api";
  origin = some (bytes "o");
  client_ip = some (v4 7);
}

abbrev doors : List (Mw × Buckets)
doors = (strips_prefix (bytes "/api"), []) ∷ (ip_acl (record { allow = []; deny = [] }), []) ∷ []

through_run :
    ingress show_ip lossy 5 doors request ≡ (none, record request { path = bytes "/" }, doors)
unfolding program
through_run = refl

-- A firewall that blocks, and a list with a denied range.
abbrev guarded : List (Mw × Buckets)
guarded =
    (waf_engine block, [])
    ∷ (ip_acl (record { allow = []; deny = record { base = v4 9; prefix = 32 } ∷ [] }), [])
    ∷ []

guarded_run : (ingress show_ip lossy 5 guarded request).0 ≡ none
unfolding program
guarded_run = refl

denied_run :
    (ingress show_ip lossy 5 guarded (record request { client_ip = some (v4 9) })).0
    ≡ some (blocked 403)
unfolding program
denied_run = refl

matched_run :
    (ingress show_ip lossy 5 guarded (record request { path_and_query = bytes "/?q=<script>" })).0
    ≡ some (blocked 403)
unfolding program
matched_run = refl

ingress-Permits_example : All (Permits lossy (some (v4 7)) (bytes "/api")) guarded
ingress-Permits_example = ingress-Permits show_ip lossy 5 guarded request guarded_run

preflight_run :
    (ingress show_ip lossy 5 ((cors_for [] [] false, []) ∷ doors) request).0
    ≡ some (preflight [] [] false (some (bytes "o")))
unfolding program
preflight_run = refl
