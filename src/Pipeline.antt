-- ===== src/Pipeline.antt =====
-- crates/pulsate-pipeline/src/lib.rs: middleware and its ingress phase. A middleware stands with the
-- buckets of its rate limiter, which other middleware leave alone; the clock is an argument.
mod Passage
mod Tests
use pulsate.Prelude.{
  ℕ, Bool, true, false, ◌&&◌, Option, none, some, List, [], ◌∷◌, ◌++◌, Str, str_eq, bytes,
  strip_prefix, eq_ignore_ascii_case, is_some, if◌then◌else◌,
}
use pulsate.Net.{IpAddr}
use pulsate.Waf.Acl.{Block, IpAcl, to_canonical}
use pulsate.Waf.Acl
use pulsate.Waf.Engine.{Mode, inspect}
use pulsate.Waf.RateLimiter.{RateOutcome, RateLimit, Buckets}
use pulsate.Waf.RateLimiter

pub data Mw : Type 0 where
  strips_prefix : Str → Mw
  headers : List (Str × Str) → List Str → Mw
  cors_for : List Str → List Str → Bool → Mw
  rate_limits : RateLimit → Str → Mw
  waf_engine : Mode → Mw
  ip_acl : IpAcl → Mw

pub record RequestView : Type 0 where
  pub method : Str
  pub path : Str
  pub path_and_query : Str
  pub origin : Option Str
  pub client_ip : Option IpAddr

-- The responses that end the phase, before they are rendered.
pub data Reply : Type 0 where
  preflight : List Str → List Str → Bool → Option Str → Reply
  blocked : ℕ → Reply
  rate_limited : RateOutcome → Reply

unfoldable pub normalize_path : Str → Str
normalize_path [] = bytes "/"
normalize_path (c ∷ s) = if str_eq (c ∷ []) (bytes "/") then c ∷ s else bytes "/" ++ (c ∷ s)

abbrev pub block_of : Option Block → Option Reply
block_of none = none
block_of (some b) = some (blocked b.status)

abbrev pub limited : RateOutcome → Option Reply
limited o = if o.allowed then none else some (rate_limited o)

abbrev path_or : RequestView → Option Str → RequestView
path_or req none = req
path_or req (some rest) = record req { path = normalize_path rest }

module _ (show_ip : IpAddr → Str) (lossy : Str → Str) where
  abbrev pub client_key : Option IpAddr → Str
  client_key none = bytes "unknown"
  client_key (some ip) = show_ip (to_canonical ip)

  abbrev pub rate_key : Str → RequestView → Str
  rate_key key req =
      if str_eq key (bytes "ip") then client_key req.client_ip else key ++ (bytes ":" ++ req.path)

  abbrev pub acl_reply : IpAcl → Option IpAddr → Option Reply
  acl_reply acl none = none
  acl_reply acl (some ip) = block_of (Acl.check show_ip acl ip)

  -- A round of the loop of `ingress`: the reply that ends it, the request and the buckets behind it.
  unfoldable pub mw_round : ℕ → Mw → Buckets → RequestView → Option Reply × RequestView × Buckets
  mw_round now (strips_prefix p) b req = (none, path_or req (strip_prefix req.path p), b)
  mw_round now (headers set remove) b req = (none, req, b)
  mw_round now (cors_for origins methods credentials) b req = (
    if eq_ignore_ascii_case req.method (bytes "OPTIONS") && is_some req.origin
        then some (preflight origins methods credentials req.origin)
        else none,
    req,
    b,
  )
  mw_round now (rate_limits rl key) b req =
      let found = RateLimiter.check rl (rate_key key req) now b in (limited found.0, req, found.1)
  mw_round now (waf_engine mode) b req = (block_of (inspect lossy mode req.path_and_query), req, b)
  mw_round now (ip_acl acl) b req = (acl_reply acl req.client_ip, req, b)

  abbrev pub after :
      Mw
      → List (Mw × Buckets)
      → (RequestView → Option Reply × RequestView × List (Mw × Buckets))
      → Option Reply × RequestView × Buckets
      → Option Reply × RequestView × List (Mw × Buckets)
  after mw rest more (some reply, req, b) = (some reply, req, (mw, b) ∷ rest)
  after mw rest more (none, req, b) =
      let (reply, req', rest') = more req in (reply, req', (mw, b) ∷ rest')

  unfoldable pub ingress :
      ℕ → List (Mw × Buckets) → RequestView → Option Reply × RequestView × List (Mw × Buckets)
  ingress now [] req = (none, req, [])
  ingress now ((mw, b) ∷ rest) req = after mw rest (ingress now rest) (mw_round now mw b req)
