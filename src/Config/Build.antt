-- ===== src/Config/Build.antt =====
-- crates/pulsate-config/src/router.rs: the routing table and the pools of a configuration. A rate limiter is
-- its limit, a firewall its mode, and the cache layer that routes share goes by the cache's name.
use pulsate.Prelude.{
  ◌*◌, Bool, true, false, Option, none, some, List, [], ◌∷◌, ◌++◌, Str, str_eq, bytes, map, Map,
  get, insert, string_eq, if◌then◌else◌,
}
use pulsate.Net.{IpAddr}
use pulsate.Router
use pulsate.Router.{SiteRoutes}
use pulsate.Proxy
use pulsate.Proxy.{
  RetryPolicy, default_retry, BreakerPolicy, default_breaker, parse, new, Registry, register,
}
use pulsate.Cache.Policy.{CacheConfig, default_config, nanos_per_sec}
use pulsate.Waf.Cidr.{
  Cidr, CidrResult, parsed, invalid_address, invalid_prefix, prefix_too_large, from_str,
}
use pulsate.Waf.Acl.{IpAcl, open_acl}
use pulsate.Waf.Acl
use pulsate.Waf.Engine.{Mode, block, detect_only}
use pulsate.Config.Model.{
  CacheDef, WafDef, MwSpec, strip_prefix, cors, rate_limit, waf, cache, Retry, Breaker, Upstream,
  MatchKind, prefix, exact, regex, Handler, files, respond, redirect, proxy, other, RouteDef, Site,
  Config,
}
use pulsate.Pipeline.{Mw, strips_prefix, cors_for, rate_limits, waf_engine, ip_acl}
use pulsate.Config.Args.{fold}

pub record CacheLayer : Type 0 where
  pub store : Str
  pub config : CacheConfig

abbrev pub retry_of : Option Retry → RetryPolicy
retry_of none = default_retry
retry_of (some r) = record {
  attempts = r.attempts;
  retry_on_status = r.retry_on_status;
  on_connect_error = r.on_connect_error;
}

abbrev pub breaker_of : Option Breaker → BreakerPolicy
breaker_of none = default_breaker
breaker_of (some b) = record {
  threshold = b.consecutive_failures;
  open_for = b.open_for_secs * nanos_per_sec;
}

-- The pool of an upstream.
unfoldable pub pool_of : Upstream → Proxy.Upstream
pool_of u =
    new u.name (map (λ t. (t.url, t.weight)) u.targets) (parse u.policy) (retry_of u.retry)
      (breaker_of u.breaker)

unfoldable pub build_upstreams : Config → Registry
build_upstreams c = fold (λ u. register (pool_of u)) c.upstreams (record { map = [] })

abbrev pub layer_of : CacheDef → CacheLayer
layer_of d = record {
  store = d.name;
  config = record default_config {
    default_ttl = d.default_ttl_secs * nanos_per_sec;
    methods = d.methods;
    vary = d.vary;
    stale_while_revalidate = d.swr_secs * nanos_per_sec;
  };
}

abbrev pub cache_layers : List CacheDef → Map Str CacheLayer
cache_layers ds = fold (λ d. insert d.name (layer_of d)) ds []

-- `Config::waf`
abbrev pub find_waf : Str → List WafDef → Option WafDef
find_waf name [] = none
find_waf name (d ∷ ds) = if str_eq d.name name then some d else find_waf name ds

abbrev pub mode_of : WafDef → Mode
mode_of d = if str_eq d.mode (bytes "detect") then detect_only else block

abbrev pub map_kind : MatchKind → Router.MatchKind
map_kind prefix = Router.prefix
map_kind exact = Router.exact
map_kind regex = Router.regex

abbrev pub map_handler : Handler → Router.Handler
map_handler (files root try_files) = Router.files root try_files
map_handler (respond status body) = Router.respond status body
map_handler (redirect to status) = Router.redirect to status
map_handler (proxy upstream target) = Router.proxy upstream target
map_handler (other n) = Router.other n

module _ (parse_ip : Str → Option IpAddr) where
  abbrev pub with_range : (Cidr → IpAcl → IpAcl) → CidrResult → IpAcl × Bool → IpAcl × Bool
  with_range add (parsed c) (acl, found) = (add c acl, true)
  with_range add (invalid_address s) r = r
  with_range add (invalid_prefix s) r = r
  with_range add (prefix_too_large n s) r = r

  abbrev pub add_ranges : (Cidr → IpAcl → IpAcl) → List Str → IpAcl × Bool → IpAcl × Bool
  add_ranges add ranges = fold (λ s. with_range add (from_str parse_ip s)) ranges

  abbrev if_any : IpAcl × Bool → Option IpAcl
  if_any (acl, true) = some acl
  if_any (acl, false) = none

  unfoldable pub build_ip_acl : List Str → List Str → Option IpAcl
  build_ip_acl deny allow =
      if_any (add_ranges Acl.deny deny (add_ranges Acl.allow allow (open_acl, false)))

  abbrev pub acl_of : Option IpAcl → List Mw
  acl_of none = []
  acl_of (some acl) = ip_acl acl ∷ []

  abbrev pub waf_of : Option WafDef → List Mw
  waf_of none = []
  waf_of (some d) = acl_of (build_ip_acl d.ip_deny d.ip_allow) ++ (waf_engine (mode_of d) ∷ [])

  -- A round of the loop over the specs: what it adds to the middleware, and the cache.
  unfoldable pub spec_round :
      Config → MwSpec → List Mw × Option CacheLayer → List Mw × Option CacheLayer
  spec_round c (strip_prefix p) (mws, layer) = (mws ++ (strips_prefix p ∷ []), layer)
  spec_round c (cors origins methods credentials) (mws, layer) =
      (mws ++ (cors_for origins methods credentials ∷ []), layer)
  spec_round c (rate_limit count per_secs key) (mws, layer) = (
    mws ++ (rate_limits (record { limit = count; window = per_secs * nanos_per_sec }) key ∷ []),
    layer,
  )
  spec_round c (waf name) (mws, layer) = (mws ++ waf_of (find_waf name c.wafs), layer)
  spec_round c (cache name) (mws, layer) = (mws, get name (cache_layers c.caches))

  abbrev pub route_with :
      RouteDef → List Mw × Option CacheLayer → Option Handler → Option (Router.Route Mw CacheLayer)
  route_with d built none = none
  route_with d built (some h) = some (record {
    kind = map_kind d.kind;
    pattern = d.pattern;
    method = d.method;
    middleware = built.0;
    cache = built.1;
    handler = map_handler h;
  })

  unfoldable pub build_route : Config → RouteDef → Option (Router.Route Mw CacheLayer)
  build_route c d = route_with d (fold (spec_round c) d.mw_specs ([], none)) d.handler

  abbrev pub build_routes : Config → List RouteDef → List (Router.Route Mw CacheLayer)
  build_routes c [] = []
  build_routes c (d ∷ ds) = elim (build_route c d) [
    | none ↦ build_routes c ds
    | some r ↦ r ∷ build_routes c ds
  ]

  abbrev pub site_of : Config → Site → SiteRoutes Mw CacheLayer
  site_of c s = record { hosts = map (λ h. h.pattern) s.hosts; routes = build_routes c s.routes }

  unfoldable pub build_router : Config → Router.Router Mw CacheLayer
  build_router c = record { sites = map (site_of c) c.sites }
