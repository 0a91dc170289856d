-- ===== src/Config/Built.antt =====
-- What of an accepted configuration reaches the router and the pools.
use pulsate.Prelude.{
  ℕ, ◌*◌, ◌≡◌, inl, inr, refl, sym, ◌∙◌, ap, true, false, Option, none, some, List, [], ◌∷◌, ◌++◌,
  append-nil, Str, str_eq_iff, map, All, In, here, there, is_some, string_eq, arith, Option-cases,
}
use pulsate.Flow.Span.{Span}
use pulsate.Net.{IpAddr}
use pulsate.Router
use pulsate.Router.{SiteRoutes}
use pulsate.Proxy
use pulsate.Proxy.{RetryPolicy, BreakerPolicy, Registry, register}
use pulsate.Proxy.Targets.{AreSetUp, IsWordFor}
use pulsate.Config.Model.{
  Named, waf, Retry, Breaker, Upstream, MatchKind, prefix, exact, regex, Handler, files, respond,
  redirect, proxy, other, RouteDef, Site, Config, defined_names,
}
use pulsate.Config.Args.{fold}
use pulsate.Config.Lower.{Platform}
use pulsate.Config.Check.{is_defined, check_refs}
use pulsate.Config.Compile.{Compiled, compiled, compile}
use pulsate.Config.Valid.{AllRoutes}
use pulsate.Config.Handled.{HasHandler}
use pulsate.Config.Accepted.{compile-IsAccepted}
use pulsate.Pipeline.{Mw}
use pulsate.Config.Build.{
  CacheLayer, pool_of, find_waf, map_kind, map_handler, spec_round, build_route, build_routes,
  site_of, build_router,
}

-- What a request is matched by and what answers it, in the words of the configuration.
pub record Shape : Type 0 where
  pub kind : MatchKind
  pub pattern : Str
  pub method : Option Str
  pub handler : Option Handler

-- The kind that a route's kind stands for.
abbrev pub declared_kind : Router.MatchKind → MatchKind
declared_kind Router.prefix = prefix
declared_kind Router.exact = exact
declared_kind Router.regex = regex

-- The handler that a route's handler stands for.
abbrev pub declared_handler : Router.Handler → Handler
declared_handler (Router.files root try_files) = files root try_files
declared_handler (Router.respond status body) = respond status body
declared_handler (Router.redirect to status) = redirect to status
declared_handler (Router.proxy upstream target) = proxy upstream target
declared_handler (Router.other n) = other n

abbrev pub shape_of : Router.Route Mw CacheLayer → Shape
shape_of r = record {
  kind = declared_kind r.kind;
  pattern = r.pattern;
  method = r.method;
  handler = some (declared_handler r.handler);
}

abbrev pub shape_of_def : RouteDef → Shape
shape_of_def d = record {
  kind = d.kind;
  pattern = d.pattern;
  method = d.method;
  handler = d.handler;
}

-- The hosts of a site and the shapes of its routes.
abbrev pub site_shape : SiteRoutes Mw CacheLayer → List Str × List Shape
site_shape s = (s.hosts, map shape_of s.routes)

abbrev pub declared_shape : Site → List Str × List Shape
declared_shape s = (map (λ h. h.pattern) s.hosts, map shape_of_def s.routes)

kind_back : (k : MatchKind) → declared_kind (map_kind k) ≡ k
kind_back prefix = refl
kind_back exact = refl
kind_back regex = refl

handler_back : (h : Handler) → declared_handler (map_handler h) ≡ h
handler_back (files root try_files) = refl
handler_back (respond status body) = refl
handler_back (redirect to status) = refl
handler_back (proxy upstream target) = refl
handler_back (other n) = refl

module _ (parse_ip : Str → Option IpAddr) where
  build_routes-shapes :
      (c : Config) (ds : List RouteDef)
      → All HasHandler ds
      → map shape_of (build_routes parse_ip c ds) ≡ map shape_of_def ds
  unfolding build_route
  build_routes-shapes c [] ok = refl
  build_routes-shapes c (d ∷ ds) (has, ok) = elim (Option-cases d.handler) [
    | inl e ↦ let bad : is_some d.handler ≡ false = rw e refl in cc
    | inr (h, e) ↦
        rw (build_route, e, kind_back d.kind, handler_back h)
          (ap
            (λ xs.
              record { kind = d.kind; pattern = d.pattern; method = d.method; handler = some h }
              ∷ xs)
            (build_routes-shapes c ds ok))
  ]

  sites-shapes :
      (c : Config) (ss : List Site)
      → AllRoutes HasHandler ss
      → map site_shape (map (site_of parse_ip c) ss) ≡ map declared_shape ss
  sites-shapes c [] ok = refl
  sites-shapes c (s ∷ ss) (here_ok, ok) =
      ap (λ x. (map (λ h. h.pattern) s.hosts, x) ∷ map site_shape (map (site_of parse_ip c) ss))
        (build_routes-shapes c s.routes here_ok)
      ∙ ap (λ xs. declared_shape s ∷ xs) (sites-shapes c ss ok)

  -- The router that is built from a configuration that compile accepts has its sites, with their
  -- hosts, and their routes in their order, none missing, each with the kind, pattern, method and
  -- handler declared. Of the middleware and the caches of a route it says nothing.
  pub build_router-compile :
      (platform : Platform) (text : Str) (generation : ℕ) (x : Compiled)
      → compile platform text generation ≡ compiled x
      → map site_shape (build_router parse_ip x.config).sites ≡ map declared_shape x.config.sites
  unfolding build_router
  build_router-compile platform text generation x h =
      sites-shapes x.config x.config.sites
        (compile-IsAccepted platform text generation x h).0.handled

  -- A waf step that names an upstream is let through by the check of references where no firewall
  -- has the name, and adds nothing to the route: no firewall guards it.
  pub waf_ref_dropped :
      (c : Config) (u : Upstream) (span : Span) (built : List Mw × Option CacheLayer)
      → In u c.upstreams
      → find_waf u.name c.wafs ≡ none
      → (check_refs (defined_names c) (record { name = u.name; span = span } ∷ []) ≡ [])
        × (spec_round parse_ip c (waf u.name) built ≡ built)
  unfolding check_refs spec_round
  waf_ref_dropped c u span (mws, layer) m e = (
    rw (check_refs, defined c.upstreams m _) refl,
    rw e (ap (λ xs. (xs, layer)) (append-nil mws)),
  )
    where
      defined :
          (us : List Upstream)
          → In u us
          → (more : List Named)
          → is_defined (map (λ v. record { name = v.name; span = v.span }) us ++ more) u.name ≡ true
      defined [] m more = elim m [ ]
      defined (v ∷ us) (here same) more =
          ground (arith, (str_eq_iff v.name u.name).1 (ap (λ w. w.name) (sym same)))
      defined (v ∷ us) (there m) more = ground (arith, defined us m more)

abbrev pools : List Upstream → Registry → Registry
pools us r = fold (λ u. register (pool_of u)) us r

-- The retries are the declared ones; where none are declared, the defaults.
abbrev pub HasRetry : Option Retry → RetryPolicy → Type 0
HasRetry none r =
    (r.attempts ≡ 1) × (r.retry_on_status ≡ 502 ∷ 503 ∷ 504 ∷ []) × (r.on_connect_error ≡ true)
HasRetry (some d) r =
    (r.attempts ≡ d.attempts)
    × (r.retry_on_status ≡ d.retry_on_status)
    × (r.on_connect_error ≡ d.on_connect_error)

-- The breaker is the declared one, with its seconds in nanoseconds; where none is declared, the
-- default.
abbrev pub HasBreaker : Option Breaker → BreakerPolicy → Type 0
HasBreaker none b = (b.threshold ≡ 5) × (b.open_for ≡ 15_000_000_000)
HasBreaker (some d) b =
    (b.threshold ≡ d.consecutive_failures) × (b.open_for ≡ d.open_for_secs * 1_000_000_000)

-- A pool that is set up as the upstream declares.
pub record IsPoolOf (u : Upstream) (p : Proxy.Upstream) : Type 0 where
  pub name : p.name ≡ u.name
  pub targets : AreSetUp (map (λ t. (t.url, t.weight)) u.targets) p.backends
  pub policy : IsWordFor u.policy p.policy
  pub retry : HasRetry u.retry p.retry
  pub breaker : HasBreaker u.breaker p.breaker
