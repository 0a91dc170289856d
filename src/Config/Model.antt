-- ===== src/Config/Model.antt =====
-- crates/pulsate-config/src/model.rs: the typed configuration; and crates/pulsate-core/src/snapshot.rs.
use pulsate.Prelude.{ℕ, Bool, Option, List, ◌++◌, Str, map}
use pulsate.Flow.Span.{Span}

pub record Named : Type 0 where
  pub name : Str
  pub span : Span

pub record CacheDef : Type 0 where
  pub name : Str
  pub span : Span
  pub default_ttl_secs : ℕ
  pub methods : List Str
  pub vary : List Str
  pub swr_secs : ℕ

pub record WafDef : Type 0 where
  pub name : Str
  pub span : Span
  pub mode : Str
  pub ip_deny : List Str
  pub ip_allow : List Str

pub data MwSpec : Type 0 where
  strip_prefix : Str → MwSpec
  cors : List Str → List Str → Bool → MwSpec
  rate_limit : ℕ → ℕ → Str → MwSpec
  waf cache : Str → MwSpec

pub record Target : Type 0 where
  pub url : Str
  pub weight : ℕ

pub record Retry : Type 0 where
  pub attempts : ℕ
  pub retry_on_status : List ℕ
  pub on_connect_error : Bool

pub record Breaker : Type 0 where
  pub consecutive_failures : ℕ
  pub open_for_secs : ℕ

pub record Upstream : Type 0 where
  pub name : Str
  pub span : Span
  pub targets : List Target
  pub policy : Str
  pub retry : Option Retry
  pub breaker : Option Breaker

pub data TlsMode : Type 0 where
  auto off manual : TlsMode

pub record Host : Type 0 where
  pub pattern : Str
  pub span : Span

pub data MatchKind : Type 0 where
  prefix exact regex : MatchKind

pub data Handler : Type 0 where
  files : Str → List Str → Handler
  respond : ℕ → Str → Handler
  redirect : Str → ℕ → Handler
  proxy : Option Str → Option Str → Handler
  other : Str → Handler

pub record RefUse : Type 0 where
  pub name : Str
  pub span : Span

pub record RouteDef : Type 0 where
  pub kind : MatchKind
  pub pattern : Str
  pub method : Option Str
  pub middleware : List Str
  pub mw_specs : List MwSpec
  pub handler : Option Handler
  pub refs : List RefUse
  pub span : Span

pub record Site : Type 0 where
  pub hosts : List Host
  pub tls : TlsMode
  pub routes : List RouteDef
  pub span : Span

pub record Config : Type 0 where
  pub flow_version : Option Str
  pub upstreams : List Upstream
  pub caches : List CacheDef
  pub wafs : List WafDef
  pub user_sets : List Named
  pub sites : List Site

abbrev pub upstream_names : Config → List Named
upstream_names c = map (λ u. record { name = u.name; span = u.span }) c.upstreams

abbrev pub cache_names : Config → List Named
cache_names c = map (λ d. record { name = d.name; span = d.span }) c.caches

abbrev pub waf_names : Config → List Named
waf_names c = map (λ d. record { name = d.name; span = d.span }) c.wafs

-- A `NameRef` is a `Named` that borrows.
abbrev pub defined_names : Config → List Named
defined_names c = upstream_names c ++ (cache_names c ++ (waf_names c ++ c.user_sets))

pub record ConfigSnapshot : Type 0 where
  pub id : ℕ
  pub generation : ℕ
