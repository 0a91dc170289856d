-- ===== src/Config/Routing.antt =====
-- crates/pulsate-config/src/compile.rs: sites and routes.
use pulsate.Prelude.{
  ℕ, zero, suc, ◌-◌, Bool, false, Option, none, some, List, [], ◌∷◌, ◌++◌, length, map, any, Str,
  str_eq, bytes, starts_with, ◌==◌, if◌then◌else◌,
}
use pulsate.Core.{cfg_missing_field, cfg_multi_handler}
use pulsate.Flow.Span.{Span, Diagnostic, error_at, with_help}
use pulsate.Flow.Value.{Value, str, bool, rate, ref}
use pulsate.Flow.Ast.{
  Arg, positional, named, Predicate, Step, Route, Directive, Stmt, Stmts, directive, block,
}
use pulsate.Flow.Ast
use pulsate.Util.Units.{to_ascii_uppercase}
use pulsate.Config.Model.{
  MwSpec, strip_prefix, cors, rate_limit, waf, cache, TlsMode, auto, off, manual, Host, MatchKind,
  prefix, exact, regex, RefUse, Handler, files, respond, redirect, proxy, other, RouteDef, Site,
}
use pulsate.Config.Args.{
  fold, to_list, value_of, first_positional, first_positional_str, named_value, named_str,
  named_str_array, or_text, or_default_text, status_arg, rate_window_secs, first_ref, collect_refs,
}
use pulsate.Config.Blocks.{is_word}

abbrev pub handlers : List Str
handlers =
    bytes "proxy"
    ∷ bytes "files"
    ∷ bytes "redirect"
    ∷ bytes "respond"
    ∷ bytes "grpc"
    ∷ bytes "ws"
    ∷ []

abbrev pub is_handler : Step → Bool
is_handler s = any (str_eq s.name.node) handlers

abbrev pub is_plugin : Step → Bool
is_plugin s = starts_with s.name.node (bytes "plugin.")

-- The steps that pass a test, with their indices from `i` on.
unfoldable pub indexed : (Step → Bool) → ℕ → List Step → List (ℕ × Step)
indexed test i [] = []
indexed test i (s ∷ ss) =
    let rest = indexed test (suc i) ss in if test s then (i, s) ∷ rest else rest

-- `rposition`
abbrev pub last_index : List (ℕ × Step) → Option ℕ
last_index [] = none
last_index ((i, s) ∷ []) = some i
last_index (p ∷ q ∷ ps) = last_index (q ∷ ps)

abbrev pub no_handler : Span → List Diagnostic
no_handler span =
    with_help (bytes "end the pipeline with a handler, e.g. `~> proxy(@api)`")
      (error_at cfg_missing_field (bytes "route has no terminal handler") span)
    ∷ []

-- A plugin that stands last is the handler of a route with no other.
abbrev pub plugin_at : Route → Option ℕ → Option ℕ × List Diagnostic
plugin_at r none = (none, no_handler r.span)
plugin_at r (some i) = if i == length r.steps - 1 then (some i, []) else (none, no_handler r.span)

-- The `match` on the number of handlers.
unfoldable pub terminal_of : Route → List (ℕ × Step) → Option ℕ × List Diagnostic
terminal_of r [] = plugin_at r (last_index (indexed is_plugin 0 r.steps))
terminal_of r ((i, s) ∷ []) = (some i, [])
terminal_of r ((i, s) ∷ (j, t) ∷ more) = (
  some i,
  with_help (bytes "a route has exactly one handler; make earlier steps middleware")
        (error_at cfg_multi_handler (bytes "a route has more than one terminal handler") t.span)
      ∷ [],
)

abbrev or_first : Option Str → Str → Option Str
or_first none s = some s
or_first (some t) s = some t

-- A round of the loop over the arguments of `proxy`.
abbrev pub proxy_arg : Value → Option Str × Option Str → Option Str × Option Str
proxy_arg (ref r) (upstream, target) = (or_first upstream r, target)
proxy_arg (str s) (upstream, target) = (upstream, or_first target s)
proxy_arg v found = found

abbrev proxy_of : Option Str × Option Str → Handler
proxy_of (upstream, target) = proxy upstream target

unfoldable pub build_handler : Step → Handler
build_handler s =
    if str_eq s.name.node (bytes "files")
    then files (or_text [] (first_positional_str s.args)) (named_str_array s.args (bytes "try"))
    else if str_eq s.name.node (bytes "respond")
    then respond (status_arg s.args 200) (or_text [] (named_str s.args (bytes "body")))
    else if str_eq s.name.node (bytes "redirect")
    then redirect
        (or_text [] (or_default_text (named_str s.args (bytes "to")) (first_positional_str s.args)))
        (status_arg s.args 308)
    else if str_eq s.name.node (bytes "proxy")
    then proxy_of (fold (λ a. proxy_arg (value_of a)) s.args (none, none))
    else other s.name.node

abbrev pub map_text : (Str → MwSpec) → Option Str → Option MwSpec
map_text f none = none
map_text f (some s) = some (f s)

abbrev is_true : Option Value → Bool
is_true (some (bool b)) = b
is_true v = false

abbrev pub rate_spec : Option Value → Option Str → Option MwSpec
rate_spec (some (rate count per)) key =
    some (rate_limit count (rate_window_secs per) (or_text (bytes "ip") key))
rate_spec v key = none

unfoldable pub build_middleware : Step → Option MwSpec
build_middleware s =
    if str_eq s.name.node (bytes "strip_prefix")
    then map_text strip_prefix (first_positional_str s.args)
    else if str_eq s.name.node (bytes "cors")
    then some (
        cors (named_str_array s.args (bytes "origins")) (named_str_array s.args (bytes "methods"))
          (is_true (named_value s.args (bytes "credentials"))))
    else if str_eq s.name.node (bytes "rate_limit")
    then rate_spec (first_positional s.args) (named_str s.args (bytes "key"))
    else if str_eq s.name.node (bytes "waf")
    then map_text waf (first_ref s.args)
    else if str_eq s.name.node (bytes "cache")
    then map_text cache (first_ref s.args)
    else none

abbrev pub step_at : ℕ → List Step → Option Step
step_at i [] = none
step_at zero (s ∷ ss) = some s
step_at (suc i) (s ∷ ss) = step_at i ss

abbrev pub handler_at : Option ℕ → List Step → Option Handler
handler_at none ss = none
handler_at (some i) ss = elim (step_at i ss) [ none ↦ none | some s ↦ some (build_handler s) ]

abbrev pub is_index : Option ℕ → ℕ → Bool
is_index none i = false
is_index (some j) i = i == j

-- The steps but for the terminal one, from the index `i` on.
abbrev pub others : Option ℕ → ℕ → List Step → List Step
others terminal i [] = []
others terminal i (s ∷ ss) =
    if is_index terminal i then others terminal (suc i) ss else s ∷ others terminal (suc i) ss

abbrev pub specs_of : List Step → List MwSpec
specs_of [] = []
specs_of (s ∷ ss) = elim (build_middleware s) [ none ↦ specs_of ss | some m ↦ m ∷ specs_of ss ]

abbrev pub refs_of : List Step → List RefUse
refs_of [] = []
refs_of (s ∷ ss) = collect_refs s.args ++ refs_of ss

abbrev pub method_of : List Predicate → Option Str
method_of [] = none
method_of (p ∷ ps) =
    if str_eq p.key (bytes "method") then some (to_ascii_uppercase p.expected) else method_of ps

abbrev pub map_kind : Ast.MatchKind → MatchKind
map_kind Ast.prefix = prefix
map_kind Ast.exact = exact
map_kind Ast.regex = regex

abbrev pub route_of : Route → Option ℕ → RouteDef
route_of r terminal = record {
  kind = map_kind r.matcher.kind;
  pattern = r.matcher.pattern.node;
  method = method_of r.matcher.predicates;
  middleware = map (λ s. s.name.node) (others terminal 0 r.steps);
  mw_specs = specs_of (others terminal 0 r.steps);
  handler = handler_at terminal r.steps;
  refs = refs_of r.steps;
  span = r.span;
}

unfoldable pub lower_route : Route → RouteDef × List Diagnostic
lower_route r =
    let found = terminal_of r (indexed is_handler 0 r.steps) in (route_of r found.0, found.1)

-- The hosts among the arguments of a site.
abbrev pub hosts_of : List Arg → List Host
hosts_of [] = []
hosts_of (positional v ∷ args) = elim v.node [
  | str s ↦ record { pattern = s; span = v.span } ∷ hosts_of args
  | _ ↦ hosts_of args
]
hosts_of (named name v ∷ args) = hosts_of args

abbrev pub tls_of : Option Value → TlsMode
tls_of (some (bool false)) = off
tls_of (some (str s)) =
    if str_eq s (bytes "off") then off else if str_eq s (bytes "auto") then auto else manual
tls_of v = manual

unfoldable pub site_round : Stmt → Site × List Diagnostic → Site × List Diagnostic
site_round (directive d) (site, diags) = (
  if is_word d (bytes "tls") then record site { tls = tls_of (first_positional d.args) } else site,
  diags,
)
site_round (block keyword args body span) (site, diags) =
    (if str_eq keyword.node (bytes "tls") then record site { tls = manual } else site, diags)
site_round (Ast.route r) (site, diags) =
    (record site { routes = site.routes ++ ((lower_route r).0 ∷ []) }, diags ++ (lower_route r).1)

unfoldable pub lower_site : List Arg → Stmts → Span → Site × List Diagnostic
lower_site args body span =
    fold site_round (to_list body)
      (record { hosts = hosts_of args; tls = auto; routes = []; span = span }, [])
