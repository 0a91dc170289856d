-- ===== src/Router/Tests.antt =====
-- Runs of the router, and its theorems at concrete inputs.
use pulsate.Prelude.{
  ◌≡◌, refl, Option, none, some, Str, [], ◌∷◌, ◌++◌, bytes, All, In, IsBest, max_from, arith,
  strip_last, split_once,
}
use pulsate.Router.{
  MatchKind, prefix, exact, regex, respond, Route, SiteRoutes, Router, score, kind_score, prefix_of,
  with_slash, host_pattern_score, hosts_score, host_score, host_without_port, route,
}
use pulsate.Router.Choice.{one_site}
use pulsate.Router.Hosts.{wildcard_without_dot}
use pulsate.Router.Precedence.{Matches, Yields, route_precedence}

-- What the runs compute through.
program : Unit {0}
unfolding score kind_score prefix_of with_slash host_pattern_score hosts_score host_score
    host_without_port route max_from strip_last split_once
program = tt

abbrev Plain : Type 0
Plain = Route (Unit {0}) (Unit {0})

abbrev plain : MatchKind → Str → Option Str → Plain
plain kind pattern method = record {
  kind = kind;
  pattern = pattern;
  method = method;
  middleware = [];
  cache = none;
  handler = respond 200 pattern;
}

abbrev catch_all : Plain
catch_all = plain prefix (bytes "/*") none

abbrev api : Plain
api = plain prefix (bytes "/api/*") none

abbrev health : Plain
health = plain exact (bytes "/api/health") none

abbrev literal : Plain
literal = plain regex (bytes "/api") none

abbrev host : Str
host = bytes "app.example.com"

abbrev table : Router (Unit {0}) (Unit {0})
table = one_site host (literal ∷ catch_all ∷ api ∷ health ∷ [])

exact_run :
    route table (bytes "app.example.com:8080") (bytes "/api/health") (bytes "GET") ≡ some health
unfolding program
exact_run = refl

longest_run : route table host (bytes "/api/users") (bytes "GET") ≡ some api
unfolding program
longest_run = refl

boundary_run : route table host (bytes "/apiary") (bytes "GET") ≡ some catch_all
unfolding program
boundary_run = refl

-- The regex route comes last, behind the catch-all.
regex_run :
    route (one_site host (literal ∷ catch_all ∷ [])) host (bytes "/api") (bytes "GET")
    ≡ some catch_all
unfolding program
regex_run = refl

wildcard_run : host_pattern_score (bytes "*.example.com") (bytes "example.com") ≡ none
unfolding program
wildcard_run = refl

route_precedence_example :
    (s : SiteRoutes (Unit {0}) (Unit {0})) × IsBest
      (host_score (host_without_port host))
      table.sites
      s
    × In health s.routes
    × Matches (bytes "/api/health") (bytes "GET") health
    × All (Yields (bytes "/api/health") (bytes "GET") health) s.routes
unfolding program
route_precedence_example =
    route_precedence table host (bytes "/api/health") (bytes "GET") health (omega arith) refl

wildcard_without_dot_example :
    host_pattern_score (bytes "*." ++ bytes "example.com") (bytes "evil" ++ bytes "example.com")
    ≡ some 2
wildcard_without_dot_example =
    wildcard_without_dot (bytes "evil") (bytes "example.com") (λ e. cc) (λ e. ground arith)
