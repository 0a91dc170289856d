-- ===== src/Router.antt =====
-- crates/pulsate-router/src/lib.rs: sites, routes and the choice among them. A route carries its
-- middleware and its cache layer without reading them, so their types are parameters.
mod Choice
mod Hosts
mod Precedence
mod Tests
use pulsate.Prelude.{
  ℕ, ◌+◌, ◌%◌, ◌^◌, ◌≡◌, Bool, true, false, not, ◌||◌, ◌&&◌, Option, none, some, List, [], ◌∷◌,
  ◌++◌, length, Str, str_eq, bytes, is_empty, starts_with, ends_with, strip_prefix, strip_last,
  split_once, eq_ignore_ascii_case, ltb, leb, if◌then◌else◌, best_of,
}

pub data MatchKind : Type 0 where
  prefix exact regex : MatchKind

pub data Handler : Type 0 where
  files : Str → List Str → Handler
  respond : ℕ → Str → Handler
  redirect : Str → ℕ → Handler
  proxy : Option Str → Option Str → Handler
  other : Str → Handler

pub record Route (M C : Type 0) : Type 0 where
  pub kind : MatchKind
  pub pattern : Str
  pub method : Option Str
  pub middleware : List M
  pub cache : Option C
  pub handler : Handler

pub record SiteRoutes (M C : Type 0) : Type 0 where
  pub hosts : List Str
  pub routes : List (Route M C)

pub record Router (M C : Type 0) : Type 0 where
  pub sites : List (SiteRoutes M C)

-- `s.strip_suffix(c).unwrap_or(s)`
abbrev without_last : ℕ → Str → Str
without_last c s = elim (strip_last c s) [ none ↦ s | some r ↦ r ]

unfoldable pub prefix_of : Str → Str
unfolding strip_last
prefix_of pattern =
    let p = without_last b'/' (without_last b'*' pattern) in if str_eq p (bytes "/") then [] else p

unfoldable pub with_slash : Str → Str
with_slash pre = if ends_with pre (bytes "/") then pre else pre ++ bytes "/"

unfoldable pub host_without_port : Str → Str
host_without_port host = elim (split_once b':' host) [ none ↦ host | some (h, _) ↦ h ]

abbrev pub method_allows : Option Str → Str → Bool
method_allows none method = true
method_allows (some m) method = eq_ignore_ascii_case m method

-- `then_some`
abbrev pub then_some : Bool → ℕ → Option ℕ
then_some test n = if test then some n else none

-- `1_000 + u32::try_from(prefix.len()).unwrap_or(0)`, in 32 bits.
abbrev pub prefix_score : Str → ℕ
prefix_score pre = (1_000 + (if ltb (length pre) (2 ^ 32) then length pre else 0)) % 2 ^ 32

abbrev pub prefix_matches : Str → Str → Bool
prefix_matches pre path = is_empty pre || (str_eq path pre || starts_with path (with_slash pre))

unfoldable pub kind_score : MatchKind → Str → Str → Option ℕ
kind_score exact pattern path = then_some (str_eq pattern path) 1_000_000
kind_score prefix pattern path =
    then_some (prefix_matches (prefix_of pattern) path) (prefix_score (prefix_of pattern))
kind_score regex pattern path = then_some (str_eq pattern path) 10

-- The branches of `host_score` for one pattern.
unfoldable pub host_pattern_score : Str → Str → Option ℕ
host_pattern_score pat host =
    if str_eq pat host
    then some 3
    else if str_eq pat (bytes ":default")
    then some 1
    else elim (strip_prefix pat (bytes "*.")) [
      | none ↦ none
      | some suffix ↦ then_some (ltb (length suffix) (length host) && ends_with host suffix) 2
    ]

-- `Option::max`: nothing lies below everything.
abbrev pub max_option : Option ℕ → Option ℕ → Option ℕ
max_option none b = b
max_option (some a) none = some a
max_option (some a) (some b) = if leb a b then some b else some a

-- The loop of `host_score`.
unfoldable pub hosts_score : List Str → Str → Option ℕ → Option ℕ
hosts_score [] host best = best
hosts_score (pat ∷ pats) host best =
    hosts_score pats host (max_option best (host_pattern_score pat host))

module _ {M C : Type 0} where
  unfoldable pub score : Str → Str → Route M C → Option ℕ
  score path method r =
      if not (method_allows r.method method) then none else kind_score r.kind r.pattern path

  unfoldable pub host_score : Str → SiteRoutes M C → Option ℕ
  host_score host s = hosts_score s.hosts host none

  unfoldable pub route : Router M C → Str → Str → Str → Option (Route M C)
  route r host path method = elim (best_of (host_score (host_without_port host)) r.sites) [
    | none ↦ none
    | some site ↦ best_of (score path method) site.routes
  ]
