-- ===== src/Config/Check.antt =====
-- crates/pulsate-config/src/compile.rs: `validate`.
use pulsate.Prelude.{
  Bool, ◌&&◌, Option, none, some, List, [], ◌∷◌, ◌++◌, Str, str_eq, bytes, any, if◌then◌else◌,
}
use pulsate.Core.{cfg_duplicate, cfg_unknown_ref, cfg_invalid_cors, cfg_host_collision}
use pulsate.Flow.Span.{Span, Diagnostic, error_at, with_help}
use pulsate.Config.Model.{
  Named, MwSpec, cors, Host, RefUse, RouteDef, Site, Config, upstream_names, cache_names, waf_names,
  defined_names,
}
use pulsate.Config.Names.{nearest}

abbrev quote : Str → Str
quote name = bytes "`" ++ (name ++ bytes "`")

abbrev pub duplicate_of : Str → Named → Diagnostic
duplicate_of kind n = with_help (bytes "each name must be unique; remove or rename the duplicate") (
    error_at cfg_duplicate (bytes "duplicate " ++ (kind ++ (bytes " named " ++ quote n.name)))
      n.span)

-- The loop of `check_dup_names` and of `check_host_collisions`: an error for each item whose name was
-- seen before.
unfoldable pub repeats :
    {A : Type 0} → (A → Str) → (A → Diagnostic) → List Str → List A → List Diagnostic
repeats name report seen [] = []
repeats name report seen (a ∷ more) =
    if any (str_eq (name a)) seen
    then report a ∷ repeats name report seen more
    else repeats name report (name a ∷ seen) more

abbrev pub check_dup_names : Str → List Named → List Diagnostic
check_dup_names kind ns = repeats (λ n. n.name) (duplicate_of kind) [] ns

abbrev pub with_suggestion : Option Str → Diagnostic → Diagnostic
with_suggestion none d = d
with_suggestion (some s) d = with_help (bytes "did you mean `@" ++ (s ++ bytes "`?")) d

abbrev pub unknown_ref : List Named → RefUse → Diagnostic
unknown_ref defined r =
    with_suggestion (nearest r.name defined)
      (error_at cfg_unknown_ref (bytes "no definition named " ++ quote r.name) r.span)

abbrev pub is_defined : List Named → Str → Bool
is_defined defined name = any (λ n. str_eq n.name name) defined

unfoldable pub check_refs : List Named → List RefUse → List Diagnostic
check_refs defined [] = []
check_refs defined (r ∷ rs) =
    let rest = check_refs defined rs in
    if is_defined defined r.name then rest else unknown_ref defined r ∷ rest

unfoldable pub check_cors : Span → List MwSpec → List Diagnostic
check_cors span [] = []
check_cors span (cors origins methods credentials ∷ specs) =
    let rest = check_cors span specs in
    if credentials && any (λ o. str_eq o (bytes "*")) origins
    then with_help (bytes "list explicit origins, or set credentials=false") (
        error_at cfg_invalid_cors
          (bytes "cors(credentials=true) cannot be combined with a `*` origin") span)
      ∷ rest
    else rest
check_cors span (spec ∷ specs) = check_cors span specs

abbrev pub over_routes : (RouteDef → List Diagnostic) → List RouteDef → List Diagnostic
over_routes f [] = []
over_routes f (r ∷ rs) = f r ++ over_routes f rs

abbrev pub over_sites : (RouteDef → List Diagnostic) → List Site → List Diagnostic
over_sites f [] = []
over_sites f (s ∷ ss) = over_routes f s.routes ++ over_sites f ss

abbrev pub all_hosts : List Site → List Host
all_hosts [] = []
all_hosts (s ∷ ss) = s.hosts ++ all_hosts ss

abbrev pub collision : Host → Diagnostic
collision h = with_help (bytes "two sites cannot bind the same host:port") (
    error_at cfg_host_collision
      (bytes "host " ++ (quote h.pattern ++ bytes " is claimed by more than one site")) h.span)

abbrev pub check_host_collisions : Config → List Diagnostic
check_host_collisions c = repeats (λ h. h.pattern) collision [] (all_hosts c.sites)

unfoldable pub validate : Config → List Diagnostic
validate c =
    check_dup_names (bytes "upstream") (upstream_names c)
    ++ (check_dup_names (bytes "cache") (cache_names c)
        ++ (check_dup_names (bytes "waf") (waf_names c)
            ++ (check_dup_names (bytes "users") c.user_sets
                ++ (over_sites (λ r. check_refs (defined_names c) r.refs) c.sites
                    ++ (over_sites (λ r. check_cors r.span r.mw_specs) c.sites
                        ++ check_host_collisions c)))))
