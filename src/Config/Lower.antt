-- ===== src/Config/Lower.antt =====
-- crates/pulsate-config/src/compile.rs: `lower`.
use pulsate.Prelude.{
  Option, none, some, List, [], ◌∷◌, ◌++◌, Str, str_eq, bytes, any, if◌then◌else◌,
}
use pulsate.Core.{cfg_type_mismatch}
use pulsate.Flow.Span.{Span, Diagnostic, error_at, with_help}
use pulsate.Flow.Value.{Spanned}
use pulsate.Flow.Ast.{Arg, Stmt, Stmts, block, directive, route}
use pulsate.Flow.Routes.{Printer}
use pulsate.Config.Model.{Named, Config}
use pulsate.Config.Args.{fold, to_list, first_positional, str_of}
use pulsate.Config.Blocks.{is_word, lower_upstream, lower_cache, lower_waf}
use pulsate.Config.Routing.{lower_site}

-- What the compiler takes from the outside: the printing of numbers, values, strings in quotes and
-- configurations, and the environment's variables.
pub record Platform : Type 0 where
  pub printer : Printer
  pub quoted : Str → Str
  pub config_text : Config → Str
  pub env_var : Str → Option Str

abbrev pub supported_flow_versions : List Str
supported_flow_versions = bytes "1" ∷ []

abbrev pub push_named : Option Str → Span → List Named → List Named
push_named none span ns = ns
push_named (some name) span ns = ns ++ (record { name = name; span = span } ∷ [])

module _ (platform : Platform) where
  abbrev pub version_diags : Str → Span → List Diagnostic
  version_diags v span =
      if any (str_eq v) supported_flow_versions
      then []
      else with_help (bytes "this binary supports flow_version \"1\"")
          (error_at cfg_type_mismatch (bytes "unsupported flow_version " ++ platform.quoted v) span)
        ∷ []

  abbrev pub set_version : Option Str → Span → Config × List Diagnostic → Config × List Diagnostic
  set_version none span (c, diags) = (c, diags)
  set_version (some v) span (c, diags) =
      (record c { flow_version = some v }, diags ++ version_diags v span)

  abbrev pub block_round :
      Spanned Str → List Arg → Stmts → Span → Config × List Diagnostic → Config × List Diagnostic
  block_round keyword args body span (c, diags) =
      if str_eq keyword.node (bytes "upstream")
      then (
        record c {
          upstreams = c.upstreams ++ (lower_upstream platform.env_var keyword args body ∷ []);
        },
        diags,
      )
      else if str_eq keyword.node (bytes "cache")
      then (record c { caches = c.caches ++ (lower_cache keyword args body ∷ []) }, diags)
      else if str_eq keyword.node (bytes "waf")
      then (record c { wafs = c.wafs ++ (lower_waf keyword args body ∷ []) }, diags)
      else if str_eq keyword.node (bytes "users")
      then (
        record c {
          user_sets = push_named (str_of (first_positional args)) keyword.span c.user_sets;
        },
        diags,
      )
      else if str_eq keyword.node (bytes "site")
      then (
        record c { sites = c.sites ++ ((lower_site args body span).0 ∷ []) },
        diags ++ (lower_site args body span).1,
      )
      else (c, diags)

  unfoldable pub lower_round : Stmt → Config × List Diagnostic → Config × List Diagnostic
  lower_round (directive d) found =
      if is_word d (bytes "flow_version")
      then set_version (str_of (first_positional d.args)) d.span found
      else found
  lower_round (block keyword args body span) found = block_round keyword args body span found
  lower_round (route r) found = found

  unfoldable pub lower : Stmts → Config × List Diagnostic
  lower stmts = fold lower_round (to_list stmts) (
    record {
      flow_version = none;
      upstreams = [];
      caches = [];
      wafs = [];
      user_sets = [];
      sites = [];
    },
    [],
  )
