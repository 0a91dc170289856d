-- ===== src/Config/Blocks.antt =====
-- crates/pulsate-config/src/compile.rs: the blocks of upstreams, caches and firewalls. A loop over a
-- block's statements is a fold of its round.
use pulsate.Prelude.{
  ℕ, ◌^◌, Bool, true, ◌||◌, Option, none, some, List, [], ◌∷◌, ◌++◌, Str, str_eq, bytes,
  if◌then◌else◌,
}
use pulsate.Flow.Value.{Value, Items, end_of_items, item, str, int, duration, array, Spanned}
use pulsate.Flow.Ast.{Arg, Stmt, Stmts, Directive, block, directive, route}
use pulsate.Config.Model.{CacheDef, WafDef, Retry, Breaker, Upstream}
use pulsate.Config.Args.{
  fold, to_list, first_positional, first_positional_str, named_value, positional_str_array, or_text,
  to_unsigned, or_number, as_secs, resolve_str,
}

-- A statement that is a directive with the keyword.
abbrev pub is_word : Directive → Str → Bool
is_word d word = str_eq d.keyword.node word

abbrev pub uint_or : ℕ → ℕ → Option Value → ℕ → ℕ
uint_or bound d (some (int i)) before = or_number d (to_unsigned bound i)
uint_or bound d v before = before

abbrev pub secs_or : Option Value → ℕ → ℕ
secs_or (some (duration d)) before = as_secs d
secs_or v before = before

abbrev push_number : Option ℕ → List ℕ → List ℕ
push_number none ns = ns
push_number (some n) ns = ns ++ (n ∷ [])

-- The loop over the items of `on`.
abbrev pub retry_items : Items → Retry → Retry
retry_items end_of_items r = r
retry_items (item (int i) span items) r =
    retry_items items
      (record r { retry_on_status = push_number (to_unsigned (2 ^ 16) i) r.retry_on_status })
retry_items (item (str s) span items) r =
    retry_items items
      (if str_eq s (bytes "connect_error") then record r { on_connect_error = true } else r)
retry_items (item v span items) r = retry_items items r

abbrev pub retry_on : Option Value → Retry → Retry
retry_on (some (array items)) r = retry_items items r
retry_on v r = r

unfoldable pub retry_round : Stmt → Retry → Retry
retry_round (directive d) r =
    if is_word d (bytes "attempts")
    then record r { attempts = uint_or (2 ^ 32) 1 (first_positional d.args) r.attempts }
    else if is_word d (bytes "on")
    then retry_on (first_positional d.args) r
    else r
retry_round s r = r

unfoldable pub lower_retry : Stmts → Retry
lower_retry body =
    fold retry_round (to_list body)
      (record { attempts = 1; retry_on_status = []; on_connect_error = true })

abbrev pub breaker_round : Stmt → Breaker → Breaker
breaker_round (directive d) b =
    if is_word d (bytes "min_requests") || is_word d (bytes "consecutive")
    then record b {
      consecutive_failures = uint_or (2 ^ 32) 5 (first_positional d.args) b.consecutive_failures;
    }
    else if is_word d (bytes "open_for")
    then record b { open_for_secs = secs_or (first_positional d.args) b.open_for_secs }
    else b
breaker_round s b = b

abbrev pub lower_breaker : Stmts → Breaker
lower_breaker body =
    fold breaker_round (to_list body) (record { consecutive_failures = 5; open_for_secs = 15 })

abbrev pub weight_of : Option Value → ℕ
weight_of v = uint_or (2 ^ 32) 1 v 1

abbrev pub push_target : Option Str → ℕ → Upstream → Upstream
push_target none weight u = u
push_target (some url) weight u = record u {
  targets = u.targets ++ (record { url = url; weight = weight } ∷ []);
}

module _ (env_var : Str → Option Str) where
  unfoldable pub upstream_round : Stmt → Upstream → Upstream
  upstream_round (directive d) u =
      if is_word d (bytes "target")
      then push_target (resolve_str env_var (first_positional d.args))
          (weight_of (named_value d.args (bytes "weight"))) u
      else if is_word d (bytes "policy")
      then record u { policy = or_text u.policy (first_positional_str d.args) }
      else u
  upstream_round (block keyword args body span) u =
      if str_eq keyword.node (bytes "retry")
      then record u { retry = some (lower_retry body) }
      else if str_eq keyword.node (bytes "breaker")
      then record u { breaker = some (lower_breaker body) }
      else u
  upstream_round (route r) u = u

  unfoldable pub lower_upstream : Spanned Str → List Arg → Stmts → Upstream
  lower_upstream keyword args body = fold upstream_round (to_list body) (record {
    name = or_text [] (first_positional_str args);
    span = keyword.span;
    targets = [];
    policy = bytes "round_robin";
    retry = none;
    breaker = none;
  })

abbrev pub cache_round : Stmt → CacheDef → CacheDef
cache_round (directive d) c =
    if is_word d (bytes "default_ttl")
    then record c { default_ttl_secs = secs_or (first_positional d.args) c.default_ttl_secs }
    else if is_word d (bytes "methods")
    then record c { methods = positional_str_array d.args }
    else if is_word d (bytes "vary")
    then record c { vary = positional_str_array d.args }
    else if is_word d (bytes "stale_while_revalidate")
    then record c { swr_secs = secs_or (first_positional d.args) c.swr_secs }
    else c
cache_round s c = c

unfoldable pub lower_cache : Spanned Str → List Arg → Stmts → CacheDef
lower_cache keyword args body = fold cache_round (to_list body) (record {
  name = or_text [] (first_positional_str args);
  span = keyword.span;
  default_ttl_secs = 60;
  methods = bytes "GET" ∷ bytes "HEAD" ∷ [];
  vary = [];
  swr_secs = 0;
})

abbrev pub ip_round : Stmt → WafDef → WafDef
ip_round (directive d) w =
    if is_word d (bytes "deny")
    then record w { ip_deny = positional_str_array d.args }
    else if is_word d (bytes "allow")
    then record w { ip_allow = positional_str_array d.args }
    else w
ip_round s w = w

abbrev pub waf_round : Stmt → WafDef → WafDef
waf_round (directive d) w =
    if is_word d (bytes "mode")
    then record w { mode = or_text w.mode (first_positional_str d.args) }
    else w
waf_round (block keyword args body span) w =
    if str_eq keyword.node (bytes "ip") then fold ip_round (to_list body) w else w
waf_round (route r) w = w

unfoldable pub lower_waf : Spanned Str → List Arg → Stmts → WafDef
lower_waf keyword args body = fold waf_round (to_list body) (record {
  name = or_text [] (first_positional_str args);
  span = keyword.span;
  mode = bytes "block";
  ip_deny = [];
  ip_allow = [];
})
