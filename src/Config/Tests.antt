-- ===== src/Config/Tests.antt =====
-- Runs of the compiler and the store, and their theorems at concrete inputs.
use pulsate.Prelude.{
  ℕ, ◌≡◌, ◌⊎◌, refl, true, none, some, [], ◌∷◌, ◌++◌, length, Str, bytes, map, here, trim,
  split_once, parse_uint, parse_digits, arith,
}
use pulsate.Flow.Span.{Span}
use pulsate.Flow.Token.{bump}
use pulsate.Flow.Lexer.{
  skip, skip_horizontal, consume_separator_run, string_loop, env_loop, atom_loop, single,
  next_token, token_round, run, lex,
}
use pulsate.Flow.Value.{
  Value, end_of_items, item, int, pos, parse_i64, window_of, try_rate, try_float, type_number,
  type_word, type_atom,
}
use pulsate.Flow.Ast.{Stmts, no_stmts, stmt_then, directive, positional}
use pulsate.Flow.Parser.{skip_from, comma_loop, value_loop, parse_value, parse_arg}
use pulsate.Flow.Routes.{parse_predicates, parse_matcher, parse_step, steps_loop, parse_route}
use pulsate.Flow.Statements.{space_args, parse_space_args, parse_stmts, parse, parse_text}
use pulsate.Util.Units.{
  split_digits, split_number_unit, duration_of, parse_duration, size_factor, size_of, parse_size,
}
use pulsate.Config.Model.{Config, prefix, exact, respond, proxy, auto}
use pulsate.Config.Args.{first_positional, named_value, first_ref, status_arg}
use pulsate.Config.Blocks.{
  retry_round, lower_retry, upstream_round, lower_upstream, lower_cache, lower_waf,
}
use pulsate.Config.Routing.{
  indexed, terminal_of, build_handler, build_middleware, lower_route, site_round, lower_site,
}
use pulsate.Config.Lower.{Platform, lower_round, lower}
use pulsate.Config.Names.{
  chars, row_behind, rows_from, levenshtein, nearest_pair, nearest, fnv_from, fnv1a,
}
use pulsate.Config.Check.{repeats, check_refs, check_cors, validate}
use pulsate.Config.Compile.{
  Compiled, Compilation, compiled, rejected, build_snapshot, compile_tree, compile,
}
use pulsate.Config.Accepted.{IsAccepted, compile-IsAccepted}
use pulsate.Config.Store.{
  ConfigStore, generation_of, generation, publish, publish_if, load, reload, rollback,
}
use pulsate.Config.Publication.{
  IsLive, IsPublished, IsRefused, takes_number, publishes, rolls_back, change, changes,
  changes_of_load-IsLive, reload_lem, rollback-reload, crossing_reloads,
}
use pulsate.Prelude.{Option}
use pulsate.Config.Model.{Upstream, defined_names, waf}
use pulsate.Config.Retrying.{lower_retry_connect}
use pulsate.Config.Build.{spec_round, build_router}
use pulsate.Config.Built.{site_shape, build_router-compile, waf_ref_dropped}
use pulsate.Proxy
use pulsate.Net.{IpAddr, v4}

-- What the runs compute through.
program : Unit {0}
unfolding skip skip_horizontal consume_separator_run string_loop env_loop atom_loop single
    next_token token_round run lex bump trim split_once parse_uint parse_digits parse_i64 window_of
    try_rate try_float type_number type_word type_atom skip_from comma_loop value_loop parse_value
    parse_arg parse_predicates parse_matcher parse_step steps_loop parse_route space_args
    parse_space_args parse_stmts parse parse_text split_digits split_number_unit duration_of
    parse_duration size_factor size_of parse_size first_positional named_value first_ref status_arg
    retry_round lower_retry upstream_round lower_upstream lower_cache lower_waf indexed terminal_of
    build_handler build_middleware lower_route site_round lower_site lower_round lower chars
    row_behind rows_from levenshtein nearest_pair fnv_from fnv1a repeats check_refs check_cors
    validate build_snapshot compile_tree compile publish publish_if load reload rollback change
    changes
program = tt

abbrev platform : Platform
platform = record {
  printer = record { int_text = λ i. []; debug_text = λ v. [] };
  quoted = λ s. s;
  config_text = λ c. [];
  env_var = λ name. none;
}

abbrev span : ℕ → ℕ → ℕ → Span
span offset len col = record { offset = offset; len = len; line = 1; col = col }

abbrev text : Str
text = bytes "site a { route = /x ~> respond }"

abbrev config : Config
config = record {
  flow_version = none;
  upstreams = [];
  caches = [];
  wafs = [];
  user_sets = [];
  sites =
      record {
        hosts = record { pattern = bytes "a"; span = span 5 1 6 } ∷ [];
        tls = auto;
        routes =
            record {
              kind = exact;
              pattern = bytes "/x";
              method = none;
              middleware = [];
              mw_specs = [];
              handler = some (respond 200 []);
              refs = [];
              span = span 9 21 10;
            }
            ∷ [];
        span = span 0 32 1;
      }
      ∷ [];
}

abbrev at_number : ℕ → Compiled
at_number n = record {
  config = config;
  snapshot = record { id = 14_695_981_039_346_656_037; generation = n };
  warnings = [];
}

abbrev errors : Compilation → ℕ
errors (rejected ds) = length ds
errors x = 0

abbrev store : ConfigStore
store = record { current = generation_of (at_number 0); previous = none; next_generation = 1 }

compile_run : compile platform text 3 ≡ compiled (at_number 3)
unfolding program
compile_run = refl

levenshtein_run : levenshtein (bytes "kitten") (bytes "sitting") ≡ 3
unfolding program
levenshtein_run = refl

nearest_run :
    nearest (bytes "apj") (
      record { name = bytes "web"; span = span 0 3 1 }
      ∷ record { name = bytes "api"; span = span 4 3 5 }
      ∷ [])
    ≡ some (bytes "api")
unfolding program
nearest_run = refl

fnv1a_run : fnv1a (bytes "a") ≡ 12_638_187_200_555_641_996
unfolding program
fnv1a_run = refl

abbrev guarded_text : Str
guarded_text =
    bytes "waf w { mode block }\nupstream api { target http://a/ }\n"
    ++ bytes "site a { route /x ~> waf(@w) ~> proxy(@api) }"

abbrev api : Upstream
api = record {
  name = bytes "api";
  span = record { offset = 21; len = 8; line = 2; col = 1 };
  targets = record { url = bytes "http://a/"; weight = 1 } ∷ [];
  policy = bytes "round_robin";
  retry = none;
  breaker = none;
}

abbrev guarded : Compiled
guarded = record {
  config = record {
    flow_version = none;
    upstreams = api ∷ [];
    caches = [];
    wafs =
        record {
          name = bytes "w";
          span = span 0 3 1;
          mode = bytes "block";
          ip_deny = [];
          ip_allow = [];
        }
        ∷ [];
    user_sets = [];
    sites =
        record {
          hosts =
              record {
                pattern = bytes "a";
                span = record { offset = 60; len = 1; line = 3; col = 6 };
              }
              ∷ [];
          tls = auto;
          routes =
              record {
                kind = prefix;
                pattern = bytes "/x";
                method = none;
                middleware = bytes "waf" ∷ [];
                mw_specs = waf (bytes "w") ∷ [];
                handler = some (proxy (some (bytes "api")) none);
                refs =
                    record {
                      name = bytes "w";
                      span = record { offset = 80; len = 2; line = 3; col = 26 };
                    }
                    ∷ record {
                      name = bytes "api";
                      span = record { offset = 93; len = 4; line = 3; col = 39 };
                    }
                    ∷ [];
                span = record { offset = 64; len = 34; line = 3; col = 10 };
              }
              ∷ [];
          span = record { offset = 55; len = 45; line = 3; col = 1 };
        }
        ∷ [];
  };
  snapshot = record { id = 14_695_981_039_346_656_037; generation = 3 };
  warnings = [];
}

guarded_run : compile platform guarded_text 3 ≡ compiled guarded
unfolding program
guarded_run = refl

-- A step and a handler that go by names which nothing defines.
undefined_run :
    errors (compile platform (bytes "site a { route /x ~> waf(@w) ~> proxy(@api) }") 3) ≡ 2
unfolding program
undefined_run = refl

compile-IsAccepted_example : IsAccepted guarded.config × (guarded.snapshot.generation ≡ 3)
compile-IsAccepted_example = compile-IsAccepted platform guarded_text 3 guarded guarded_run

changes_of_load-IsLive_example :
    IsLive platform
      (changes platform (takes_number ∷ publishes (bytes "}") 1 ∷ rolls_back ∷ []) store)
unfolding program
changes_of_load-IsLive_example =
    changes_of_load-IsLive platform text (takes_number ∷ publishes (bytes "}") 1 ∷ rolls_back ∷ [])
      store refl

reload_lem_example :
    (IsPublished platform text store ⊎ IsRefused platform text store)
    × ((reload platform text store).1.next_generation ≡ 2)
reload_lem_example = reload_lem platform text store

rollback-reload_example :
    ((reload platform text store).1.current ≡ generation_of (at_number 1))
    × (((rollback (reload platform text store).1).0 ≡ some (generation_of (at_number 0)))
        × ((rollback (reload platform text store).1).1.current ≡ generation_of (at_number 0)))
    × (((rollback (rollback (reload platform text store).1).1).0
          ≡ some (generation_of (at_number 1)))
        × ((rollback (rollback (reload platform text store).1).1).1
            ≡ (reload platform text store).1))
unfolding program
rollback-reload_example = rollback-reload platform text store (generation_of (at_number 1)) refl

crossing_reloads_example :
    (generation (changes platform (takes_number ∷ takes_number ∷ publishes text 2 ∷ []) store) ≡ 2)
    × (generation (
          changes platform
            (publishes text 1 ∷ [])
            (changes platform (takes_number ∷ takes_number ∷ publishes text 2 ∷ []) store))
        ≡ 1)
unfolding program
crossing_reloads_example =
    crossing_reloads platform text text store (at_number 1) (at_number 2) (omega arith) refl refl

abbrev on_503 : Stmts
on_503 =
    stmt_then
      (directive (record {
        keyword = record { node = bytes "on"; span = span 0 2 1 };
        args =
            positional (record {
              node = Value.array (item (int (pos 503)) (span 4 3 5) end_of_items);
              span = span 3 5 4;
            })
            ∷ [];
        span = span 0 8 1;
      }))
      no_stmts

lower_retry_connect_example : (lower_retry on_503).on_connect_error ≡ true
lower_retry_connect_example = lower_retry_connect on_503

abbrev parse_ip : Str → Option IpAddr
parse_ip s = some (v4 7)

build_router-compile_example :
    map site_shape (build_router parse_ip guarded.config).sites
    ≡ (
      bytes "a" ∷ [],
      record {
        kind = prefix;
        pattern = bytes "/x";
        method = none;
        handler = some (proxy (some (bytes "api")) none);
      }
          ∷ [],
    )
      ∷ []
build_router-compile_example =
    build_router-compile parse_ip platform guarded_text 3 guarded guarded_run

waf_ref_dropped_example :
    (check_refs
        (defined_names guarded.config)
        (record { name = bytes "api"; span = span 9 4 10 } ∷ [])
      ≡ [])
    × (spec_round parse_ip guarded.config (waf (bytes "api")) ([], none) ≡ ([], none))
waf_ref_dropped_example =
    waf_ref_dropped parse_ip guarded.config api (span 9 4 10) ([], none) (here refl) refl
