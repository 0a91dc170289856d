-- ===== src/Cache/Tests.antt =====
-- Runs of the cache's operations, and its theorems at concrete inputs.
use pulsate.Prelude.{
  ℕ, ◌≡◌, refl, true, false, none, List, [], ◌∷◌, Str, string_eq, Map, bytes, arith, trim, split,
  split_once, parse_uint,
}
use pulsate.Http.Sample.{list_api}
use pulsate.Cache.Store.{Entry, Inner, empty, remove_entry, purge_tag, clear}
use pulsate.Cache.Policy.{
  CacheConfig, default_config, cacheable_ttl, cache_control, key, vary_part, directives,
  vary_allows, vary_covered, vary_field_ok, parse_tags, request_allows_cache,
}
use pulsate.Cache.Layer.{
  lookup, maybe_store, evict_until_fits, evict_loop, oldest, oldest_from, admit, missed, panicked,
}
use pulsate.Cache.Accounting.{IsAccounted}
use pulsate.Cache.Limits.{IsSound, stores, looks, purges, run, run-IsSound}
use pulsate.Cache.Key.{AgreeOn, key-injective}
use pulsate.Cache.Serving.{IsCacheable, maybe_store_accepts, maybe_store_too_big}

-- What the runs compute through.
program : Unit {0}
unfolding cacheable_ttl cache_control directives vary_allows vary_covered vary_field_ok parse_tags
    key vary_part lookup maybe_store evict_until_fits evict_loop oldest oldest_from admit
    remove_entry purge_tag clear trim split split_once parse_uint request_allows_cache
program = tt

abbrev small_config : CacheConfig
small_config = record default_config {
  vary = bytes "accept" ∷ [];
  stale_while_revalidate = 5;
  max_entries = 2;
  max_body_bytes = 9;
  max_total_bytes = 6;
}

abbrev response : Map Str Str
response =
    (bytes "cache-control", bytes "Max-Age=0, public")
    ∷ (bytes "vary", bytes "Accept ,")
    ∷ (bytes "cache-tag", bytes "a, b")
    ∷ []

abbrev entry_of : List ℕ → ℕ → Entry
entry_of body at = record {
  status = 200;
  headers = [];
  body = body;
  stored_at = at;
  ttl = 10;
  swr = 5;
  tags = bytes "a" ∷ [];
}

abbrev two : Inner
two = record {
  map = (bytes "k", entry_of (1 ∷ 2 ∷ []) 4) ∷ (bytes "l", entry_of (3 ∷ []) 7) ∷ [];
  bytes = 3;
}

two-IsAccounted : IsAccounted two
two-IsAccounted = record { distinct = (refl, (refl, tt)); counted = refl }

key_run :
    key list_api small_config
      (bytes "GET")
      (bytes "h")
      (bytes "/p?a")
      ((bytes "accept", bytes "x") ∷ [])
    ≡ bytes "GET\nh\n/p?a\naccept=x"
unfolding program
key_run = refl

no_store_run :
    cacheable_ttl list_api small_config 200
      ((bytes "cache-control", bytes "max-age=5, No-Store") ∷ [])
    ≡ none
unfolding program
no_store_run = refl

vary_run : cacheable_ttl list_api small_config 200 ((bytes "vary", bytes "Cookie") ∷ []) ≡ none
unfolding program
vary_run = refl

store_run :
    (maybe_store list_api small_config
      (bytes "m")
      200
      response
      (1 ∷ 2 ∷ 3 ∷ 4 ∷ 5 ∷ [])
      9
      (record two { map = (bytes "k", entry_of (1 ∷ 2 ∷ []) 4) ∷ []; bytes = 2 })).0
    ≡ true
unfolding program
store_run = refl

run-IsSound_example : IsSound list_api small_config (
    run list_api small_config empty
      (stores (bytes "m") 200 response (1 ∷ []) 9 ∷ looks (bytes "m") 30 ∷ purges (bytes "a") ∷ []))
run-IsSound_example =
    run-IsSound list_api small_config
      (stores (bytes "m") 200 response (1 ∷ []) 9 ∷ looks (bytes "m") 30 ∷ purges (bytes "a") ∷ [])

expired_run : (lookup (bytes "k") 20 two).0 ≡ missed
unfolding program
expired_run = refl

-- A window that lasts as long as a duration can.
overflow_run :
    (lookup (bytes "k") 20 (record {
      map =
          (
            bytes "k",
            record (entry_of (1 ∷ 2 ∷ []) 4) {
              ttl = 1;
              swr = 18_446_744_073_709_551_615_999_999_999;
            },
          )
          ∷ [];
      bytes = 2;
    })).0
    ≡ panicked
unfolding program
overflow_run = refl

maybe_store_accepts_example : IsCacheable list_api small_config 200 response (1 ∷ [])
unfolding program
maybe_store_accepts_example =
    maybe_store_accepts list_api small_config (bytes "m") 200 response (1 ∷ []) 9 empty refl

maybe_store_too_big_example :
    ((maybe_store list_api
        (record small_config { max_entries = 3 })
        (bytes "m")
        200
        response
        (1 ∷ 2 ∷ 3 ∷ 4 ∷ 5 ∷ 6 ∷ 7 ∷ [])
        9
        two).0
      ≡ false)
    × ((maybe_store list_api
          (record small_config { max_entries = 3 })
          (bytes "m")
          200
          response
          (1 ∷ 2 ∷ 3 ∷ 4 ∷ 5 ∷ 6 ∷ 7 ∷ [])
          9
          two).1.map
        ≡ [])
unfolding program
maybe_store_too_big_example =
    maybe_store_too_big list_api (record small_config { max_entries = 3 }) (bytes "m") 200 response
      (1 ∷ 2 ∷ 3 ∷ 4 ∷ 5 ∷ 6 ∷ 7 ∷ []) 9 0 two two-IsAccounted refl (omega arith) (omega arith)
      (omega arith)

abbrev tag_a : Str
tag_a = bytes "a"

key-injective_example :
    (bytes "GET" ≡ bytes "GET")
    × (bytes "h" ≡ bytes "h")
    × (bytes "/p" ≡ bytes "/p")
    × AgreeOn list_api
        (bytes "accept" ∷ [])
        ((bytes "accept", bytes "x") ∷ [])
        ((bytes "accept", bytes "x") ∷ (bytes "host", bytes "y") ∷ [])
unfolding program
key-injective_example =
    key-injective list_api small_config (bytes "GET") (bytes "GET") (bytes "h") (bytes "h")
      (bytes "/p") (bytes "/p") ((bytes "accept", bytes "x") ∷ [])
      ((bytes "accept", bytes "x") ∷ (bytes "host", bytes "y") ∷ []) (omega arith) (omega arith)
      (omega arith) (omega arith) (omega arith) (omega arith) refl
