-- ===== src/Proxy/Tests.antt =====
-- Runs of the upstream pool, and its theorems at concrete inputs.
use pulsate.Prelude.{ℕ, ◌≡◌, refl, Option, none, some, [], ◌∷◌, In, arith, bytes}
use pulsate.Net.{IpAddr, v4}
use pulsate.Proxy.{
  Policy, parse, round_robin, least_conn, random, ip_hash, default_retry, TargetState, Backend,
  Upstream, new, backend_of, eligible_from, inflight_at, least_from, choose, pick, record_success,
  record_failure, inflight_inc, inflight_dec,
}
use pulsate.Proxy.Rotation.{picks, round_robin_serves_all}
use pulsate.Proxy.Breaker.{fail_all, TargetIs, breaker_trips}

-- What the runs compute through.
program : Unit {0}
unfolding parse new backend_of eligible_from inflight_at least_from choose pick record_success
    record_failure inflight_inc inflight_dec picks fail_all
program = tt

abbrev hash : Option IpAddr → ℕ
hash none = 0
hash (some (v4 a)) = a
hash (some _) = 1

abbrev target : ℕ → Option ℕ → Backend
target n until = record {
  url = bytes "http://a:1";
  weight = 1;
  state = record { inflight = n; consecutive_failures = 0; ejected_until = until };
}

abbrev pool : Policy → Upstream
pool policy = record {
  name = bytes "api";
  backends = target 3 none ∷ target 0 (some 50) ∷ target 1 none ∷ [];
  policy = policy;
  retry = default_retry;
  breaker = record { threshold = 2; open_for = 60 };
  rr = 7;
}

parse_run : parse (bytes "ip_hash") ≡ ip_hash
unfolding program
parse_run = refl

new_run :
    (new
      (bytes "n")
      ((bytes "http://a:1//", 0) ∷ [])
      random
      default_retry
      (record { threshold = 2; open_for = 60 })).backends
    ≡ target 0 none ∷ []
unfolding program
new_run = refl

-- Target 1 is out until 50.
picks_run : picks hash (pool round_robin) none 10 4 ≡ some 2 ∷ some 0 ∷ some 2 ∷ some 0 ∷ []
unfolding program
picks_run = refl

least_run : (pick hash (pool least_conn) none 50).0 ≡ some 1
unfolding program
least_run = refl

ip_run : (pick hash (pool ip_hash) (some (v4 11)) 10).0 ≡ some 2
unfolding program
ip_run = refl

round_robin_serves_all_example : In (some 0) (picks hash (pool round_robin) none 10 2)
unfolding program
round_robin_serves_all_example =
    round_robin_serves_all hash (pool round_robin) none 10 0 refl (target 3 none, refl, refl)
      (omega arith)

abbrev tripped : TargetState
tripped = record { inflight = 3; consecutive_failures = 0; ejected_until = some 90 }

breaker_trips_example :
    TargetIs
      (fail_all 0 (20 ∷ []) (pool random))
      0
      (target 3 none)
      (record { inflight = 3; consecutive_failures = 1; ejected_until = none })
    × TargetIs (record_failure 0 30 (fail_all 0 (20 ∷ []) (pool random))) 0 (target 3 none) tripped
breaker_trips_example =
    breaker_trips 0 (target 3 none) (20 ∷ []) 30 (pool random) refl (omega arith) (omega arith)
