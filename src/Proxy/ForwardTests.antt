-- ===== src/Proxy/ForwardTests.antt =====
-- Runs of `forward`, and its theorems at concrete inputs.
use pulsate.Prelude.{
  ℕ, zero, suc, ◌+◌, ◌%◌, ◌^◌, ◌≡◌, get_elem?, refl, true, Option, none, some, List, [], ◌∷◌, Str,
  bytes, split, trim, arith,
}
use pulsate.Http.Folded.{folded_api, folded_writer}
use pulsate.Net.{IpAddr}
use pulsate.Proxy.{
  round_robin, Backend, Upstream, eligible_from, choose, pick, record_success, record_failure,
  inflight_inc, inflight_dec,
}
use pulsate.Proxy.Headers.{copy_headers, apply_forwarded, request_headers, response_headers}
use pulsate.Proxy.Forward.{
  Response, Answer, Outgoing, Incoming, attempts_from, forward, dropped_from, dropped_forward,
}
use pulsate.Proxy.Stripping.{last_named, IsDropped, response_headers_lem}
use pulsate.Proxy.Retries.{IsReply, forward-IsReply}
use pulsate.Proxy.Inflight.{inflights, adjust, forward-inflights, dropped_forward-Leaks}

-- What the runs compute through.
program : Unit {0}
unfolding eligible_from choose pick record_success record_failure inflight_inc inflight_dec
    copy_headers apply_forwarded request_headers response_headers attempts_from forward dropped_from
    dropped_forward last_named split trim
program = tt

abbrev idle : ℕ → Backend
idle n = record {
  url = bytes "http://a";
  weight = 1;
  state = record { inflight = n; consecutive_failures = 0; ejected_until = none };
}

abbrev pool : Upstream
pool = record {
  name = bytes "api";
  backends = idle 3 ∷ idle 0 ∷ [];
  policy = round_robin;
  retry = record { attempts = 2; retry_on_status = 503 ∷ []; on_connect_error = true };
  breaker = record { threshold = 5; open_for = 60 };
  rr = 0;
}

abbrev headers : List (Str × Str)
headers =
    (bytes "connection", bytes "X-Secret, close")
    ∷ (bytes "x-secret", bytes "s")
    ∷ (bytes "accept", bytes "a")
    ∷ (bytes "accept", bytes "b")
    ∷ []

abbrev request : Incoming folded_api
request = record {
  method = bytes "GET";
  path_and_query = bytes "/p";
  headers = headers;
  body = [];
  client_ip = none;
  orig_host = bytes "h";
}

abbrev ip_text : IpAddr → Str
ip_text ip = bytes "ip"

abbrev answer : ℕ → Answer folded_api
answer status = record { status = status; headers = headers; body = some (bytes "ok") }

-- The first attempt is answered 503, the second 200.
abbrev network : ℕ → Outgoing folded_api Str → Option (Answer folded_api)
network zero out = some (answer 503)
network (suc k) out = some (answer 200)

abbrev hash : Option IpAddr → ℕ
hash ip = 0

abbrev clock : ℕ → ℕ
clock k = 10 + k

abbrev alone : ℕ → Upstream → Upstream
alone k u = u

abbrev reply : Response folded_api × Upstream
reply = forward folded_api folded_writer ip_text some hash network clock clock alone request pool

status_run : reply.0.status ≡ 200
unfolding program
status_run = refl

body_run : reply.0.body ≡ bytes "ok"
unfolding program
body_run = refl

stripped_run :
    folded_api.get
      (request_headers folded_api folded_writer ip_text headers none (bytes "h"))
      (bytes "x-secret")
    ≡ none
unfolding program
stripped_run = refl

response_headers_lem_example :
    (IsDropped folded_api folded_writer headers (bytes "x-secret")
      → folded_api.get (response_headers folded_api folded_writer headers) (bytes "x-secret")
        ≡ none)
    × (¬ IsDropped folded_api folded_writer headers (bytes "x-secret")
        → folded_api.get (response_headers folded_api folded_writer headers) (bytes "x-secret")
          ≡ some (bytes "s"))
unfolding program
response_headers_lem_example =
    response_headers_lem folded_api folded_writer headers (bytes "x-secret") refl

-- Dropped in the second attempt.
abbrev left : Upstream
left = record pool {
  backends =
      record (idle 3) {
        state = record { inflight = 3; consecutive_failures = 1; ejected_until = none };
      }
      ∷ idle 1
      ∷ [];
  rr = 2;
}

dropped_run :
    dropped_forward folded_api folded_writer ip_text some hash network clock clock alone request 1
      pool
    ≡ some left
unfolding program
dropped_run = refl

dropped_forward-Leaks_example :
    (i : ℕ) × (n : ℕ) × (get_elem? (3 ∷ 0 ∷ []) i ≡ some n)
    × (3 ∷ 1 ∷ [] ≡ adjust (λ m. (m + 1) % 2 ^ 64) i (3 ∷ 0 ∷ []))
dropped_forward-Leaks_example =
    dropped_forward-Leaks folded_writer ip_text some hash network clock clock alone request
      (λ k v. refl) 1 pool left (omega arith, (omega arith, tt)) dropped_run

forward-IsReply_example : IsReply folded_writer network (503 ∷ []) 0 2 reply.0
forward-IsReply_example =
    forward-IsReply folded_writer ip_text some hash network clock clock alone request pool

forward-inflights_example : inflights reply.1 ≡ 3 ∷ 0 ∷ []
forward-inflights_example =
    forward-inflights folded_writer ip_text some hash network clock clock alone request
      (λ k v. refl) pool (omega arith, (omega arith, tt))
