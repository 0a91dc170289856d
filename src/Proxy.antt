-- ===== src/Proxy.antt =====
-- crates/pulsate-proxy/src/lib.rs: upstream pools, the choice of a target, and the passive breaker.
-- A target's atomics and its mutex are the fields of its state; a method is one step. Times are
-- nanoseconds of one monotonic clock, given as arguments.
mod Pick
mod Rotation
pub mod Targets
mod Breaker
mod Headers
mod Forward
mod Stripping
mod Retries
mod Inflight
mod Tests
mod ForwardTests
use pulsate.Prelude.{
  ℕ, zero, suc, ◌+◌, ◌-◌, ◌*◌, ◌%◌, ◌^◌, ◌≡◌, Bool, true, false, not, Option, none, some, List, [],
  ◌∷◌, map, reverse, length, get_elem?, get_or, set, retain, is_empty, Str, str_eq, string_eq,
  bytes, Map, get, insert, ◌==◌, ltb, leb, if◌then◌else◌, max,
}
use pulsate.Net.{IpAddr}

pub data Policy : Type 0 where
  round_robin least_conn random ip_hash : Policy

unfoldable pub parse : Str → Policy
parse s =
    if str_eq s (bytes "least_conn")
    then least_conn
    else if str_eq s (bytes "random")
    then random
    else if str_eq s (bytes "ip_hash")
    then ip_hash
    else round_robin

pub record RetryPolicy : Type 0 where
  pub attempts : ℕ
  pub retry_on_status : List ℕ
  pub on_connect_error : Bool

abbrev pub default_retry : RetryPolicy
default_retry = record {
  attempts = 1;
  retry_on_status = 502 ∷ 503 ∷ 504 ∷ [];
  on_connect_error = true;
}

pub record BreakerPolicy : Type 0 where
  pub threshold : ℕ
  pub open_for : ℕ

abbrev pub default_breaker : BreakerPolicy
default_breaker = record { threshold = 5; open_for = 15_000_000_000 }

pub record TargetState : Type 0 where
  pub inflight : ℕ
  pub consecutive_failures : ℕ
  pub ejected_until : Option ℕ

pub record Backend : Type 0 where
  pub url : Str
  pub weight : ℕ
  pub state : TargetState

pub record Upstream : Type 0 where
  pub name : Str
  pub backends : List Backend
  pub policy : Policy
  pub retry : RetryPolicy
  pub breaker : BreakerPolicy
  pub rr : ℕ

-- `trim_end_matches('/')`
drop_slashes : Str → Str
drop_slashes [] = []
drop_slashes (c ∷ s) = if c == b'/' then drop_slashes s else c ∷ s

unfoldable pub backend_of : Str × ℕ → Backend
unfolding drop_slashes
backend_of (url, weight) = record {
  url = reverse (drop_slashes (reverse url));
  weight = max weight 1;
  state = record { inflight = 0; consecutive_failures = 0; ejected_until = none };
}

unfoldable pub new : Str → List (Str × ℕ) → Policy → RetryPolicy → BreakerPolicy → Upstream
unfolding backend_of
new name targets policy retry breaker = record {
  name = name;
  backends = map backend_of targets;
  policy = policy;
  retry = retry;
  breaker = breaker;
  rr = 0;
}

abbrev pub target_count : Upstream → ℕ
target_count u = length u.backends

abbrev pub until_passed : Option ℕ → ℕ → Bool
until_passed none now = true
until_passed (some until) now = not (ltb now until)

-- `is_ejected`, at a target that there is.
abbrev pub is_ejected : Backend → ℕ → Bool
is_ejected b now = not (until_passed b.state.ejected_until now)

-- `(0..n).filter(|&i| !self.is_ejected(i))`, from the index `i` on.
unfoldable pub eligible_from : ℕ → List Backend → ℕ → List ℕ
eligible_from i [] now = []
eligible_from i (b ∷ bs) now =
    let rest = eligible_from (suc i) bs now in if is_ejected b now then rest else i ∷ rest

unfoldable pub inflight_at : List Backend → ℕ → ℕ
inflight_at bs i = elim (get_elem? bs i) [ none ↦ 0 | some b ↦ b.state.inflight ]

-- `min_by_key`: the first of the least.
unfoldable pub least_from : List Backend → ℕ → List ℕ → ℕ
least_from bs i [] = i
least_from bs i (j ∷ js) =
    least_from bs (if ltb (inflight_at bs j) (inflight_at bs i) then j else i) js

abbrev pub bump : Upstream → Upstream
bump u = record u { rr = (u.rr + 1) % 2 ^ 64 }

-- The `match` on the policy; `hash` is the hasher's digest of the client's address.
unfoldable pub choose : Upstream → ℕ → ℕ → List ℕ → ℕ × Upstream
choose u hash e es = elim u.policy [
  | round_robin ↦ (get_or (e ∷ es) (u.rr % length (e ∷ es)) e, bump u)
  | least_conn ↦ (least_from u.backends e es, u)
  | random ↦ (get_or (e ∷ es) ((u.rr * 2_654_435_761) % 2 ^ 64 % length (e ∷ es)) e, bump u)
  | ip_hash ↦ (get_or (e ∷ es) (hash % length (e ∷ es)) e, u)
]

abbrev some_first : ℕ × Upstream → Option ℕ × Upstream
some_first (i, u) = (some i, u)

module _ (hash : Option IpAddr → ℕ) where
  unfoldable pub pick : Upstream → Option IpAddr → ℕ → Option ℕ × Upstream
  pick u client now = elim (eligible_from 0 u.backends now) [
    | [] ↦ (none, u)
    | e ∷ es ↦ some_first (choose u (hash client) e es)
  ]

abbrev pub on_target : (TargetState → TargetState) → ℕ → Upstream → Upstream
on_target f i u = elim (get_elem? u.backends i) [
  | none ↦ u
  | some b ↦ record u { backends = set u.backends i (record b { state = f b.state }) }
]

abbrev pub succeed : TargetState → TargetState
succeed t = record t { consecutive_failures = 0; ejected_until = none }

abbrev pub fail : BreakerPolicy → ℕ → TargetState → TargetState
fail p now t =
    let n = (t.consecutive_failures + 1) % 2 ^ 32 in
    if leb p.threshold n
    then record t { consecutive_failures = 0; ejected_until = some (now + p.open_for) }
    else record t { consecutive_failures = n }

unfoldable pub record_success : ℕ → Upstream → Upstream
record_success i u = on_target succeed i u

unfoldable pub record_failure : ℕ → ℕ → Upstream → Upstream
record_failure i now u = on_target (fail u.breaker now) i u

unfoldable pub inflight_inc : ℕ → Upstream → Upstream
inflight_inc i u = on_target (λ t. record t { inflight = (t.inflight + 1) % 2 ^ 64 }) i u

unfoldable pub inflight_dec : ℕ → Upstream → Upstream
inflight_dec i u = on_target (λ t. record t { inflight = (t.inflight + 2 ^ 64 - 1) % 2 ^ 64 }) i u

-- `Registry`: the pools by name.
pub record Registry : Type 0 where
  pub map : Map Str Upstream

abbrev pub register : Upstream → Registry → Registry
register u r = record { map = insert u.name u r.map }

abbrev pub resolve : Str → Registry → Option Upstream
resolve name r = get name r.map
