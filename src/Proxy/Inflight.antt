-- ===== src/Proxy/Inflight.antt =====
-- The counts of requests in flight, over a run of `forward`.
use pulsate.Prelude.{
  ℕ, zero, suc, ◌+◌, ◌-◌, ◌%◌, ◌^◌, ◌<◌, ◌≡◌, inl, inr, refl, sym, ◌∙◌, ap, Option, none, some,
  List, [], ◌∷◌, Str, any, All, map, set, get_elem?, max, ◌==◌, arith, Bool-cases, Option-cases,
}
use pulsate.Http.{HeaderApi, HeaderWriter}
use pulsate.Net.{IpAddr}
use pulsate.Proxy.{
  TargetState, Backend, BreakerPolicy, Upstream, RetryPolicy, eligible_from, choose, pick,
  on_target, succeed, fail, inflight_inc, inflight_dec, record_success, record_failure,
}
use pulsate.Proxy.Forward.{
  Response, Answer, Outgoing, Incoming, target_url, build_request, answered, attempt_at,
  attempts_from, forward, dropped_behind, dropped_at, dropped_from, dropped_forward,
}

abbrev pub inflights : Upstream → List ℕ
inflights u = map (λ b. b.state.inflight) u.backends

abbrev pub adjust : (ℕ → ℕ) → ℕ → List ℕ → List ℕ
adjust g i [] = []
adjust g zero (n ∷ ns) = g n ∷ ns
adjust g (suc i) (n ∷ ns) = n ∷ adjust g i ns

adjust_same : (g : ℕ → ℕ) (i : ℕ) (ns : List ℕ) → ((n : ℕ) → g n ≡ n) → adjust g i ns ≡ ns
adjust_same g i [] same = refl
adjust_same g zero (n ∷ ns) same = rw (same n) refl
adjust_same g (suc i) (n ∷ ns) same = ap (λ ms. n ∷ ms) (adjust_same g i ns same)

abbrev up : ℕ → ℕ
up n = (n + 1) % 2 ^ 64

abbrev down : ℕ → ℕ
down n = (n + 2 ^ 64 - 1) % 2 ^ 64

adjust_back : (i : ℕ) (ns : List ℕ) → All (λ n. n < 2 ^ 64) ns → adjust down i (adjust up i ns) ≡ ns
adjust_back i [] small = refl
adjust_back zero (n ∷ ns) (small, rest) = ap (λ m. m ∷ ns) (omega arith)
adjust_back (suc i) (n ∷ ns) (small, rest) = ap (λ ms. n ∷ ms) (adjust_back i ns rest)

abbrev counts : List Backend → List ℕ
counts bs = map (λ b. b.state.inflight) bs

set-counts :
    (g : ℕ → ℕ) (f : TargetState → TargetState) (bs : List Backend) (i : ℕ) (b : Backend)
    → ((t : TargetState) → (f t).inflight ≡ g t.inflight)
    → get_elem? bs i ≡ some b
    → counts (set bs i (record b { state = f b.state })) ≡ adjust g i (counts bs)
set-counts g f [] i b eq h = cc
set-counts g f (c ∷ bs) zero b eq h =
    let same : c ≡ b = cc in rw same (ap (λ n. n ∷ counts bs) (eq b.state))
set-counts g f (c ∷ bs) (suc i) b eq h =
    ap (λ ns. c.state.inflight ∷ ns) (set-counts g f bs i b eq h)

absent-counts :
    (g : ℕ → ℕ) (bs : List Backend) (i : ℕ)
    → get_elem? bs i ≡ none
    → adjust g i (counts bs) ≡ counts bs
absent-counts g [] i h = refl
absent-counts g (c ∷ bs) zero h = cc
absent-counts g (c ∷ bs) (suc i) h = ap (λ ns. c.state.inflight ∷ ns) (absent-counts g bs i h)

on_target-counts :
    (g : ℕ → ℕ) (f : TargetState → TargetState) (i : ℕ) (u : Upstream)
    → ((t : TargetState) → (f t).inflight ≡ g t.inflight)
    → inflights (on_target f i u) ≡ adjust g i (inflights u)
on_target-counts g f i u eq = elim (Option-cases (get_elem? u.backends i)) [
  | inl e ↦ rw (on_target, e) (sym (absent-counts g u.backends i e))
  | inr (b, e) ↦ rw (on_target, e) (set-counts g f u.backends i b eq e)
]

record_success-counts : (i : ℕ) (u : Upstream) → inflights (record_success i u) ≡ inflights u
unfolding record_success
record_success-counts i u =
    on_target-counts (λ n. n) succeed i u (λ t. refl)
    ∙ adjust_same (λ n. n) i (inflights u) (λ n. refl)

fail-inflight :
    (p : BreakerPolicy) (now : ℕ) (t : TargetState) → (fail p now t).inflight ≡ t.inflight
fail-inflight p now t = ground arith

record_failure-counts :
    (i now : ℕ) (u : Upstream) → inflights (record_failure i now u) ≡ inflights u
unfolding record_failure
record_failure-counts i now u =
    on_target-counts (λ n. n) (fail u.breaker now) i u (fail-inflight u.breaker now)
    ∙ adjust_same (λ n. n) i (inflights u) (λ n. refl)

choose-backends : (u : Upstream) (h e : ℕ) (es : List ℕ) → (choose u h e es).1.backends ≡ u.backends
unfolding choose
choose-backends u h e es = ground arith

pick-backends :
    (hash : Option IpAddr → ℕ) (u : Upstream) (client : Option IpAddr) (now : ℕ)
    → (pick hash u client now).1.backends ≡ u.backends
unfolding pick
pick-backends hash u client now = by_eligible (eligible_from 0 u.backends now) refl
  where
    by_eligible :
        (es : List ℕ)
        → eligible_from 0 u.backends now ≡ es
        → (pick hash u client now).1.backends ≡ u.backends
    by_eligible [] at = rw (pick, at) refl
    by_eligible (e ∷ es) at = rw (pick, at) (choose-backends u (hash client) e es)

-- A request that began and ended at a target, while others leave the counts as they are.
round_trip-counts :
    (f : Upstream → Upstream) (i : ℕ) (u : Upstream)
    → ((v : Upstream) → inflights (f v) ≡ inflights v)
    → All (λ n. n < 2 ^ 64) (inflights u)
    → inflights (inflight_dec i (f (inflight_inc i u))) ≡ inflights u
unfolding inflight_inc inflight_dec
round_trip-counts f i u kept small =
    on_target-counts down _ i _ (λ t. refl)
    ∙ ap (adjust down i) (kept _ ∙ on_target-counts up _ i u (λ t. refl))
    ∙ adjust_back i (inflights u) small

module _ {api : HeaderApi} (out : HeaderWriter api) {Uri : Type 0} (ip_text : IpAddr → Str)
    (parse_uri : Str → Option Uri) (hash : Option IpAddr → ℕ)
    (send : ℕ → Outgoing api Uri → Option (Answer api)) (begins ends : ℕ → ℕ)
    (meanwhile : ℕ → Upstream → Upstream) (r : Incoming api)
    (kept : (k : ℕ) (v : Upstream) → inflights (meanwhile k v) ≡ inflights v) where
  answered-counts :
      (more : Upstream → Response api × Upstream) (retry : RetryPolicy) (i now : ℕ)
      (o : Option (Answer api)) (u : Upstream) (ns : List ℕ)
      → inflights u ≡ ns
      → ((v : Upstream) → inflights v ≡ ns → inflights (more v).1 ≡ ns)
      → inflights
          (answered api out ip_text parse_uri hash send begins ends meanwhile r more retry i now o
            u).1
        ≡ ns
  answered-counts more retry i now (some a) u ns at ih =
      elim (Bool-cases (any (λ s. s == a.status) retry.retry_on_status)) [
        | inl h ↦ rw (answered, h) (ih _ (record_failure-counts i now u ∙ at))
        | inr h ↦ rw (answered, h) (record_success-counts i u ∙ at)
      ]
  answered-counts more retry i now none u ns at ih = elim (Bool-cases retry.on_connect_error) [
    | inl h ↦ rw (answered, h) (ih _ (record_failure-counts i now u ∙ at))
    | inr h ↦ rw (answered, h) (record_failure-counts i now u ∙ at)
  ]

  attempt_at-counts :
      (more : Upstream → Response api × Upstream) (retry : RetryPolicy) (k : ℕ) (o : Option ℕ)
      (u : Upstream) (ns : List ℕ)
      → inflights u ≡ ns
      → All (λ n. n < 2 ^ 64) ns
      → ((v : Upstream) → inflights v ≡ ns → inflights (more v).1 ≡ ns)
      → inflights
          (attempt_at api out ip_text parse_uri hash send begins ends meanwhile r more retry k o
            u).1
        ≡ ns
  attempt_at-counts more retry k none u ns at small ih = at
  attempt_at-counts more retry k (some i) u ns at small ih = elim (Option-cases (target_url i u)) [
    | inl e ↦ rw (attempt_at, e) at
    | inr (base, e) ↦ elim (Option-cases (build_request api out ip_text parse_uri r base)) [
      | inl f ↦ rw (attempt_at, e, f) at
      | inr (request, f) ↦
          rw (attempt_at, e, f)
            (answered-counts more retry i (ends k) (send k request) _ ns
              (round_trip-counts (meanwhile k) i u (kept k) (rw at small) ∙ at) ih)
    ]
  ]

  attempts_from-counts :
      (retry : RetryPolicy) (n k : ℕ) (u : Upstream) (ns : List ℕ)
      → inflights u ≡ ns
      → All (λ m. m < 2 ^ 64) ns
      → inflights
          (attempts_from api out ip_text parse_uri hash send begins ends meanwhile r retry n k u).1
        ≡ ns
  unfolding attempts_from
  attempts_from-counts retry zero k u ns at small = at
  attempts_from-counts retry (suc n) k u ns at small =
      attempt_at-counts
        (attempts_from api out ip_text parse_uri hash send begins ends meanwhile r retry n (suc k))
        retry k (pick hash u r.client_ip (begins k)).0 (pick hash u r.client_ip (begins k)).1 ns
        (ap counts (pick-backends hash u r.client_ip (begins k)) ∙ at) small
        (λ v same. attempts_from-counts retry n (suc k) v ns same small)

  -- When forward returns, with whatever response, the counts of requests in flight are what they were
  -- before it, at every target, if they are 64-bit numbers and the other requests leave them as they
  -- are. Of a call whose future is dropped before it returns this says nothing.
  pub forward-inflights :
      (u : Upstream)
      → All (λ n. n < 2 ^ 64) (inflights u)
      → inflights (forward api out ip_text parse_uri hash send begins ends meanwhile r u).1
        ≡ inflights u
  unfolding forward
  forward-inflights u small =
      attempts_from-counts u.retry (max u.retry.attempts 1) 0 u (inflights u) refl small

  -- One target counts one request more.
  abbrev pub Leaks : List ℕ → Option Upstream → Type 0
  Leaks ns none = Unit {0}
  Leaks ns (some v) =
      (i : ℕ) × (n : ℕ) × (get_elem? ns i ≡ some n)
      × (inflights v ≡ adjust (λ m. (m + 1) % 2 ^ 64) i ns)

  counts-at :
      (bs : List Backend) (i : ℕ) (b : Backend)
      → get_elem? bs i ≡ some b
      → get_elem? (counts bs) i ≡ some b.state.inflight
  counts-at [] i b h = cc
  counts-at (c ∷ bs) zero b h = let same : c ≡ b = cc in ap (λ x. some x.state.inflight) same
  counts-at (c ∷ bs) (suc i) b h = counts-at bs i b h

  target-count :
      (i : ℕ) (u : Upstream) (base : Str)
      → target_url i u ≡ some base
      → (n : ℕ) × (get_elem? (inflights u) i ≡ some n)
  target-count i u base h = elim (Option-cases (get_elem? u.backends i)) [
    | inl e ↦ let bad : none ≡ some base = rw (target_url, e) at h in cc
    | inr (b, e) ↦ (b.state.inflight, counts-at u.backends i b e)
  ]

  dropped_behind-Leaks :
      (more : Upstream → Option Upstream) (retry : RetryPolicy) (i now : ℕ)
      (o : Option (Answer api)) (u : Upstream) (ns : List ℕ)
      → inflights u ≡ ns
      → ((v : Upstream) → inflights v ≡ ns → Leaks ns (more v))
      → Leaks ns (
          dropped_behind api out ip_text parse_uri hash send begins ends meanwhile r more retry i
            now o u)
  dropped_behind-Leaks more retry i now (some a) u ns at ih =
      elim (Bool-cases (any (λ s. s == a.status) retry.retry_on_status)) [
        | inl h ↦ rw (dropped_behind, h) (ih _ (record_failure-counts i now u ∙ at))
        | inr h ↦ rw (dropped_behind, h) tt
      ]
  dropped_behind-Leaks more retry i now none u ns at ih = elim (Bool-cases retry.on_connect_error) [
    | inl h ↦ rw (dropped_behind, h) (ih _ (record_failure-counts i now u ∙ at))
    | inr h ↦ rw (dropped_behind, h) tt
  ]

  begun-counts :
      (k i : ℕ) (u : Upstream) (ns : List ℕ)
      → inflights u ≡ ns
      → inflights (meanwhile k (inflight_inc i u)) ≡ adjust up i ns
  unfolding inflight_inc
  begun-counts k i u ns at = kept k _ ∙ on_target-counts up _ i u (λ t. refl) ∙ ap (adjust up i) at

  dropped_at-Leaks :
      (more : Upstream → Option Upstream) (retry : RetryPolicy) (stop k : ℕ) (o : Option ℕ)
      (u : Upstream) (ns : List ℕ)
      → inflights u ≡ ns
      → All (λ n. n < 2 ^ 64) ns
      → ((v : Upstream) → inflights v ≡ ns → Leaks ns (more v))
      → Leaks ns (
          dropped_at api out ip_text parse_uri hash send begins ends meanwhile r more retry stop k o
            u)
  dropped_at-Leaks more retry stop k none u ns at small ih = tt
  dropped_at-Leaks more retry stop k (some i) u ns at small ih =
      elim (Option-cases (target_url i u)) [
        | inl e ↦ rw (dropped_at, e) tt
        | inr (base, e) ↦ elim (Option-cases (build_request api out ip_text parse_uri r base)) [
          | inl f ↦ rw (dropped_at, e, f) tt
          | inr (request, f) ↦ elim (Bool-cases (k == stop)) [
            | inl g ↦
                let (n, there_is) = target-count i u base e in
                rw (dropped_at, e, f, g) (i, n, rw at at there_is, begun-counts k i u ns at)
            | inr g ↦
                rw (dropped_at, e, f, g)
                  (dropped_behind-Leaks more retry i (ends k) (send k request) _ ns
                    (round_trip-counts (meanwhile k) i u (kept k) (rw at small) ∙ at) ih)
          ]
        ]
      ]

  dropped_from-Leaks :
      (retry : RetryPolicy) (stop n k : ℕ) (u : Upstream) (ns : List ℕ)
      → inflights u ≡ ns
      → All (λ m. m < 2 ^ 64) ns
      → Leaks ns (
          dropped_from api out ip_text parse_uri hash send begins ends meanwhile r retry stop n k u)
  unfolding dropped_from
  dropped_from-Leaks retry stop zero k u ns at small = tt
  dropped_from-Leaks retry stop (suc n) k u ns at small =
      dropped_at-Leaks
        (dropped_from api out ip_text parse_uri hash send begins ends meanwhile r retry stop n
          (suc k))
        retry stop k (pick hash u r.client_ip (begins k)).0 (pick hash u r.client_ip (begins k)).1
        ns (ap counts (pick-backends hash u r.client_ip (begins k)) ∙ at) small
        (λ v same. dropped_from-Leaks retry stop n (suc k) v ns same small)

  -- A call of forward whose future is dropped while it waits for an upstream's answer, after however
  -- many failed attempts, leaves the count of requests in flight of one target one too high (modulo
  -- 2^64) and the others as they were, if the counts are 64-bit numbers and the other requests leave
  -- them as they are: nothing takes the request back.
  pub dropped_forward-Leaks :
      (stop : ℕ) (u v : Upstream)
      → All (λ n. n < 2 ^ 64) (inflights u)
      → dropped_forward api out ip_text parse_uri hash send begins ends meanwhile r stop u ≡ some v
      → (i : ℕ) × (n : ℕ) × (get_elem? (inflights u) i ≡ some n)
        × (inflights v ≡ adjust (λ m. (m + 1) % 2 ^ 64) i (inflights u))
  unfolding dropped_forward
  dropped_forward-Leaks stop u v small h =
      let leak : Leaks (inflights u) (
          dropped_from api out ip_text parse_uri hash send begins ends meanwhile r u.retry stop
            (max u.retry.attempts 1) 0 u) =
        dropped_from-Leaks u.retry stop (max u.retry.attempts 1) 0 u (inflights u) refl small in
      rw h at leak
