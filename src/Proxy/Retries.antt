-- ===== src/Proxy/Retries.antt =====
-- What `forward` answers, and what it leaves of the counts of requests in flight.
use pulsate.Prelude.{
  ℕ, zero, suc, ◌+◌, ◌≤◌, ◌<◌, ◌≡◌, inl, inr, refl, subst, false, Option, none, some, List, [], ◌∷◌,
  Str, any, In, here, there, max, ◌==◌, arith, Bool-cases, Option-cases,
}
use pulsate.Core.{
  Code, prx_no_healthy, prx_protocol_error, prx_connect_timeout, prx_retry_exhausted,
}
use pulsate.Http.{HeaderApi, HeaderWriter}
use pulsate.Net.{IpAddr}
use pulsate.Proxy.{Upstream, RetryPolicy, pick, record_failure}
use pulsate.Proxy.Forward.{
  Response, Answer, Outgoing, Incoming, target_url, error_response, normalize_response,
  build_request, answered, attempt_at, attempts_from, forward,
}

-- What `forward` makes up itself.
abbrev pub proxy_codes : List Code
proxy_codes = prx_no_healthy ∷ prx_protocol_error ∷ prx_connect_timeout ∷ prx_retry_exhausted ∷ []

-- A response is one that the proxy makes up, or it is an upstream's answer to an attempt of the
-- range whose status is not to be retried.
pub data IsReply {api : HeaderApi} (out : HeaderWriter api) {Uri : Type 0}
    (send : ℕ → Outgoing api Uri → Option (Answer api)) (retried : List ℕ) (first last : ℕ)
    : Response api → Type 0 where
  made_up :
      {code : Code}
      → In code proxy_codes
      → IsReply out send retried first last (error_response api out code)
  passed_on :
      (j : ℕ) (request : Outgoing api Uri) (a : Answer api)
      → first ≤ j
      → j < last
      → send j request ≡ some a
      → any (λ s. s == a.status) retried ≡ false
      → IsReply out send retried first last (normalize_response api out a)

module _ {api : HeaderApi} (out : HeaderWriter api) {Uri : Type 0} (ip_text : IpAddr → Str)
    (parse_uri : Str → Option Uri) (hash : Option IpAddr → ℕ)
    (send : ℕ → Outgoing api Uri → Option (Answer api)) (begins ends : ℕ → ℕ)
    (meanwhile : ℕ → Upstream → Upstream) (r : Incoming api) where
  answered-IsReply :
      (more : Upstream → Response api × Upstream) (retry : RetryPolicy) (k last i now : ℕ)
      (request : Outgoing api Uri) (o : Option (Answer api)) (u : Upstream)
      → send k request ≡ o
      → k < last
      → ((v : Upstream) → IsReply out send retry.retry_on_status k last (more v).0)
      → IsReply out send retry.retry_on_status k last
          (answered api out ip_text parse_uri hash send begins ends meanwhile r more retry i now o
            u).0
  answered-IsReply more retry k last i now request (some a) u at small ih =
      elim (Bool-cases (any (λ s. s == a.status) retry.retry_on_status)) [
        | inl h ↦ rw (answered, h) (ih (record_failure i now u))
        | inr h ↦ rw (answered, h) (passed_on k request a (omega arith) small at h)
      ]
  answered-IsReply more retry k last i now request none u at small ih =
      elim (Bool-cases retry.on_connect_error) [
        | inl h ↦ rw (answered, h) (ih (record_failure i now u))
        | inr h ↦ rw (answered, h) (made_up (there (there (here refl))))
      ]

  attempt_at-IsReply :
      (more : Upstream → Response api × Upstream) (retry : RetryPolicy) (k last : ℕ) (o : Option ℕ)
      (u : Upstream)
      → k < last
      → ((v : Upstream) → IsReply out send retry.retry_on_status k last (more v).0)
      → IsReply out send retry.retry_on_status k last
          (attempt_at api out ip_text parse_uri hash send begins ends meanwhile r more retry k o
            u).0
  attempt_at-IsReply more retry k last none u small ih = made_up (here refl)
  attempt_at-IsReply more retry k last (some i) u small ih = elim (Option-cases (target_url i u)) [
    | inl e ↦ rw (attempt_at, e) (made_up (here refl))
    | inr (base, e) ↦ elim (Option-cases (build_request api out ip_text parse_uri r base)) [
      | inl f ↦ rw (attempt_at, e, f) (made_up (there (here refl)))
      | inr (request, f) ↦
          rw (attempt_at, e, f)
            (answered-IsReply more retry k last i (ends k) request (send k request) _ refl small ih)
    ]
  ]

  IsReply-earlier :
      {retried : List ℕ} {k last : ℕ} {x : Response api}
      → IsReply out send retried (suc k) last x
      → IsReply out send retried k last x
  IsReply-earlier (made_up c) = made_up c
  IsReply-earlier (passed_on j request a first small at h) =
      passed_on j request a (omega arith) small at h

  attempts_from-IsReply :
      (retry : RetryPolicy) (n k : ℕ) (u : Upstream)
      → IsReply out send retry.retry_on_status k
          (k + n)
          (attempts_from api out ip_text parse_uri hash send begins ends meanwhile r retry n k u).0
  unfolding attempts_from
  attempts_from-IsReply retry zero k u = made_up (there (there (there (here refl))))
  attempts_from-IsReply retry (suc n) k u =
      attempt_at-IsReply
        (attempts_from api out ip_text parse_uri hash send begins ends meanwhile r retry n (suc k))
        retry k (k + suc n) (pick hash u r.client_ip (begins k)).0
        (pick hash u r.client_ip (begins k)).1 (omega arith)
        (λ v. IsReply-earlier (
          subst
            (λ last.
              IsReply out send retry.retry_on_status (suc k) last
                (attempts_from api out ip_text parse_uri hash send begins ends meanwhile r retry n
                  (suc k) v).0)
            (omega arith) (attempts_from-IsReply retry n (suc k) v)))

  -- Whatever the network answers and other requests do to the pool, what forward returns is one of
  -- its four error responses, or it is an upstream's answer to one of the attempts, of which there
  -- are as many as configured and one at least, with a status that is not to be retried.
  pub forward-IsReply :
      (u : Upstream)
      → IsReply out send u.retry.retry_on_status 0
          (max u.retry.attempts 1)
          (forward api out ip_text parse_uri hash send begins ends meanwhile r u).0
  unfolding forward
  forward-IsReply u =
      let whole : 0 + max u.retry.attempts 1 ≡ max u.retry.attempts 1 = omega arith in
      subst
        (λ last.
          IsReply out send u.retry.retry_on_status 0 last
            (attempts_from api out ip_text parse_uri hash send begins ends meanwhile r u.retry
              (max u.retry.attempts 1) 0 u).0)
        whole (attempts_from-IsReply u.retry (max u.retry.attempts 1) 0 u)
