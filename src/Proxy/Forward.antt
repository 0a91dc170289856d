-- ===== src/Proxy/Forward.antt =====
-- crates/pulsate-proxy/src/forward.rs: the attempts of `forward`. What the network answers to an
-- attempt, when an attempt begins and ends, and what other requests do to the pool while it is under
-- way are parameters, by the attempt's number. `forward` is the call that is awaited to its end; a
-- caller may drop its future at an await, which is `dropped_forward`.
use pulsate.Prelude.{
  ℕ, zero, suc, true, false, Option, none, some, [], ◌++◌, Str, bytes, any, get_elem?, max, ◌==◌,
}
use pulsate.Core.{
  Code, http_status, code_text, prx_no_healthy, prx_protocol_error, prx_connect_timeout,
  prx_retry_exhausted,
}
use pulsate.Http.{HeaderApi, HeaderWriter}
use pulsate.Net.{IpAddr}
use pulsate.Proxy.{
  Upstream, RetryPolicy, pick, inflight_inc, inflight_dec, record_success, record_failure,
}
use pulsate.Proxy.Headers.{request_headers, response_headers}

pub record Response (api : HeaderApi) : Type 0 where
  pub status : ℕ
  pub headers : api.HeaderMap
  pub body : Str

-- What an upstream answered; the body is missing where reading it failed.
pub record Answer (api : HeaderApi) : Type 0 where
  pub status : ℕ
  pub headers : api.HeaderMap
  pub body : Option Str

-- The request that goes out; `Uri` is what the http crate parses an address to.
pub record Outgoing (api : HeaderApi) (Uri : Type 0) : Type 0 where
  pub method : Str
  pub uri : Uri
  pub headers : api.HeaderMap
  pub body : Str

-- The request that came in.
pub record Incoming (api : HeaderApi) : Type 0 where
  pub method : Str
  pub path_and_query : Str
  pub headers : api.HeaderMap
  pub body : Str
  pub client_ip : Option IpAddr
  pub orig_host : Str

abbrev pub or_default : Option Str → Str
or_default none = []
or_default (some body) = body

-- `Upstream::target_url`
abbrev pub target_url : ℕ → Upstream → Option Str
target_url i u = elim (get_elem? u.backends i) [ none ↦ none | some b ↦ some b.url ]

module _ (api : HeaderApi) (out : HeaderWriter api) where
  abbrev pub error_response : Code → Response api
  error_response code = record {
    status = http_status code;
    headers =
        out.insert out.empty (bytes "content-type")
          (out.from_static (bytes "text/plain; charset=utf-8"));
    body = code_text code ++ (bytes ": " ++ code.title);
  }

  abbrev pub normalize_response : Answer api → Response api
  normalize_response a = record {
    status = a.status;
    headers = response_headers api out a.headers;
    body = or_default a.body;
  }

  module _ {Uri : Type 0} (ip_text : IpAddr → Str) (parse_uri : Str → Option Uri) where
    abbrev pub build_request : Incoming api → Str → Option (Outgoing api Uri)
    build_request r base = elim (parse_uri (base ++ r.path_and_query)) [
      | none ↦ none
      | some uri ↦ some (record {
        method = r.method;
        uri = uri;
        headers = request_headers api out ip_text r.headers r.client_ip r.orig_host;
        body = r.body;
      })
    ]

    module _ (hash : Option IpAddr → ℕ) (send : ℕ → Outgoing api Uri → Option (Answer api))
        (begins ends : ℕ → ℕ) (meanwhile : ℕ → Upstream → Upstream) (r : Incoming api) where
      -- What an attempt's answer leads to; `more` is the attempts that follow.
      abbrev pub answered :
          (Upstream → Response api × Upstream)
          → RetryPolicy
          → ℕ
          → ℕ
          → Option (Answer api)
          → Upstream
          → Response api × Upstream
      answered more retry i now (some a) u = elim (any (λ s. s == a.status) retry.retry_on_status) [
        | true ↦ more (record_failure i now u)
        | false ↦ (normalize_response a, record_success i u)
      ]
      answered more retry i now none u = elim retry.on_connect_error [
        | true ↦ more (record_failure i now u)
        | false ↦ (error_response prx_connect_timeout, record_failure i now u)
      ]

      -- An attempt at the picked target.
      abbrev pub attempt_at :
          (Upstream → Response api × Upstream)
          → RetryPolicy
          → ℕ
          → Option ℕ
          → Upstream
          → Response api × Upstream
      attempt_at more retry k none u = (error_response prx_no_healthy, u)
      attempt_at more retry k (some i) u = elim (target_url i u) [
        | none ↦ (error_response prx_no_healthy, u)
        | some base ↦ elim (build_request r base) [
          | none ↦ (error_response prx_protocol_error, u)
          | some request ↦
              answered more retry i (ends k) (send k request)
                (inflight_dec i (meanwhile k (inflight_inc i u)))
        ]
      ]

      -- The attempts from the `k`-th on.
      unfoldable pub attempts_from : RetryPolicy → ℕ → ℕ → Upstream → Response api × Upstream
      attempts_from retry zero k u = (error_response prx_retry_exhausted, u)
      attempts_from retry (suc n) k u =
          attempt_at (attempts_from retry n (suc k)) retry k (pick hash u r.client_ip (begins k)).0
            (pick hash u r.client_ip (begins k)).1

      unfoldable pub forward : Upstream → Response api × Upstream
      forward u = attempts_from u.retry (max u.retry.attempts 1) 0 u

      -- The attempts that follow an answer, for a future that is dropped in one of them.
      abbrev pub dropped_behind :
          (Upstream → Option Upstream)
          → RetryPolicy
          → ℕ
          → ℕ
          → Option (Answer api)
          → Upstream
          → Option Upstream
      dropped_behind more retry i now (some a) u =
          elim (any (λ s. s == a.status) retry.retry_on_status) [
            | true ↦ more (record_failure i now u)
            | false ↦ none
          ]
      dropped_behind more retry i now none u = elim retry.on_connect_error [
        | true ↦ more (record_failure i now u)
        | false ↦ none
      ]

      -- An attempt at the picked target, where the future is dropped while it waits for the answer of
      -- the attempt `stop`.
      abbrev pub dropped_at :
          (Upstream → Option Upstream) → RetryPolicy → ℕ → ℕ → Option ℕ → Upstream → Option Upstream
      dropped_at more retry stop k none u = none
      dropped_at more retry stop k (some i) u = elim (target_url i u) [
        | none ↦ none
        | some base ↦ elim (build_request r base) [
          | none ↦ none
          | some request ↦ elim (k == stop) [
            | true ↦ some (meanwhile k (inflight_inc i u))
            | false ↦
                dropped_behind more retry i (ends k) (send k request)
                  (inflight_dec i (meanwhile k (inflight_inc i u)))
          ]
        ]
      ]

      unfoldable pub dropped_from : RetryPolicy → ℕ → ℕ → ℕ → Upstream → Option Upstream
      dropped_from retry stop zero k u = none
      dropped_from retry stop (suc n) k u =
          dropped_at (dropped_from retry stop n (suc k)) retry stop k
            (pick hash u r.client_ip (begins k)).0 (pick hash u r.client_ip (begins k)).1

      -- The pool behind a call of `forward` whose future is dropped while it waits for the answer of
      -- the attempt `stop`, if it comes to that.
      unfoldable pub dropped_forward : ℕ → Upstream → Option Upstream
      dropped_forward stop u = dropped_from u.retry stop (max u.retry.attempts 1) 0 u
