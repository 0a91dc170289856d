-- ===== src/Pipeline/Passage.antt =====
-- What a request has passed that the ingress phase lets through.
use pulsate.Prelude.{
  ℕ, ◌≡◌, inl, inr, refl, sym, ◌∙◌, ◌⊎◌, false, subst, Option, none, some, List, [], ◌∷◌, Str,
  strip_prefix, All, Option-cases,
}
use pulsate.Net.{IpAddr}
use pulsate.Waf.Acl
use pulsate.Waf.Acl.{Block, IpAcl, to_canonical}
use pulsate.Waf.Access.{Takes, TakesNot, check_lem}
use pulsate.Waf.Evasion.{inspect_lem}
use pulsate.Waf.Engine.{Mode, detect_only, signatures, has_text, normalize, inspect}
use pulsate.Waf.RateLimiter.{Buckets}
use pulsate.Pipeline.{
  Mw, strips_prefix, headers, cors_for, rate_limits, waf_engine, ip_acl, RequestView, Reply,
  block_of, acl_reply, mw_round, after, ingress,
}

-- The list lets the client in: an allowed range takes the address, or none is allowed by name and no
-- denied range takes it. A client whose address is not known is let in.
abbrev pub LetsIn : IpAcl → Option IpAddr → Type 0
LetsIn acl none = Unit {0}
LetsIn acl (some ip) =
    Takes acl.allow (to_canonical ip) ⊎ ((acl.allow ≡ []) × TakesNot acl.deny (to_canonical ip))

-- The engine only detects, or no signature occurs in the target's normal form.
abbrev pub Clears : (Str → Str) → Mode → Str → Type 0
Clears lossy mode target =
    (mode ≡ detect_only) ⊎ All (λ g. has_text (normalize lossy target) g.needle ≡ false) signatures

-- The middleware has nothing against the client's address and the target.
abbrev pub Permits : (Str → Str) → Option IpAddr → Str → Mw × Buckets → Type 0
Permits lossy client target (waf_engine mode, b) = Clears lossy mode target
Permits lossy client target (ip_acl acl, b) = LetsIn acl client
Permits lossy client target (mw, b) = Unit {0}

block_of-none : (o : Option Block) → block_of o ≡ none → o ≡ none
block_of-none none h = refl
block_of-none (some b) h = cc

module _ (show_ip : IpAddr → Str) (lossy : Str → Str) where
  mw_round-Permits :
      (now : ℕ) (mw : Mw) (b : Buckets) (req : RequestView)
      → (mw_round show_ip lossy now mw b req).0 ≡ none
      → Permits lossy req.client_ip req.path_and_query (mw, b)
  unfolding mw_round
  mw_round-Permits now (strips_prefix p) b req h = tt
  mw_round-Permits now (headers set remove) b req h = tt
  mw_round-Permits now (cors_for origins methods credentials) b req h = tt
  mw_round-Permits now (rate_limits rl key) b req h = tt
  mw_round-Permits now (waf_engine mode) b req h =
      elim (inspect_lem lossy mode req.path_and_query) [
        | inl (e, clear) ↦ clear
        | inr (b', g, e, status, mode_is, is_in, hit) ↦
            let bad : some b' ≡ none =
              sym e ∙ block_of-none (inspect lossy mode req.path_and_query) h in
            cc
      ]
  mw_round-Permits now (ip_acl acl) b req h = lets_in req.client_ip h
    where
      lets_in :
          (client : Option IpAddr) → acl_reply show_ip lossy acl client ≡ none → LetsIn acl client
      lets_in none x = tt
      lets_in (some ip) x = elim (check_lem show_ip acl ip) [
        | inl (e, clear) ↦ clear
        | inr (b', e, status, out, reason) ↦
            let bad : some b' ≡ none = sym e ∙ block_of-none (Acl.check show_ip acl ip) x in cc
      ]

  -- A round rewrites the path of the request and nothing else.
  Kept : RequestView → RequestView → Type 0
  Kept req req' = (req'.client_ip ≡ req.client_ip) × (req'.path_and_query ≡ req.path_and_query)

  mw_round-Kept :
      (now : ℕ) (mw : Mw) (b : Buckets) (req : RequestView)
      → Kept req (mw_round show_ip lossy now mw b req).1
  unfolding mw_round Kept
  mw_round-Kept now (strips_prefix p) b req = elim (Option-cases (strip_prefix req.path p)) [
    | inl e ↦ rw e (refl, refl)
    | inr (rest, e) ↦ rw e (refl, refl)
  ]
  mw_round-Kept now (headers set remove) b req = (refl, refl)
  mw_round-Kept now (cors_for origins methods credentials) b req = (refl, refl)
  mw_round-Kept now (rate_limits rl key) b req = (refl, refl)
  mw_round-Kept now (waf_engine mode) b req = (refl, refl)
  mw_round-Kept now (ip_acl acl) b req = (refl, refl)

  after-none :
      (mw : Mw) (rest : List (Mw × Buckets))
      (more : RequestView → Option Reply × RequestView × List (Mw × Buckets))
      (x : Option Reply × RequestView × Buckets)
      → (after show_ip lossy mw rest more x).0 ≡ none
      → (x.0 ≡ none) × ((more x.1).0 ≡ none)
  after-none mw rest more (some reply, req, b) h = cc
  after-none mw rest more (none, req, b) h = (refl, h)

  -- A request that ingress lets through, with its target as the client sent it: of the firewalls of
  -- the pipeline each only detects or finds none of its signatures in the normal form of the target,
  -- and of the address lists each lets the client in, by an allowed range, or where none is allowed by
  -- name by no denied range, if the client's address is known.
  pub ingress-Permits :
      (now : ℕ) (ms : List (Mw × Buckets)) (req : RequestView)
      → (ingress show_ip lossy now ms req).0 ≡ none
      → All (Permits lossy req.client_ip req.path_and_query) ms
  unfolding ingress Kept
  ingress-Permits now [] req h = tt
  ingress-Permits now ((mw, b) ∷ rest) req h =
      let (passed, later) =
        after-none mw rest (ingress show_ip lossy now rest) (mw_round show_ip lossy now mw b req)
          h in
      let (same_ip, same_target) = mw_round-Kept now mw b req in
      let behind : All
          (Permits lossy (mw_round show_ip lossy now mw b req).1.client_ip
            (mw_round show_ip lossy now mw b req).1.path_and_query)
          rest =
        ingress-Permits now rest (mw_round show_ip lossy now mw b req).1 later in
      (
        mw_round-Permits now mw b req passed,
        subst (λ t. All (Permits lossy req.client_ip t) rest) same_target
            (subst
              (λ i.
                All (Permits lossy i (mw_round show_ip lossy now mw b req).1.path_and_query) rest)
              same_ip behind),
      )
