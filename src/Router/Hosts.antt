-- ===== src/Router/Hosts.antt =====
-- `SiteRoutes::host_score`: how a site is matched with a host.
use pulsate.Prelude.{
  ℕ, ◌≡◌, ◌≢◌, refl, ◌∙◌, true, some, Str, List, [], ◌∷◌, ◌++◌, bytes, length-append, ends_with,
  str_eq_iff, arith, best_of, best_of_tie, best_of_one,
}
use pulsate.Router.{
  Route, SiteRoutes, host_pattern_score, hosts_score, host_score, host_without_port, route, score,
}
use pulsate.Router.Choice.{one_site}

ends_with-append : (l s : Str) → ends_with (l ++ s) s ≡ true
ends_with-append [] [] = refl
ends_with-append [] (c ∷ s) = ground (arith, str_eq_iff (c ∷ s) (c ∷ s))
ends_with-append (c ∷ l) s = ground (arith, ends_with-append l s)

-- A pattern `*.suffix` takes every host that ends in the suffix and is longer, whether or not a dot
-- stands in front of the suffix: `*.example.com` takes `evilexample.com`.
pub wildcard_without_dot :
    (label suffix : Str)
    → label ≢ []
    → bytes "*." ++ suffix ≢ label ++ suffix
    → host_pattern_score (bytes "*." ++ suffix) (label ++ suffix) ≡ some 2
unfolding host_pattern_score
wildcard_without_dot [] suffix h n = absurd (h refl)
wildcard_without_dot (c ∷ label) suffix h n = ground (
  arith,
  str_eq_iff (bytes "*." ++ suffix) ((c ∷ label) ++ suffix),
  ends_with-append (c ∷ label) suffix,
  length-append label suffix,
)

module _ {M C : Type 0} where
  host_score_self :
      (host : Str) (qs : List (Route M C))
      → host_score host (record { hosts = host ∷ []; routes = qs }) ≡ some 3
  unfolding host_score hosts_score host_pattern_score
  host_score_self host qs = ground (arith, str_eq_iff host host)

  route-one_site :
      (host path method : Str) (qs : List (Route M C))
      → host_without_port host ≡ host
      → route (one_site host qs) host path method ≡ best_of (score path method) qs
  unfolding route
  route-one_site host path method qs h =
      let site : SiteRoutes M C = record { hosts = host ∷ []; routes = qs } in
      let e : best_of (host_score (host_without_port host)) (site ∷ []) ≡ some site =
        rw h (best_of_one (host_score host) site 3 (host_score_self host qs)) in
      rw (e, route)

  -- Of two routes of a site that have one score for a request the one that is declared later gets
  -- the request, so the order of declaration decides.
  pub route_tie :
      (host path method : Str) (a b : Route M C) (s : ℕ)
      → host_without_port host ≡ host
      → score path method a ≡ some s
      → score path method b ≡ some s
      → (route (one_site host (a ∷ b ∷ [])) host path method ≡ some b)
        × (route (one_site host (b ∷ a ∷ [])) host path method ≡ some a)
  route_tie host path method a b s h ha hb = (
    route-one_site host path method (a ∷ b ∷ []) h ∙ best_of_tie (score path method) a b s ha hb,
    route-one_site host path method (b ∷ a ∷ []) h ∙ best_of_tie (score path method) b a s hb ha,
  )
