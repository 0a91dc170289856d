-- ===== src/Config/Valid.antt =====
-- What `validate` lets through.
use pulsate.Prelude.{
  ◌≡◌, inl, inr, refl, sym, ◌∙◌, ap, true, false, ◌&&◌, Option, none, some, List, [], ◌∷◌, ◌++◌,
  Str, str_eq, str_eq_iff, bytes, any, All, map, arith, Bool-cases,
}
use pulsate.Flow.Span.{Span, error, Diagnostic}
use pulsate.Config.Model.{
  Named, MwSpec, cors, strip_prefix, rate_limit, waf, cache, RefUse, RouteDef, Site, Config,
  upstream_names, cache_names, waf_names, defined_names,
}
use pulsate.Config.Check.{
  duplicate_of, repeats, check_dup_names, with_suggestion, unknown_ref, is_defined, check_refs,
  check_cors, over_routes, over_sites, all_hosts, collision, validate,
}
use pulsate.Config.Compile.{is_error, errors_of}

unfoldable pub Unique : List Str → Type 0
Unique [] = Unit {0}
Unique (n ∷ ns) = (any (str_eq n) ns ≡ false) × Unique ns

-- Credentials are not combined with the origin `*`.
pub IsSafe : MwSpec → Type 0
IsSafe (cors origins methods credentials) =
    (credentials && any (λ o. str_eq o (bytes "*")) origins) ≡ false
IsSafe spec = Unit {0}

abbrev pub AllRoutes : (RouteDef → Type 0) → List Site → Type 0
AllRoutes P sites = All (λ s. All P s.routes) sites

-- Names are unique within their kind, references lead somewhere, no two hosts of the sites are the
-- same, and credentials are not sent to every origin.
pub record IsValid (c : Config) : Type 0 where
  pub upstreams : Unique (map (λ n. n.name) (upstream_names c))
  pub caches : Unique (map (λ n. n.name) (cache_names c))
  pub wafs : Unique (map (λ n. n.name) (waf_names c))
  pub user_sets : Unique (map (λ n. n.name) c.user_sets)
  pub refs : AllRoutes (λ r. All (λ u. is_defined (defined_names c) u.name ≡ true) r.refs) c.sites
  pub origins : AllRoutes (λ r. All IsSafe r.mw_specs) c.sites
  pub hosts : Unique (map (λ h. h.pattern) (all_hosts c.sites))

append_eq_nil : (xs ys : List Diagnostic) → xs ++ ys ≡ [] → (xs ≡ []) × (ys ≡ [])
append_eq_nil [] ys h = (refl, h)
append_eq_nil (x ∷ xs) ys h = cc

pub errors_of-append :
    (xs ys : List Diagnostic) → errors_of (xs ++ ys) ≡ errors_of xs ++ errors_of ys
errors_of-append [] ys = refl
errors_of-append (x ∷ xs) ys = elim (Bool-cases (is_error x.severity)) [
  | inl h ↦ rw h (ap (λ zs. x ∷ zs) (errors_of-append xs ys))
  | inr h ↦ rw h (errors_of-append xs ys)
]

pub errors_of-split :
    (xs ys : List Diagnostic)
    → errors_of (xs ++ ys) ≡ []
    → (errors_of xs ≡ []) × (errors_of ys ≡ [])
errors_of-split xs ys h =
    append_eq_nil (errors_of xs) (errors_of ys) (sym (errors_of-append xs ys) ∙ h)

pub errors_of-cons :
    (x : Diagnostic) (xs : List Diagnostic) → x.severity ≡ error → errors_of (x ∷ xs) ≡ [] → ⊥
errors_of-cons x xs e h =
    let f : is_error x.severity ≡ true = ap is_error e in
    let bad : x ∷ errors_of xs ≡ [] = rw f at h in cc

str_eq-sym : (s t : Str) → str_eq s t ≡ false → str_eq t s ≡ false
str_eq-sym s t h = elim (Bool-cases (str_eq t s)) [
  | inl e ↦
      let same : t ≡ s = (str_eq_iff t s).0 e in
      let again : str_eq s t ≡ true = (str_eq_iff s t).1 (sym same) in cc
  | inr e ↦ e
]

module _ {A : Type 0} (name : A → Str) (report : A → Diagnostic)
    (errs : (a : A) → (report a).severity ≡ error) where
  absent :
      (n : Str) (more : List A)
      → All (λ a. any (str_eq (name a)) (n ∷ []) ≡ false) more
      → any (str_eq n) (map name more) ≡ false
  absent n [] h = refl
  absent n (a ∷ more) (h, rest) = ground (arith, str_eq-sym (name a) n, absent n more rest)

  pub repeats-Unique :
      (seen : List Str) (more : List A)
      → errors_of (repeats name report seen more) ≡ []
      → Unique (map name more) × All (λ a. any (str_eq (name a)) seen ≡ false) more
  unfolding repeats Unique
  repeats-Unique seen [] h = (tt, tt)
  repeats-Unique seen (a ∷ more) h = elim (Bool-cases (any (str_eq (name a)) seen)) [
    | inl e ↦
        absurd (
          errors_of-cons (report a) (repeats name report seen more) (errs a) (rw (repeats, e) at h))
    | inr e ↦
        let (unique, fresh) = repeats-Unique (name a ∷ seen) more (rw (repeats, e) at h) in
        (
          (absent (name a) more (All-map (first_of (name a) seen) more fresh), unique),
          (e, All-map (rest_of (name a) seen) more fresh),
        )
  ]
    where
      first_of :
          (n : Str) (seen : List Str) (b : A)
          → any (str_eq (name b)) (n ∷ seen) ≡ false
          → any (str_eq (name b)) (n ∷ []) ≡ false
      first_of n seen b x = ground arith

      rest_of :
          (n : Str) (seen : List Str) (b : A)
          → any (str_eq (name b)) (n ∷ seen) ≡ false
          → any (str_eq (name b)) seen ≡ false
      rest_of n seen b x = ground arith

      All-map : {P Q : A → Type 0} → ((b : A) → P b → Q b) → (xs : List A) → All P xs → All Q xs
      All-map f [] a = tt
      All-map f (x ∷ xs) (p, ps) = (f x p, All-map f xs ps)

with_suggestion-severity :
    (o : Option Str) (d : Diagnostic) → (with_suggestion o d).severity ≡ d.severity
with_suggestion-severity none d = refl
with_suggestion-severity (some s) d = refl

check_refs_lem :
    (defined : List Named) (rs : List RefUse)
    → errors_of (check_refs defined rs) ≡ []
    → All (λ u. is_defined defined u.name ≡ true) rs
unfolding check_refs
check_refs_lem defined [] h = tt
check_refs_lem defined (r ∷ rs) h = elim (Bool-cases (is_defined defined r.name)) [
  | inl e ↦ (e, check_refs_lem defined rs (rw (check_refs, e) at h))
  | inr e ↦ absurd (
      errors_of-cons (unknown_ref defined r) (check_refs defined rs) (with_suggestion-severity _ _)
        (rw (check_refs, e) at h))
]

check_cors_lem :
    (span : Span) (specs : List MwSpec) → errors_of (check_cors span specs) ≡ [] → All IsSafe specs
unfolding check_cors IsSafe
check_cors_lem span [] h = tt
check_cors_lem span (cors origins methods credentials ∷ specs) h =
    elim (Bool-cases (credentials && any (λ o. str_eq o (bytes "*")) origins)) [
      | inl e ↦ absurd (errors_of-cons _ (check_cors span specs) refl (rw (check_cors, e) at h))
      | inr e ↦ (e, check_cors_lem span specs (rw (check_cors, e) at h))
    ]
check_cors_lem span (strip_prefix p ∷ specs) h = (tt, check_cors_lem span specs h)
check_cors_lem span (rate_limit count per key ∷ specs) h = (tt, check_cors_lem span specs h)
check_cors_lem span (waf name ∷ specs) h = (tt, check_cors_lem span specs h)
check_cors_lem span (cache name ∷ specs) h = (tt, check_cors_lem span specs h)

over_routes_lem :
    (P : RouteDef → Type 0) (f : RouteDef → List Diagnostic)
    → ((r : RouteDef) → errors_of (f r) ≡ [] → P r)
    → (rs : List RouteDef) → errors_of (over_routes f rs) ≡ []
    → All P rs
over_routes_lem P f ok [] h = tt
over_routes_lem P f ok (r ∷ rs) h =
    let (here, rest) = errors_of-split (f r) (over_routes f rs) h in
    (ok r here, over_routes_lem P f ok rs rest)

over_sites_lem :
    (P : RouteDef → Type 0) (f : RouteDef → List Diagnostic)
    → ((r : RouteDef) → errors_of (f r) ≡ [] → P r)
    → (ss : List Site) → errors_of (over_sites f ss) ≡ []
    → AllRoutes P ss
over_sites_lem P f ok [] h = tt
over_sites_lem P f ok (s ∷ ss) h =
    let (here, rest) = errors_of-split (over_routes f s.routes) (over_sites f ss) h in
    (over_routes_lem P f ok s.routes here, over_sites_lem P f ok ss rest)

names-Unique :
    (kind : Str) (ns : List Named)
    → errors_of (check_dup_names kind ns) ≡ []
    → Unique (map (λ n. n.name) ns)
names-Unique kind ns h = (repeats-Unique (λ n. n.name) (duplicate_of kind) (λ n. refl) [] ns h).0

pub validate-IsValid : (c : Config) → errors_of (validate c) ≡ [] → IsValid c
unfolding validate
validate-IsValid c h =
    let (h1, t1) = errors_of-split (check_dup_names (bytes "upstream") (upstream_names c)) _ h in
    let (h2, t2) = errors_of-split (check_dup_names (bytes "cache") (cache_names c)) _ t1 in
    let (h3, t3) = errors_of-split (check_dup_names (bytes "waf") (waf_names c)) _ t2 in
    let (h4, t4) = errors_of-split (check_dup_names (bytes "users") c.user_sets) _ t3 in
    let (h5, t5) =
      errors_of-split (over_sites (λ r. check_refs (defined_names c) r.refs) c.sites) _ t4 in
    let (h6, h7) = errors_of-split (over_sites (λ r. check_cors r.span r.mw_specs) c.sites) _ t5 in
    record {
      upstreams = names-Unique (bytes "upstream") (upstream_names c) h1;
      caches = names-Unique (bytes "cache") (cache_names c) h2;
      wafs = names-Unique (bytes "waf") (waf_names c) h3;
      user_sets = names-Unique (bytes "users") c.user_sets h4;
      refs =
          over_sites_lem (λ r. All (λ u. is_defined (defined_names c) u.name ≡ true) r.refs)
            (λ r. check_refs (defined_names c) r.refs)
            (λ r. check_refs_lem (defined_names c) r.refs) c.sites h5;
      origins =
          over_sites_lem (λ r. All IsSafe r.mw_specs) (λ r. check_cors r.span r.mw_specs)
            (λ r. check_cors_lem r.span r.mw_specs) c.sites h6;
      hosts = (repeats-Unique (λ x. x.pattern) collision (λ x. refl) [] (all_hosts c.sites) h7).0;
    }
