-- ===== src/Config/Refers.antt =====
-- The names that a lowered route goes by are among its references.
use pulsate.Prelude.{
  ℕ, zero, suc, ◌≡◌, inl, inr, refl, Option, none, some, List, [], ◌∷◌, ◌++◌, Str, str_eq, bytes,
  All, In, here, there, Bool-cases, Option-cases,
}
use pulsate.Flow.Value.{Value, ref}
use pulsate.Flow.Ast.{Arg, Step, Route}
use pulsate.Config.Model.{MwSpec, strip_prefix, waf, cache, RefUse, Handler, proxy, RouteDef}
use pulsate.Config.Args.{
  fold, value_of, value_span, first_ref, collect_refs, collect_refs_value, first_positional,
  first_positional_str, named_str,
}
use pulsate.Config.Routing.{
  proxy_arg, build_handler, map_text, rate_spec, build_middleware, handler_at, is_index, others,
  specs_of, refs_of, lower_route, terminal_of, indexed, is_handler,
}

-- The name of a firewall or a cache that a step goes by.
abbrev pub spec_name : MwSpec → Option Str
spec_name (waf n) = some n
spec_name (cache n) = some n
spec_name m = none

-- The name of the upstream that a route is answered by.
abbrev pub handler_name : Option Handler → Option Str
handler_name (some (proxy upstream target)) = upstream
handler_name h = none

-- The name, if there is one, has the property.
abbrev pub OnName : (Str → Type 0) → Option Str → Type 0
OnName P none = Unit {0}
OnName P (some n) = P n

-- A step and the handler of a route go by names that have the property.
pub record NamesAre (P : Str → Type 0) (r : RouteDef) : Type 0 where
  pub specs : All (λ m. OnName P (spec_name m)) r.mw_specs
  pub handler : OnName P (handler_name r.handler)

abbrev pub IsReferred : List RefUse → Str → Type 0
IsReferred refs n = (u : RefUse) × In u refs × (u.name ≡ n)

In-left : {A : Type 0} {x : A} {xs : List A} (ys : List A) → In x xs → In x (xs ++ ys)
In-left ys (here e) = here e
In-left ys (there m) = there (In-left ys m)

In-right : {A : Type 0} {x : A} (xs : List A) {ys : List A} → In x ys → In x (xs ++ ys)
In-right [] m = m
In-right (x ∷ xs) m = there (In-right xs m)

IsReferred-left : (us vs : List RefUse) (n : Str) → IsReferred us n → IsReferred (us ++ vs) n
IsReferred-left us vs n (u, m, e) = (u, In-left vs m, e)

IsReferred-right : (us vs : List RefUse) (n : Str) → IsReferred vs n → IsReferred (us ++ vs) n
IsReferred-right us vs n (u, m, e) = (u, In-right us m, e)

OnName-map :
    {P Q : Str → Type 0} → ((n : Str) → P n → Q n) → (o : Option Str) → OnName P o → OnName Q o
OnName-map f none p = tt
OnName-map f (some n) p = f n p

All-specs :
    {P Q : Str → Type 0}
    → ((n : Str) → P n → Q n)
    → (ms : List MwSpec) → All (λ m. OnName P (spec_name m)) ms
    → All (λ m. OnName Q (spec_name m)) ms
All-specs f [] a = tt
All-specs f (m ∷ ms) (p, ps) = (OnName-map f (spec_name m) p, All-specs f ms ps)

pub NamesAre-map :
    {P Q : Str → Type 0} → ((n : Str) → P n → Q n) → (r : RouteDef) → NamesAre P r → NamesAre Q r
NamesAre-map f r p = record {
  specs = All-specs f r.mw_specs p.specs;
  handler = OnName-map f (handler_name r.handler) p.handler;
}

ref_here :
    (v : Value) (a : Arg) (n : Str)
    → value_of a ≡ v
    → v ≡ ref n
    → IsReferred (collect_refs_value (value_of a) (value_span a)) n
ref_here v a n at e = rw (at, e) (record { name = n; span = value_span a }, here refl, refl)

first_ref-IsReferred : (args : List Arg) → OnName (IsReferred (collect_refs args)) (first_ref args)
unfolding first_ref
first_ref-IsReferred [] = tt
first_ref-IsReferred (a ∷ args) = by_value (value_of a) refl (
    OnName-map (IsReferred-right (collect_refs_value (value_of a) (value_span a)) _)
      (first_ref args) (first_ref-IsReferred args))
  where
    by_value :
        (v : Value)
        → value_of a ≡ v
        → OnName (IsReferred (collect_refs (a ∷ args))) (first_ref args)
        → OnName (IsReferred (collect_refs (a ∷ args))) (first_ref (a ∷ args))
    by_value (ref n) at later =
        rw (first_ref, at) (record { name = n; span = value_span a }, here refl, refl)
    by_value v at later = rw (first_ref, at) (rw at at later)

OnSpec : (Str → Type 0) → Option MwSpec → Type 0
OnSpec P none = Unit {0}
OnSpec P (some m) = OnName P (spec_name m)

map_text-OnSpec :
    (P : Str → Type 0) (f : Str → MwSpec) (o : Option Str)
    → ((n : Str) → o ≡ some n → OnName P (spec_name (f n)))
    → OnSpec P (map_text f o)
unfolding OnSpec
map_text-OnSpec P f none ok = tt
map_text-OnSpec P f (some n) ok = ok n refl

rate_spec-OnSpec : (P : Str → Type 0) (o : Option Value) (k : Option Str) → OnSpec P (rate_spec o k)
unfolding OnSpec
rate_spec-OnSpec P (some (Value.rate count per)) k = tt
rate_spec-OnSpec P v k = tt

on_some : (P : Str → Type 0) (o : Option Str) (n : Str) → OnName P o → o ≡ some n → P n
on_some P o n p e = rw e at p

build_middleware-OnSpec :
    (s : Step) → OnSpec (IsReferred (collect_refs s.args)) (build_middleware s)
unfolding build_middleware OnSpec
build_middleware-OnSpec s = elim (Bool-cases (str_eq s.name.node (bytes "strip_prefix"))) [
  | inl e ↦
      rw (build_middleware, e)
        (map_text-OnSpec _ strip_prefix (first_positional_str s.args) (λ n x. tt))
  | inr e ↦ elim (Bool-cases (str_eq s.name.node (bytes "cors"))) [
    | inl f ↦ rw (build_middleware, e, f) tt
    | inr f ↦ elim (Bool-cases (str_eq s.name.node (bytes "rate_limit"))) [
      | inl g ↦
          rw (build_middleware, e, f, g)
            (rate_spec-OnSpec _ (first_positional s.args) (named_str s.args (bytes "key")))
      | inr g ↦ elim (Bool-cases (str_eq s.name.node (bytes "waf"))) [
        | inl k ↦
            rw (build_middleware, e, f, g, k)
              (map_text-OnSpec _ waf (first_ref s.args)
                (λ n. on_some _ _ n (first_ref-IsReferred s.args)))
        | inr k ↦ elim (Bool-cases (str_eq s.name.node (bytes "cache"))) [
          | inl l ↦
              rw (build_middleware, e, f, g, k, l)
                (map_text-OnSpec _ cache (first_ref s.args)
                  (λ n. on_some _ _ n (first_ref-IsReferred s.args)))
          | inr l ↦ rw (build_middleware, e, f, g, k, l) tt
        ]
      ]
    ]
  ]
]

specs_of-OnName :
    (t : Option ℕ) (i : ℕ) (ss : List Step)
    → All (λ m. OnName (IsReferred (refs_of ss)) (spec_name m)) (specs_of (others t i ss))
unfolding OnSpec
specs_of-OnName t i [] = tt
specs_of-OnName t i (s ∷ ss) =
    let later : All (λ m. OnName (IsReferred (refs_of (s ∷ ss))) (spec_name m))
        (specs_of (others t (suc i) ss)) =
      All-specs (IsReferred-right (collect_refs s.args) (refs_of ss)) _
        (specs_of-OnName t (suc i) ss) in
    elim (Bool-cases (is_index t i)) [
      | inl e ↦ rw (others, e) later
      | inr e ↦ elim (Option-cases (build_middleware s)) [
        | inl f ↦ rw (others, e, specs_of, f) later
        | inr (m, f) ↦
            rw (others, e, specs_of, f)
              (
                OnName-map (IsReferred-left (collect_refs s.args) (refs_of ss)) (spec_name m)
                    (found m f),
                later,
              )
      ]
    ]
  where
    found :
        (m : MwSpec)
        → build_middleware s ≡ some m
        → OnName (IsReferred (collect_refs s.args)) (spec_name m)
    found m f =
        let p : OnSpec (IsReferred (collect_refs s.args)) (build_middleware s) =
          build_middleware-OnSpec s in
        rw f at p

-- What the loop over the arguments of `proxy` finds, from what it found before.
proxy_args-OnName :
    (args : List Arg) (P : Str → Type 0) (found : Option Str × Option Str)
    → OnName P found.0
    → ((n : Str) → IsReferred (collect_refs args) n → P n)
    → OnName P (fold (λ a. proxy_arg (value_of a)) args found).0
proxy_args-OnName [] P found p ok = p
proxy_args-OnName (a ∷ args) P (upstream, target) p ok =
    proxy_args-OnName args P (proxy_arg (value_of a) (upstream, target))
      (by_value (value_of a) refl upstream p)
      (λ n m. ok n (IsReferred-right (collect_refs_value (value_of a) (value_span a)) _ n m))
  where
    by_value :
        (v : Value)
        → value_of a ≡ v
        → (o : Option Str) → OnName P o
        → OnName P (proxy_arg (value_of a) (o, target)).0
    by_value (ref n) at none q =
        rw at (ok n (rw at (record { name = n; span = value_span a }, here refl, refl)))
    by_value (ref n) at (some m) q = rw at q
    by_value (Value.str t) at o q = rw at q
    by_value v at o q = rw at q

build_handler-OnName :
    (s : Step) → OnName (IsReferred (collect_refs s.args)) (handler_name (some (build_handler s)))
unfolding build_handler
build_handler-OnName s = elim (Bool-cases (str_eq s.name.node (bytes "files"))) [
  | inl e ↦ rw (build_handler, e) tt
  | inr e ↦ elim (Bool-cases (str_eq s.name.node (bytes "respond"))) [
    | inl f ↦ rw (build_handler, e, f) tt
    | inr f ↦ elim (Bool-cases (str_eq s.name.node (bytes "redirect"))) [
      | inl g ↦ rw (build_handler, e, f, g) tt
      | inr g ↦ elim (Bool-cases (str_eq s.name.node (bytes "proxy"))) [
        | inl k ↦
            rw (build_handler, e, f, g, k) (proxy_args-OnName s.args _ (none, none) tt (λ n m. m))
        | inr k ↦ rw (build_handler, e, f, g, k) tt
      ]
    ]
  ]
]

step_at-OnName :
    (i : ℕ) (ss : List Step)
    → OnName (IsReferred (refs_of ss)) (handler_name (handler_at (some i) ss))
step_at-OnName i [] = tt
step_at-OnName zero (s ∷ ss) =
    OnName-map (IsReferred-left (collect_refs s.args) (refs_of ss)) _ (build_handler-OnName s)
step_at-OnName (suc i) (s ∷ ss) =
    OnName-map (IsReferred-right (collect_refs s.args) (refs_of ss)) _ (step_at-OnName i ss)

handler_at-OnName :
    (t : Option ℕ) (ss : List Step)
    → OnName (IsReferred (refs_of ss)) (handler_name (handler_at t ss))
handler_at-OnName none ss = tt
handler_at-OnName (some i) ss = step_at-OnName i ss

-- The names that a route goes by are all among the references that are collected for it.
pub lower_route-NamesAre :
    (r : Route) → NamesAre (IsReferred (lower_route r).0.refs) (lower_route r).0
unfolding lower_route
lower_route-NamesAre r =
    let found = (terminal_of r (indexed is_handler 0 r.steps)).0 in
    record { specs = specs_of-OnName found 0 r.steps; handler = handler_at-OnName found r.steps }
