-- ===== src/Proxy/Targets.antt =====
-- How the targets and the policy of a pool are written.
use pulsate.Prelude.{
  ℕ, ◌≡◌, ◌≢◌, inl, inr, refl, sym, ◌∙◌, ap, false, List, [], ◌∷◌, ◌++◌, Str, str_eq, str_eq_iff,
  bytes, reverse, map, none, max, All, ◌==◌, string_eq, arith, Bool-cases,
}
use mathlib.Core.List.{reverse_aux, reverse-append, reverse-reverse}
use pulsate.Proxy.{
  Policy, round_robin, least_conn, random, ip_hash, parse, Backend, drop_slashes, backend_of, new,
  RetryPolicy, BreakerPolicy,
}

-- The word for a policy; every other word stands for round robin.
pub IsWordFor : Str → Policy → Type 0
IsWordFor s least_conn = s ≡ bytes "least_conn"
IsWordFor s random = s ≡ bytes "random"
IsWordFor s ip_hash = s ≡ bytes "ip_hash"
IsWordFor s round_robin = (s ≢ bytes "least_conn") × (s ≢ bytes "random") × (s ≢ bytes "ip_hash")

pub parse-IsWordFor : (s : Str) → IsWordFor s (parse s)
unfolding parse IsWordFor
parse-IsWordFor s = elim (Bool-cases (str_eq s (bytes "least_conn"))) [
  | inl e ↦ rw (parse, e) ((str_eq_iff s (bytes "least_conn")).0 e)
  | inr e ↦ elim (Bool-cases (str_eq s (bytes "random"))) [
    | inl f ↦ rw (parse, e, f) ((str_eq_iff s (bytes "random")).0 f)
    | inr f ↦ elim (Bool-cases (str_eq s (bytes "ip_hash"))) [
      | inl g ↦ rw (parse, e, f, g) ((str_eq_iff s (bytes "ip_hash")).0 g)
      | inr g ↦
          rw (parse, e, f, g)
            (
              ground (arith, str_eq_iff s (bytes "least_conn")),
              ground (arith, str_eq_iff s (bytes "random")),
              ground (arith, str_eq_iff s (bytes "ip_hash")),
            )
    ]
  ]
]

-- The text is the address, which ends in no slash, with slashes behind it.
pub record IsAddress (text url : Str) : Type 0 where
  pub slashes : Str
  pub are_slashes : All (λ c. c ≡ b'/') slashes
  pub split : text ≡ url ++ slashes
  pub bare : (s : Str) → url ≢ s ++ (b'/' ∷ [])

All-reverse_aux : (P : ℕ → Type 0) (s t : Str) → All P s → All P t → All P (reverse_aux s t)
All-reverse_aux P [] t p q = q
All-reverse_aux P (c ∷ s) t (p, ps) q = All-reverse_aux P s (c ∷ t) ps (p, q)

drop_slashes_lem :
    (s : Str)
    → (front : Str) × All (λ c. c ≡ b'/') front
      × (s ≡ front ++ drop_slashes s)
      × ((t : Str) → drop_slashes s ≢ b'/' ∷ t)
unfolding drop_slashes
drop_slashes_lem [] = ([], tt, refl, λ t h. cc)
drop_slashes_lem (c ∷ s) = elim (Bool-cases (c == b'/')) [
  | inl e ↦
      let (front, all, same, no_more) = drop_slashes_lem s in
      (
        c ∷ front,
        (ground arith, all),
        rw (drop_slashes, e) (ap (λ t. c ∷ t) same),
        rw (drop_slashes, e) no_more,
      )
  | inr e ↦ ([], tt, rw (drop_slashes, e) refl, λ t h. other e (rw (drop_slashes, e) at h))
]
  where
    other : {t : Str} → c == b'/' ≡ false → c ∷ s ≡ b'/' ∷ t → ⊥
    other e h = ground arith

trimmed-IsAddress : (text : Str) → IsAddress text (reverse (drop_slashes (reverse text)))
trimmed-IsAddress text =
    let (front, all, same, bare) = drop_slashes_lem (reverse text) in
    record {
      slashes = reverse front;
      are_slashes = All-reverse_aux (λ c. c ≡ b'/') front [] all tt;
      split =
          sym (reverse-reverse text)
          ∙ ap reverse same
          ∙ reverse-append front (drop_slashes (reverse text));
      bare = λ s h. bare (reverse s) (
          sym (reverse-reverse (drop_slashes (reverse text)))
          ∙ ap reverse h
          ∙ reverse-append s (b'/' ∷ []));
    }

-- A target that is set up from an address and a weight, and has had no request.
pub record IsSetUp (target : Str × ℕ) (b : Backend) : Type 0 where
  pub address : IsAddress target.0 b.url
  pub weight : b.weight ≡ max target.1 1
  pub idle : b.state.inflight ≡ 0
  pub failures : b.state.consecutive_failures ≡ 0
  pub in_rotation : b.state.ejected_until ≡ none

-- Each target is set up as one of a pool, in their order.
unfoldable pub AreSetUp : List (Str × ℕ) → List Backend → Type 0
AreSetUp [] [] = Unit {0}
AreSetUp (t ∷ ts) (b ∷ bs) = IsSetUp t b × AreSetUp ts bs
AreSetUp ts bs = ⊥

pub backends-AreSetUp : (ts : List (Str × ℕ)) → AreSetUp ts (map backend_of ts)
unfolding AreSetUp backend_of
backends-AreSetUp [] = tt
backends-AreSetUp ((text, weight) ∷ ts) = (
  record {
    address = trimmed-IsAddress text;
    weight = refl;
    idle = refl;
    failures = refl;
    in_rotation = refl;
  },
  backends-AreSetUp ts,
)

pub new-AreSetUp :
    (name : Str) (ts : List (Str × ℕ)) (p : Policy) (retry : RetryPolicy) (breaker : BreakerPolicy)
    → AreSetUp ts (new name ts p retry breaker).backends
unfolding new
new-AreSetUp name ts p retry breaker = backends-AreSetUp ts
