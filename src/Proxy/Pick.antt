-- ===== src/Proxy/Pick.antt =====
-- `Upstream::pick`: the targets that may be chosen, and which one is.
use pulsate.Prelude.{
  ℕ, zero, suc, ◌+◌, ◌*◌, ◌%◌, ◌^◌, ◌≤◌, ◌<◌, ◌≡◌, ◌⊎◌, inl, inr, refl, false, Option, none, some,
  List, [], ◌∷◌, length, get_elem?, get_or, All, All-In, In, here, there, not-In-nil, In-skip,
  if◌then◌else◌, arith, Bool-cases, ltb, subst,
}
use pulsate.Net.{IpAddr}
use pulsate.Proxy.{
  Policy, round_robin, least_conn, random, ip_hash, Backend, Upstream, is_ejected, eligible_from,
  inflight_at, least_from, choose, pick,
}

-- Target `i` is there and is not ejected at the time.
abbrev pub IsEligible : List Backend → ℕ → ℕ → Type 0
IsEligible bs now i = (b : Backend) × (get_elem? bs i ≡ some b) × (is_ejected b now ≡ false)

get_or-In {ℓ} :
    {A : Type ℓ} (x : A) (xs : List A) (i : ℕ) (d : A)
    → i < length (x ∷ xs)
    → In (get_or (x ∷ xs) i d) (x ∷ xs)
get_or-In x xs zero d h = here refl
get_or-In x [] (suc i) d h = absurd (omega arith)
get_or-In x (y ∷ xs) (suc i) d h = there (get_or-In y xs i d (omega arith))

-- The list of eligible indices, from index `i` on.
IsEligible-sound :
    (i : ℕ) (bs : List Backend) (now j : ℕ)
    → In j (eligible_from i bs now)
    → (k : ℕ) × (j ≡ i + k) × IsEligible bs now k
unfolding eligible_from
IsEligible-sound i [] now j m = elim m [ ]
IsEligible-sound i (b ∷ bs) now j m = elim (Bool-cases (is_ejected b now)) [
  | inl out ↦
      let (k, e, h) = IsEligible-sound (suc i) bs now j (rw (out, eligible_from) at m) in
      (suc k, omega arith, h)
  | inr fit ↦ later (rw (fit, eligible_from) at m) fit (IsEligible-sound (suc i) bs now j)
]
  where
    later :
        In j (i ∷ eligible_from (suc i) bs now)
        → is_ejected b now ≡ false
        → (In j (eligible_from (suc i) bs now) → (k : ℕ) × (j ≡ suc i + k) × IsEligible bs now k)
        → (k : ℕ) × (j ≡ i + k) × IsEligible (b ∷ bs) now k
    later (here e) fit ih = (0, omega arith, (b, refl, fit))
    later (there m) fit ih = let (k, e, h) = ih m in (suc k, omega arith, h)

pub eligible_complete :
    (i : ℕ) (bs : List Backend) (now k : ℕ)
    → IsEligible bs now k
    → In (i + k) (eligible_from i bs now)
unfolding eligible_from
eligible_complete i [] now k (b, e, h) = cc
eligible_complete i (c ∷ bs) now zero (b, e, h) =
    let fit : is_ejected c now ≡ false = ground arith in
    rw (fit, eligible_from) (here (omega arith))
eligible_complete i (c ∷ bs) now (suc k) (b, e, h) =
    let m : In (suc i + k) (eligible_from (suc i) bs now) =
      eligible_complete (suc i) bs now k (b, e, h) in
    let same : suc i + k ≡ i + suc k = omega arith in
    let m' : In (i + suc k) (eligible_from (suc i) bs now) =
      subst (λ n. In n (eligible_from (suc i) bs now)) same m in
    elim (Bool-cases (is_ejected c now)) [
      | inl out ↦ rw (out, eligible_from) m'
      | inr fit ↦ rw (fit, eligible_from) (there m')
    ]

least_from-In : (bs : List Backend) (i : ℕ) (js : List ℕ) → In (least_from bs i js) (i ∷ js)
unfolding least_from
least_from-In bs i [] = here refl
least_from-In bs i (j ∷ js) = elim (Bool-cases (ltb (inflight_at bs j) (inflight_at bs i))) [
  | inl less ↦ rw less (there (least_from-In bs j js))
  | inr more ↦ rw more (In-skip (least_from-In bs i js))
]

least_from-le :
    (bs : List Backend) (i : ℕ) (js : List ℕ)
    → All (λ j. inflight_at bs (least_from bs i js) ≤ inflight_at bs j) (i ∷ js)
unfolding least_from
least_from-le bs i [] = (omega arith, tt)
least_from-le bs i (j ∷ js) =
    let (h, hs) =
      least_from-le bs (if ltb (inflight_at bs j) (inflight_at bs i) then j else i) js in
    (ground arith, (ground arith, hs))

choose-In : (u : Upstream) (h e : ℕ) (es : List ℕ) → In (choose u h e es).0 (e ∷ es)
unfolding choose
choose-In u h e es = by_policy u.policy refl
  where
    at : (n : ℕ) → In (get_or (e ∷ es) (n % length (e ∷ es)) e) (e ∷ es)
    at n = get_or-In e es (n % length (e ∷ es)) e (grind arith)

    by_policy : (p : Policy) → u.policy ≡ p → In (choose u h e es).0 (e ∷ es)
    by_policy round_robin q = rw (q, choose) (at u.rr)
    by_policy least_conn q = rw (q, choose) (least_from-In u.backends e es)
    by_policy random q = rw (q, choose) (at ((u.rr * 2_654_435_761) % 2 ^ 64))
    by_policy ip_hash q = rw (q, choose) (at h)

module _ (hash : Option IpAddr → ℕ) where
  -- A choice is made wherever a target is eligible, and it is an eligible one: `pick` finds none
  -- exactly where every target is ejected. It changes nothing but the round-robin counter.
  pick_cases :
      (u : Upstream) (client : Option IpAddr) (now : ℕ) (es : List ℕ)
      → eligible_from 0 u.backends now ≡ es
      → (((pick hash u client now).0 ≡ none) × (es ≡ []))
        ⊎ ((i : ℕ) × ((pick hash u client now).0 ≡ some i) × In i es)
  unfolding pick
  pick_cases u client now [] h = inl (rw (h, pick) refl, refl)
  pick_cases u client now (e ∷ es) h =
      inr ((choose u (hash client) e es).0, rw (h, pick) refl, choose-In u (hash client) e es)

  -- `pick` finds no target exactly where each one is ejected; otherwise it finds a target that is
  -- there and not ejected.
  pub pick_lem :
      (u : Upstream) (client : Option IpAddr) (now : ℕ)
      → (((pick hash u client now).0 ≡ none) × ((i : ℕ) → ¬ IsEligible u.backends now i))
        ⊎ ((i : ℕ) × ((pick hash u client now).0 ≡ some i) × IsEligible u.backends now i)
  pick_lem u client now = elim (pick_cases u client now (eligible_from 0 u.backends now) refl) [
    | inl (e, none_left) ↦ inl (
      e,
      λ i ok. not-In-nil (subst (In (0 + i)) none_left (eligible_complete 0 u.backends now i ok)),
    )
    | inr (i, e, m) ↦
        let (k, same, ok) = IsEligible-sound 0 u.backends now i m in
        let k_is_i : k ≡ i = omega arith in inr (i, e, subst (IsEligible u.backends now) k_is_i ok)
  ]

  -- Under `least_conn` no eligible target has fewer requests in flight than the chosen one.
  pub pick_least_conn :
      (u : Upstream) (client : Option IpAddr) (now i j : ℕ)
      → u.policy ≡ least_conn
      → (pick hash u client now).0 ≡ some i
      → IsEligible u.backends now j
      → inflight_at u.backends i ≤ inflight_at u.backends j
  unfolding pick choose
  pick_least_conn u client now i j p h ok = from (eligible_from 0 u.backends now) refl
    where
      from :
          (es : List ℕ)
          → eligible_from 0 u.backends now ≡ es
          → inflight_at u.backends i ≤ inflight_at u.backends j
      from [] e =
          absurd (not-In-nil (subst (In (0 + j)) e (eligible_complete 0 u.backends now j ok)))
      from (x ∷ xs) e =
          let least : (pick hash u client now).0 ≡ some (least_from u.backends x xs) =
            rw (e, pick, p, choose) refl in
          let same : least_from u.backends x xs ≡ i = cc in
          let zero_left : 0 + j ≡ j = omega arith in
          let m : In j (x ∷ xs) =
            subst (λ k. In k (x ∷ xs)) zero_left
              (subst (In (0 + j)) e (eligible_complete 0 u.backends now j ok)) in
          rw (← same) (All-In _ (least_from-le u.backends x xs) m)
