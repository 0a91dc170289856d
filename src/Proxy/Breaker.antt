-- ===== src/Proxy/Breaker.antt =====
-- `record_failure` and `record_success`: the passive breaker of one target.
use pulsate.Prelude.{
  ℕ, zero, suc, ◌+◌, ◌-◌, ◌%◌, ◌^◌, ◌≤◌, ◌<◌, ◌≡◌, ◌≢◌, inl, inr, refl, sym, ap, ◌∙◌, Option, none,
  some, List, [], ◌∷◌, length, get_elem?, get_elem?-set_self, get_elem?-set_ne, arith, Option-cases,
}
use pulsate.Net.{IpAddr}
use pulsate.Proxy.{
  BreakerPolicy, TargetState, Backend, Upstream, on_target, succeed, fail, record_success,
  record_failure, inflight_inc, inflight_dec, pick,
}
use pulsate.Proxy.Pick.{IsEligible, pick_lem}

get_elem?-lt {ℓ} :
    {A : Type ℓ} (xs : List A) (i : ℕ) (a : A) → get_elem? xs i ≡ some a → i < length xs
get_elem?-lt [] i a h = cc
get_elem?-lt (x ∷ xs) zero a h = omega arith
get_elem?-lt (x ∷ xs) (suc i) a h = omega (arith, get_elem?-lt xs i a h)

on_target_self :
    (f : TargetState → TargetState) (i : ℕ) (u : Upstream) (b : Backend)
    → get_elem? u.backends i ≡ some b
    → get_elem? (on_target f i u).backends i ≡ some (record b { state = f b.state })
on_target_self f i u b h =
    rw (h, on_target)
      (get_elem?-set_self u.backends i (record b { state = f b.state })
        (get_elem?-lt u.backends i b h))

on_target_ne :
    (f : TargetState → TargetState) (i j : ℕ) (u : Upstream)
    → i ≢ j
    → get_elem? (on_target f i u).backends j ≡ get_elem? u.backends j
on_target_ne f i j u n = elim (Option-cases (get_elem? u.backends i)) [
  | inl e ↦ rw (e, on_target) refl
  | inr (b, e) ↦ rw (e, on_target) (get_elem?-set_ne u.backends i j _ n)
]

on_target_breaker :
    (f : TargetState → TargetState) (i : ℕ) (u : Upstream) → (on_target f i u).breaker ≡ u.breaker
on_target_breaker f i u = ground arith

-- Failures of target `i` at the times of a list, with no success of it between them.
unfoldable pub fail_all : ℕ → List ℕ → Upstream → Upstream
fail_all i [] u = u
fail_all i (now ∷ times) u = fail_all i times (record_failure i now u)

fail_low :
    (p : BreakerPolicy) (now n : ℕ) (t : TargetState)
    → t.consecutive_failures ≡ n
    → n + 1 < p.threshold
    → p.threshold < 2 ^ 32
    → fail p now t ≡ record t { consecutive_failures = n + 1 }
fail_low p now n t e l w =
    let one : (t.consecutive_failures + 1) % 2 ^ 32 ≡ n + 1 = omega arith in ground arith

fail_high :
    (p : BreakerPolicy) (now n : ℕ) (t : TargetState)
    → t.consecutive_failures ≡ n
    → n + 1 ≡ p.threshold
    → p.threshold < 2 ^ 32
    → fail p now t ≡ record t { consecutive_failures = 0; ejected_until = some (now + p.open_for) }
fail_high p now n t e l w =
    let one : (t.consecutive_failures + 1) % 2 ^ 32 ≡ n + 1 = omega arith in ground arith

-- Target `i` is `b` with the given state.
abbrev pub TargetIs : Upstream → ℕ → Backend → TargetState → Type 0
TargetIs u i b t = get_elem? u.backends i ≡ some (record b { state = t })

module _ (i : ℕ) (b : Backend) where
  -- Below the threshold failures are counted and nothing else happens.
  fail_all_below :
      (times : List ℕ) (u : Upstream) (n : ℕ)
      → TargetIs u i b (record b.state { consecutive_failures = n })
      → n + length times < u.breaker.threshold
      → u.breaker.threshold < 2 ^ 32
      → TargetIs
          (fail_all i times u)
          i
          b
          (record b.state { consecutive_failures = n + length times })
        × ((fail_all i times u).breaker ≡ u.breaker)
  unfolding fail_all record_failure
  fail_all_below [] u n h l w = let same : n + 0 ≡ n = omega arith in (rw same h, refl)
  fail_all_below (now ∷ times) u n h l w =
      let next = on_target (fail u.breaker now) i u in
      let kept : next.breaker ≡ u.breaker = on_target_breaker (fail u.breaker now) i u in
      let counted : TargetIs next i b (record b.state { consecutive_failures = n + 1 }) =
        on_target_self (fail u.breaker now) i u _ h
        ∙ ap (λ t. some (record b { state = t }))
            (fail_low u.breaker now n (record b.state { consecutive_failures = n }) refl
              (omega arith) w) in
      let (ih, same) =
        fail_all_below times next (n + 1) counted (rw kept (omega arith)) (rw kept w) in
      let sum : n + 1 + length times ≡ n + suc (length times) = omega arith in
      (rw (← sum) ih, same ∙ kept)

  -- A target with a clean record stays as it is, but for its count, through fewer failures in a row
  -- than the threshold; the failure that reaches the threshold, at the time `now`, ejects it for
  -- the configured time and clears the count.
  pub breaker_trips :
      (times : List ℕ) (now : ℕ) (u : Upstream)
      → TargetIs u i b (record b.state { consecutive_failures = 0 })
      → length times + 1 ≡ u.breaker.threshold
      → u.breaker.threshold < 2 ^ 32
      → TargetIs (fail_all i times u) i b (record b.state { consecutive_failures = length times })
        × TargetIs (record_failure i now (fail_all i times u)) i b (record b.state {
          consecutive_failures = 0;
          ejected_until = some (now + u.breaker.open_for);
        })
  unfolding record_failure
  breaker_trips times now u h l w =
      let (counted, same) = fail_all_below times u 0 h (omega arith) w in
      let before : TargetIs (fail_all i times u) i b
          (record b.state { consecutive_failures = length times }) =
        let zero_left : 0 + length times ≡ length times = omega arith in rw zero_left at counted in
      (
        before,
        on_target_self (fail (fail_all i times u).breaker now) i (fail_all i times u) _ before
            ∙ rw same (
                ap (λ t. some (record b { state = t }))
                  (fail_high u.breaker now (length times)
                    (record b.state { consecutive_failures = length times }) refl l w)),
      )

  -- An ejected target is not picked before its time is over.
  pub pick_waits :
      (hash : Option IpAddr → ℕ) (u : Upstream) (client : Option IpAddr) (now until : ℕ)
      (t : TargetState)
      → TargetIs u i b t
      → t.ejected_until ≡ some until
      → (pick hash u client now).0 ≡ some i
      → until ≤ now
  pick_waits hash u client now until t h e picked = elim (pick_lem hash u client now) [
    | inl (f, _) ↦ absurd (none_some (sym f ∙ picked))
    | inr (j, f, (c, at_j, fit)) ↦
        let same : j ≡ i = cc in let this : c ≡ record b { state = t } = cc in ground arith
  ]
    where
      none_some : none ≡ some i → ⊥
      none_some x = cc

  -- A success clears the count and the ejection of its target, which may be picked at once, and
  -- leaves every other target `j` as it is.
  pub record_success_lem :
      (u : Upstream) (now j : ℕ)
      → get_elem? u.backends i ≡ some b
      → i ≢ j
      → TargetIs
          (record_success i u)
          i
          b
          (record b.state { consecutive_failures = 0; ejected_until = none })
        × IsEligible (record_success i u).backends now i
        × (get_elem? (record_success i u).backends j ≡ get_elem? u.backends j)
  unfolding record_success
  record_success_lem u now j h n =
      let cleared = on_target_self succeed i u b h in
      (cleared, (record b { state = succeed b.state }, cleared, refl), on_target_ne succeed i j u n)

  -- A request that began and ended at a target leaves the target as it was.
  pub inflight_dec-inc :
      (u : Upstream)
      → get_elem? u.backends i ≡ some b
      → b.state.inflight < 2 ^ 64
      → get_elem? (inflight_dec i (inflight_inc i u)).backends i ≡ some b
  unfolding inflight_inc inflight_dec
  inflight_dec-inc u h l =
      on_target_self _ i _ _ (on_target_self _ i u b h)
      ∙ (let back : ((b.state.inflight + 1) % 2 ^ 64 + 2 ^ 64 - 1) % 2 ^ 64 ≡ b.state.inflight =
            omega arith in
          ground arith)
