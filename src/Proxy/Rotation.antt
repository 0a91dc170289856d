-- ===== src/Proxy/Rotation.antt =====
-- Round robin: how the choice goes on from pick to pick.
use pulsate.Prelude.{
  ℕ, zero, suc, ◌+◌, ◌-◌, ◌%◌, ◌^◌, ◌≤◌, ◌<◌, ◌≡◌, refl, sym, ap, ◌∙◌, Option, some, List, [], ◌∷◌,
  length, get_or, In, here, there, not-In-nil, arith, subst,
}
use native.Mathlib.Decide.{dec_le}
use native.Mathlib.Nat.{mod-lt, mod-eq_of_lt, mod-add-mod, add-mod_right}
use pulsate.Net.{IpAddr}
use pulsate.Proxy.{round_robin, Upstream, eligible_from, choose, pick}
use pulsate.Proxy.Pick.{IsEligible, eligible_complete}

-- Where an element stands.
In-index {ℓ} :
    {A : Type ℓ} {a : A} (d : A) (xs : List A)
    → In a xs
    → (p : ℕ) × (p < length xs) × (get_or xs p d ≡ a)
In-index d [] m = absurd (not-In-nil m)
In-index d (x ∷ xs) (here e) = (0, omega arith, sym e)
In-index d (x ∷ xs) (there m) = let (p, h, e) = In-index d xs m in (suc p, omega arith, e)

module _ (hash : Option IpAddr → ℕ) where
  -- The targets of `n` picks in a row, at one time and with no other call between them.
  unfoldable pub picks : Upstream → Option IpAddr → ℕ → ℕ → List (Option ℕ)
  picks u client now zero = []
  picks u client now (suc n) =
      (pick hash u client now).0 ∷ picks (pick hash u client now).1 client now n

  module _ (client : Option IpAddr) (now e : ℕ) (es : List ℕ) where
    abbrev slot : ℕ → ℕ
    slot n = get_or (e ∷ es) (n % length (e ∷ es)) e

    pick_round_robin :
        (u : Upstream)
        → u.policy ≡ round_robin
        → eligible_from 0 u.backends now ≡ e ∷ es
        → pick hash u client now ≡ (some (slot u.rr), record u { rr = (u.rr + 1) % 2 ^ 64 })
    unfolding pick choose
    pick_round_robin u p h = ground arith

    picks-In :
        (n : ℕ) (u : Upstream) (j : ℕ)
        → u.policy ≡ round_robin
        → eligible_from 0 u.backends now ≡ e ∷ es
        → u.rr + n ≤ 2 ^ 64 - 1
        → j < n
        → In (some (slot (u.rr + j))) (picks u client now n)
    unfolding picks
    picks-In zero u j p h w l = absurd (omega arith)
    picks-In (suc n) u zero p h w l =
        let now_rr : u.rr + 0 ≡ u.rr = omega arith in
        rw (now_rr, pick_round_robin u p h) (here refl)
    picks-In (suc n) u (suc j) p h w l =
        let no_wrap : (u.rr + 1) % 2 ^ 64 ≡ u.rr + 1 = omega arith in
        let assoc : u.rr + 1 + j ≡ u.rr + suc j = omega arith in
        rw (pick_round_robin u p h, no_wrap)
          (there (
            rw (← assoc)
              (picks-In n (record u { rr = u.rr + 1 }) j p h (omega arith) (omega arith))))

-- Some number of steps from `r` leads to the remainder `p`.
steps_to : (r n p : ℕ) → p < n → (j : ℕ) × (j < n) × ((r + j) % n ≡ p)
steps_to r n p h = elim (dec_le (r % n) p) [
  | yes below ↦ (
    p - r % n,
    omega arith,
    sym (mod-add-mod r n (p - r % n)) ∙ ap (λ t. t % n) (omega arith) ∙ mod-eq_of_lt h,
  )
  | no above ↦
      let less : r % n < n = mod-lt r (omega arith) in
      let round : r % n + (p + n - r % n) ≡ p + n = omega arith in
      (
        p + n - r % n,
        omega arith,
        sym (mod-add-mod r n (p + n - r % n))
            ∙ ap (λ t. t % n) round
            ∙ add-mod_right p n
            ∙ mod-eq_of_lt h,
      )
]

-- Under round robin every eligible target, whatever its weight, is chosen within as many picks in a
-- row as there are eligible targets, if the counter does not reach its 64-bit limit in them.
pub round_robin_serves_all :
    (hash : Option IpAddr → ℕ) (u : Upstream) (client : Option IpAddr) (now i : ℕ)
    → u.policy ≡ round_robin
    → IsEligible u.backends now i
    → u.rr + length (eligible_from 0 u.backends now) ≤ 2 ^ 64 - 1
    → In (some i) (picks hash u client now (length (eligible_from 0 u.backends now)))
round_robin_serves_all hash u client now i p ok room = from (eligible_from 0 u.backends now) refl
  where
    here_is : In (0 + i) (eligible_from 0 u.backends now)
    here_is = eligible_complete 0 u.backends now i ok

    from :
        (es : List ℕ)
        → eligible_from 0 u.backends now ≡ es
        → In (some i) (picks hash u client now (length (eligible_from 0 u.backends now)))
    from [] e = absurd (not-In-nil (subst (In (0 + i)) e here_is))
    from (x ∷ xs) e =
        let (q, q_lt, at_q) = In-index x (x ∷ xs) (subst (In (0 + i)) e here_is) in
        let (j, j_lt, lands) = steps_to u.rr (length (x ∷ xs)) q q_lt in
        let zero_left : 0 + i ≡ i = omega arith in
        let found : slot hash client now x xs (u.rr + j) ≡ i =
          ap (λ t. get_or (x ∷ xs) t x) lands ∙ at_q ∙ zero_left in
        let size : length (eligible_from 0 u.backends now) ≡ length (x ∷ xs) = ap length e in
        rw size (
          subst (λ t. In (some t) (picks hash u client now (length (x ∷ xs)))) found
            (picks-In hash client now x xs (length (x ∷ xs)) u j p e (rw size at room) j_lt))
