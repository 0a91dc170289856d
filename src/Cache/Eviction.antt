-- ===== src/Cache/Eviction.antt =====
-- crates/pulsate-cache/src/lib.rs, `evict_until_fits`: which entry a round removes, and when the
-- loop ends.
use pulsate.Prelude.{
  ℕ, suc, ◌+◌, ◌-◌, ◌≤◌, ◌<◌, ◌≡◌, refl, inl, inr, none, some, [], ◌∷◌, length, Str, string_eq, Map,
  get, remove, Distinct, arith, ltb, All, length-remove, get_of_In, In, here, there, In-skip,
  Option-cases, Bool-cases, subst,
}
use pulsate.Cache.Store.{Entry, Inner, size, len, remove_entry}
use pulsate.Cache.Layer.{oldest, oldest_from, older, evict_loop}

-- `p` was stored no later than `q`.
abbrev pub NotAfter : Str × Entry → Str × Entry → Type 0
NotAfter p q = (p.1).stored_at ≤ (q.1).stored_at

oldest_from-In : (p : Str × Entry) (m : Map Str Entry) → In (oldest_from p m) (p ∷ m)
unfolding oldest_from
oldest_from-In p [] = here refl
oldest_from-In p (q ∷ m) = elim (Bool-cases (ltb (q.1).stored_at (p.1).stored_at)) [
  | inl later ↦ rw later (there (oldest_from-In q m))
  | inr first ↦ rw first (In-skip (oldest_from-In p m))
]

oldest_from-NotAfter :
    (p : Str × Entry) (m : Map Str Entry)
    → NotAfter (oldest_from p m) p × All (NotAfter (oldest_from p m)) m
unfolding oldest_from
oldest_from-NotAfter p [] = (omega arith, tt)
oldest_from-NotAfter p (q ∷ m) =
    let (h, hs) = oldest_from-NotAfter (older p q) m in (ground arith, (ground arith, hs))

pub oldest-In : (m : Map Str Entry) {p : Str × Entry} → oldest m ≡ some p → In p m
unfolding oldest
oldest-In [] h = cc
oldest-In (q ∷ m) {p} h =
    let e : oldest_from q m ≡ p = ground arith in subst (λ r. In r (q ∷ m)) e (oldest_from-In q m)

pub oldest-NotAfter : (m : Map Str Entry) {p : Str × Entry} → oldest m ≡ some p → All (NotAfter p) m
unfolding oldest
oldest-NotAfter [] h = tt
oldest-NotAfter (q ∷ m) {p} h =
    let e : oldest_from q m ≡ p = ground arith in
    subst (λ r. All (NotAfter r) (q ∷ m)) e (oldest_from-NotAfter q m)

pub oldest-none : (m : Map Str Entry) → oldest m ≡ none → m ≡ []
unfolding oldest
oldest-none [] h = refl
oldest-none (q ∷ m) h = cc

-- A round finds the entry that it removes.
pub evict_round :
    (i : Inner) (p : Str × Entry)
    → Distinct i.map
    → oldest i.map ≡ some p
    → (remove_entry p.0 i
        ≡ (some p.1, record { map = remove p.0 i.map; bytes = i.bytes - size p.1 }))
      × (length (remove p.0 i.map) + 1 ≡ len i)
unfolding remove_entry
evict_round i p d h = (rw (found, remove_entry) refl, length-remove p.0 p.1 i.map d found)
  where
    found : get p.0 i.map ≡ some p.1
    found = get_of_In p.0 p.1 i.map d (oldest-In i.map h)

-- How the loop may go on from a store: it stops, or removes the oldest entry and goes on.
pub evict_loop_cases {ℓ} :
    (P : Inner → Type ℓ) (n : ℕ) (i : Inner) (incoming budget : ℕ)
    → Distinct i.map
    → (i.bytes + incoming ≤ budget → P i)
    → (i.map ≡ [] → P i)
    → ((p : Str × Entry)
        → oldest i.map ≡ some p
        → budget < i.bytes + incoming
        → P (
            evict_loop n
              (record { map = remove p.0 i.map; bytes = i.bytes - size p.1 })
              incoming
              budget))
    → P (evict_loop (suc n) i incoming budget)
unfolding evict_loop
evict_loop_cases P n i incoming budget d fits gone next =
    elim (Bool-cases (ltb budget (i.bytes + incoming))) [
      | inr small ↦ rw (small, evict_loop) (fits (ground arith))
      | inl big ↦ elim (Option-cases (oldest i.map)) [
        | inl e ↦ rw (big, e, evict_loop) (gone (oldest-none i.map e))
        | inr (p, e) ↦ rw (big, e, (evict_round i p d e).0, evict_loop) (next p e (ground arith))
      ]
    ]
