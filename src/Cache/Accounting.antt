-- ===== src/Cache/Accounting.antt =====
-- The byte total of the store against its entries, through every part of the eviction loop.
use pulsate.Prelude.{
  ℕ, zero, suc, ◌+◌, ◌-◌, ◌≤◌, ◌≡◌, refl, ◌⊎◌, inl, inr, true, false, none, some, [], Str,
  string_eq, get, remove, total, Distinct, arith, remove-Distinct, total-remove, length-remove,
  length-remove-le, get-remove, get_of_In, In, Option-cases, Bool-cases, In-remove, In-remove_ne,
  In-unique, All, All-of_In, All-In, ◌=?◌,
}
use pulsate.Cache.Store.{Entry, Inner, size, len, remove_entry}
use pulsate.Cache.Layer.{oldest, evict_loop}
use pulsate.Cache.Eviction.{NotAfter, oldest-In, oldest-NotAfter, evict_loop_cases}

-- One entry for each key, and `bytes` is the sum of the body sizes.
pub record IsAccounted (inner : Inner) : Type 0 where
  pub distinct : Distinct inner.map
  pub counted : inner.bytes ≡ total size inner.map

pub removed-IsAccounted :
    (k : Str) (e : Entry) (i : Inner)
    → get k i.map ≡ some e
    → IsAccounted i
    → IsAccounted (record { map = remove k i.map; bytes = i.bytes - size e })
removed-IsAccounted k e i h v = record {
  distinct = remove-Distinct k i.map v.distinct;
  counted = omega (arith, total-remove size k e i.map v.distinct h, v.counted);
}

pub remove_entry-IsAccounted :
    (key : Str) (i : Inner) → IsAccounted i → IsAccounted (remove_entry key i).1
unfolding remove_entry
remove_entry-IsAccounted key i v = elim (Option-cases (get key i.map)) [
  | inl e ↦ rw (e, remove_entry) v
  | inr (x, e) ↦ rw (e, remove_entry) (removed-IsAccounted key x i e v)
]

pub remove_entry-le :
    (key : Str) (i : Inner)
    → (len (remove_entry key i).1 ≤ len i) × ((remove_entry key i).1.bytes ≤ i.bytes)
unfolding remove_entry
remove_entry-le key i = ground (arith, length-remove-le key i.map)

-- The key is gone.
pub get-remove_entry : (key : Str) (i : Inner) → get key (remove_entry key i).1.map ≡ none
unfolding remove_entry
get-remove_entry key i = ground (arith, get-remove key key i.map, string_eq.beq_iff key key)

module _ (incoming budget : ℕ) where
  pub evict_loop-IsAccounted :
      (n : ℕ) (i : Inner) → IsAccounted i → IsAccounted (evict_loop n i incoming budget)
  unfolding evict_loop
  evict_loop-IsAccounted zero i v = v
  evict_loop-IsAccounted (suc n) i v =
      evict_loop_cases IsAccounted n i incoming budget v.distinct (λ _. v) (λ _. v)
        λ p e _.
          evict_loop-IsAccounted n _ (
            removed-IsAccounted p.0 p.1 i (get_of_In p.0 p.1 i.map v.distinct (oldest-In i.map e))
              v)

  -- With a round for each entry the loop ends by its test, or with an empty store.
  pub evict_loop_ends :
      (n : ℕ) (i : Inner)
      → IsAccounted i
      → len i ≤ n
      → ((evict_loop n i incoming budget).bytes + incoming ≤ budget)
        ⊎ ((evict_loop n i incoming budget).map ≡ [])
  unfolding evict_loop
  evict_loop_ends zero i v h = inr (ground arith)
  evict_loop_ends (suc n) i v h =
      evict_loop_cases (λ r. (r.bytes + incoming ≤ budget) ⊎ (r.map ≡ [])) n i incoming budget
        v.distinct inl inr
        λ p e _.
          let found = get_of_In p.0 p.1 i.map v.distinct (oldest-In i.map e) in
          evict_loop_ends n _ (removed-IsAccounted p.0 p.1 i found v)
            (omega (arith, length-remove p.0 p.1 i.map v.distinct found))

  pub evict_loop_fits :
      (n : ℕ) (i : Inner) → i.bytes + incoming ≤ budget → evict_loop n i incoming budget ≡ i
  unfolding evict_loop
  evict_loop_fits zero i h = refl
  evict_loop_fits (suc n) i h = ground arith

  -- It only drops entries.
  pub evict_loop-In :
      (n : ℕ) (i : Inner) (q : Str × Entry)
      → Distinct i.map
      → In q (evict_loop n i incoming budget).map
      → In q i.map
  unfolding evict_loop
  evict_loop-In zero i q d = λ h. h
  evict_loop-In (suc n) i q d =
      evict_loop_cases (λ r. In q r.map → In q i.map) n i incoming budget d (λ _ h. h) (λ _ h. h)
        λ p e _ h. In-remove p.0 i.map (evict_loop-In n _ q (remove-Distinct p.0 i.map d) h)

  pub evict_loop-le :
      (n : ℕ) (i : Inner)
      → Distinct i.map
      → (len (evict_loop n i incoming budget) ≤ len i)
        × ((evict_loop n i incoming budget).bytes ≤ i.bytes)
  unfolding evict_loop
  evict_loop-le zero i d = (omega arith, omega arith)
  evict_loop-le (suc n) i d =
      evict_loop_cases (λ r. (len r ≤ len i) × (r.bytes ≤ i.bytes)) n i incoming budget d
        (λ _. omega arith) (λ _. omega arith)
        λ p e _. omega (
          arith,
          evict_loop-le n (record { map = remove p.0 i.map; bytes = i.bytes - size p.1 })
              (remove-Distinct p.0 i.map d),
          length-remove-le p.0 i.map,
        )

  -- An entry that was there stays, or is no newer than any that stays.
  pub evict_loop_oldest_first :
      (n : ℕ) (i : Inner) (q : Str × Entry)
      → Distinct i.map
      → In q i.map
      → In q (evict_loop n i incoming budget).map
        ⊎ All (NotAfter q) (evict_loop n i incoming budget).map
  unfolding evict_loop
  evict_loop_oldest_first zero i q d m = inl m
  evict_loop_oldest_first (suc n) i q d m =
      evict_loop_cases (λ r. In q r.map ⊎ All (NotAfter q) r.map) n i incoming budget d (λ _. inl m)
        (λ _. inl m)
        λ p e _.
          go p e
            (evict_loop_oldest_first n
              (record { map = remove p.0 i.map; bytes = i.bytes - size p.1 }) q
              (remove-Distinct p.0 i.map d))
            (Bool-cases (p.0 =? q.0))
    where
      after : Str × Entry → Inner
      after p =
          evict_loop n (record { map = remove p.0 i.map; bytes = i.bytes - size p.1 }) incoming
            budget

      go :
          (p : Str × Entry)
          → oldest i.map ≡ some p
          → (In q (remove p.0 i.map) → In q (after p).map ⊎ All (NotAfter q) (after p).map)
          → ((p.0 =? q.0) ≡ true) ⊎ ((p.0 =? q.0) ≡ false)
          → In q (after p).map ⊎ All (NotAfter q) (after p).map
      go p e ih (inl same) =
          let one : p.1 ≡ q.1 =
            In-unique p q i.map d (oldest-In i.map e) m ((string_eq.beq_iff _ _).0 same) in
          inr (
            All-of_In _ (after p).map (λ r h.
              let older =
                All-In (NotAfter p) (oldest-NotAfter i.map e)
                  (In-remove p.0 i.map (evict_loop-In n _ r (remove-Distinct p.0 i.map d) h)) in
              rw (← one) older))
      go p e ih (inr other) = ih (In-remove_ne p.0 q i.map m other)
