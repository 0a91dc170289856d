-- ===== src/Cache/Removal.antt =====
-- What `evict_until_fits` and `MemoryStore::purge_tag` take out.
use pulsate.Prelude.{
  ℕ, subst, ◌+◌, ◌≤◌, ◌<◌, ◌≡◌, refl, ◌⊎◌, inl, inr, true, not, none, some, [], Str, string_eq,
  str_eq, str_eq_iff, get, keep_if, filter_option, get-keep_if, arith, ltb, Option-cases,
  Bool-cases, In, All, All-of_In, In-of_any, any_of_In, length-keep_if-le,
}
use pulsate.Cache.Store.{Entry, Inner, len, purge_tag, has_tag}
use pulsate.Cache.Layer.{evict_until_fits}
use pulsate.Cache.Eviction.{NotAfter}
use pulsate.Cache.Accounting.{
  IsAccounted, evict_loop_ends, evict_loop_fits, evict_loop-In, evict_loop_oldest_first,
}

In-has_tag : (tag : Str) (e : Entry) → In tag e.tags → has_tag tag e ≡ true
In-has_tag tag e m = any_of_In (λ t. str_eq t tag) m ((str_eq_iff tag tag).1 refl)

has_tag-In : (tag : Str) (e : Entry) → has_tag tag e ≡ true → In tag e.tags
has_tag-In tag e h =
    let (t, m, same) = In-of_any (λ t. str_eq t tag) e.tags h in
    subst (λ s. In s e.tags) ((str_eq_iff t tag).0 same) m

-- `evict_until_fits` ends with room for the incoming bytes or with an empty store. It adds nothing,
-- takes nothing out where there is room already, and an entry `q` of the store stays or was stored
-- no later than every entry that stays.
pub evict_until_fits_lem :
    (i : Inner) (incoming budget : ℕ) (q : Str × Entry)
    → IsAccounted i
    → In q i.map
    → (((evict_until_fits i incoming budget).bytes + incoming ≤ budget)
        ⊎ ((evict_until_fits i incoming budget).map ≡ []))
      × All (λ r. In r i.map) (evict_until_fits i incoming budget).map
      × ((budget < i.bytes + incoming) ⊎ (evict_until_fits i incoming budget ≡ i))
      × (In q (evict_until_fits i incoming budget).map
          ⊎ All (NotAfter q) (evict_until_fits i incoming budget).map)
unfolding evict_until_fits
evict_until_fits_lem i incoming budget q v m = (
  evict_loop_ends incoming budget (len i) i v (omega arith),
  All-of_In _ _ (λ r. evict_loop-In incoming budget (len i) i r v.distinct),
  elim (Bool-cases (ltb budget (i.bytes + incoming))) [
    | inl big ↦ inl (ground arith)
    | inr small ↦ inr (evict_loop_fits incoming budget (len i) i (ground arith))
  ],
  evict_loop_oldest_first incoming budget (len i) i q v.distinct m,
)

-- `purge_tag` takes out the entries that carry the tag and no other, and returns their number.
pub purge_tag_lem :
    (tag : Str) (i : Inner) (k : Str)
    → IsAccounted i
    → (((get k i.map ≡ none) × (get k (purge_tag tag i).1.map ≡ none))
        ⊎ ((e : Entry) × (get k i.map ≡ some e)
            × ((In tag e.tags × (get k (purge_tag tag i).1.map ≡ none))
                ⊎ ((¬ In tag e.tags) × (get k (purge_tag tag i).1.map ≡ some e)))))
      × ((purge_tag tag i).0 + len (purge_tag tag i).1 ≡ len i)
unfolding purge_tag
purge_tag_lem tag i k v = (
  elim (Option-cases (get k i.map)) [
    | inl missing ↦ inl (missing, ground (arith, kept))
    | inr (e, found) ↦ inr (
      e,
      found,
      elim (Bool-cases (has_tag tag e)) [
        | inl h ↦ inl (has_tag-In tag e h, ground (arith, kept))
        | inr h ↦ inr (λ m. cc (h, In-has_tag tag e m), ground (arith, kept))
      ],
    )
  ],
  omega (arith, length-keep_if-le (λ e. not (has_tag tag e)) i.map),
)
  where
    kept :
        get k (keep_if (λ e. not (has_tag tag e)) i.map)
        ≡ filter_option (λ e. not (has_tag tag e)) (get k i.map)
    kept = get-keep_if _ k i.map v.distinct
