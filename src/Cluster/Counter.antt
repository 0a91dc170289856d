-- ===== src/Cluster/Counter.antt =====
-- crates/pulsate-cluster/src/lib.rs: `GCounter`. Counts are 64-bit and wrap, as in a release build.
-- A node's identifier is its string.
use pulsate.Prelude.{
  ℕ, ◌+◌, ◌%◌, ◌^◌, ◌≡◌, ap, max, refl, inl, inr, Option-cases, Option, none, some, [], ◌∷◌, Str,
  string_eq, str_eq_iff, Map, get, insert, Distinct, get-insert, insert-Distinct, total, weight,
  total-eq_of_weight, arith, if◌then◌else◌, str_eq,
}

pub record GCounter : Type 0 where
  pub counts : Map Str ℕ

abbrev pub count_or_zero : Option ℕ → ℕ
count_or_zero none = 0
count_or_zero (some n) = n

-- A node's slot; a missing one counts nothing.
abbrev pub slot : Str → GCounter → ℕ
slot node c = count_or_zero (get node c.counts)

abbrev pub no_counts : GCounter
no_counts = record { counts = [] }

unfoldable pub incr : Str → ℕ → GCounter → GCounter
incr node n c = record { counts = insert node ((slot node c + n) % 2 ^ 64) c.counts }

unfoldable pub value : GCounter → ℕ
value c = total (λ n. n) c.counts % 2 ^ 64

-- The loop of `merge` over the other counter's entries.
unfoldable pub merge_entries : Map Str ℕ → Map Str ℕ → Map Str ℕ
merge_entries m [] = m
merge_entries m ((node, n) ∷ others) =
    merge_entries (insert node (max (count_or_zero (get node m)) n) m) others

unfoldable pub merge : GCounter → GCounter → GCounter
merge c other = record { counts = merge_entries c.counts other.counts }

-- One slot for each node.
abbrev pub IsCounter : GCounter → Type 0
IsCounter c = Distinct c.counts

merge_entries-Distinct : (m others : Map Str ℕ) → Distinct m → Distinct (merge_entries m others)
unfolding merge_entries
merge_entries-Distinct m [] d = d
merge_entries-Distinct m ((node, n) ∷ others) d =
    let stored = max (count_or_zero (get node m)) n in
    merge_entries-Distinct (insert node stored m) others (insert-Distinct node stored m d)

get-merge_entries :
    (k : Str) (m others : Map Str ℕ)
    → Distinct others
    → count_or_zero (get k (merge_entries m others))
      ≡ max (count_or_zero (get k m)) (count_or_zero (get k others))
unfolding merge_entries
get-merge_entries k m [] d = omega arith
get-merge_entries k m ((node, n) ∷ others) d =
    let stored = max (count_or_zero (get node m)) n in
    let ih = get-merge_entries k (insert node stored m) others d.1 in
    ground (arith, ih, get-insert node k stored m, str_eq_iff node k)

-- The greater of two slots; one that both lack is lacking.
abbrev pub greater_slot : Option ℕ → Option ℕ → Option ℕ
greater_slot none none = none
greater_slot (some m) none = some m
greater_slot none (some n) = some n
greater_slot (some m) (some n) = some (max m n)

entry-merge_entries :
    (k : Str) (m others : Map Str ℕ)
    → Distinct others
    → get k (merge_entries m others) ≡ greater_slot (get k m) (get k others)
unfolding merge_entries
entry-merge_entries k m [] d = elim (Option-cases (get k m)) [
  | inl e ↦ rw e refl
  | inr (n, e) ↦ rw e refl
]
entry-merge_entries k m ((node, n) ∷ others) d =
    let stored = max (count_or_zero (get node m)) n in
    let ih = entry-merge_entries k (insert node stored m) others d.1 in
    ground (arith, ih, get-insert node k stored m, str_eq_iff node k)

pub merge-IsCounter : (a b : GCounter) → IsCounter a → IsCounter (merge a b)
unfolding merge
merge-IsCounter a b d = merge_entries-Distinct a.counts b.counts d

-- A merge takes the greater count of every node.
pub slot-merge :
    (k : Str) (a b : GCounter) → IsCounter b → slot k (merge a b) ≡ max (slot k a) (slot k b)
unfolding merge
slot-merge k a b d = get-merge_entries k a.counts b.counts d

-- A merge has the slots of both counters, and the greater count in each.
pub entry-merge :
    (k : Str) (a b : GCounter)
    → IsCounter b
    → get k (merge a b).counts ≡ greater_slot (get k a.counts) (get k b.counts)
unfolding merge
entry-merge k a b d = entry-merge_entries k a.counts b.counts d

pub incr-IsCounter : (node : Str) (n : ℕ) (c : GCounter) → IsCounter c → IsCounter (incr node n c)
unfolding incr
incr-IsCounter node n c d = insert-Distinct node _ c.counts d

pub slot-incr :
    (k node : Str) (n : ℕ) (c : GCounter)
    → slot k (incr node n c) ≡ (if str_eq node k then (slot node c + n) % 2 ^ 64 else slot k c)
unfolding incr
slot-incr k node n c = ground (arith, get-insert node k ((slot node c + n) % 2 ^ 64) c.counts)

-- The value depends on the slots alone.
pub value-eq_of_slot :
    (a b : GCounter)
    → IsCounter a
    → IsCounter b
    → ((k : Str) → slot k a ≡ slot k b)
    → value a ≡ value b
unfolding value
value-eq_of_slot a b da db h =
    ap (λ t. t % 2 ^ 64) (total-eq_of_weight (λ n. n) a.counts b.counts da db (λ k. same k))
  where
    same : (k : Str) → weight (λ n. n) k a.counts ≡ weight (λ n. n) k b.counts
    same k = ground (arith, h k)

-- Counters exchanged in any order and any number of times show one value: a merge is commutative,
-- associative and idempotent in the value and in every node's slot.
pub merge_converges :
    (a b c : GCounter) (k : Str)
    → IsCounter a
    → IsCounter b
    → IsCounter c
    → ((value (merge a b) ≡ value (merge b a)) × (slot k (merge a b) ≡ slot k (merge b a)))
      × ((value (merge (merge a b) c) ≡ value (merge a (merge b c)))
          × (slot k (merge (merge a b) c) ≡ slot k (merge a (merge b c))))
      × ((value (merge (merge a b) b) ≡ value (merge a b))
          × (slot k (merge (merge a b) b) ≡ slot k (merge a b)))
merge_converges a b c k da db dc = (
  (value-eq_of_slot _ _ ab (merge-IsCounter b a db) comm, comm k),
  (value-eq_of_slot _ _ (merge-IsCounter _ c ab) (merge-IsCounter a _ da) assoc, assoc k),
  (value-eq_of_slot _ _ (merge-IsCounter _ b ab) ab idem, idem k),
)
  where
    ab : IsCounter (merge a b)
    ab = merge-IsCounter a b da

    comm : (j : Str) → slot j (merge a b) ≡ slot j (merge b a)
    comm j = omega (arith, slot-merge j a b db, slot-merge j b a da)

    assoc : (j : Str) → slot j (merge (merge a b) c) ≡ slot j (merge a (merge b c))
    assoc j = omega (
      arith,
      slot-merge j a b db,
      slot-merge j (merge a b) c dc,
      slot-merge j b c dc,
      slot-merge j a (merge b c) (merge-IsCounter b c db),
    )

    idem : (j : Str) → slot j (merge (merge a b) b) ≡ slot j (merge a b)
    idem j = omega (arith, slot-merge j a b db, slot-merge j (merge a b) b db)
