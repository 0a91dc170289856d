-- ===== src/Cluster/Replicas.antt =====
-- What a replica is: a counter up to the order of its slots, as a quotient, which is what the derived
-- equality of `GCounter` compares. On it a merge is a join.
use mathlib.Core.Quot
use mathlib.Core.Quot.{Quot, Quot-set}
use pulsate.Prelude.{ℕ, ◌≡◌, ◌∙◌, refl, sym, ap, Option, none, some, Str, get, string_eq, arith}
use pulsate.Cluster.Counter.{GCounter, IsCounter, greater_slot, merge, merge-IsCounter, entry-merge}

-- A counter with one slot for each node.
abbrev pub Counter : Type 0
Counter = (c : GCounter) × IsCounter c

-- Both have the same slots, with the same counts.
abbrev pub SameCounts : Counter → Counter → Type 0
SameCounts a b = (k : Str) → get k a.0.counts ≡ get k b.0.counts

greater_slot_comm : (x y : Option ℕ) → greater_slot x y ≡ greater_slot y x
greater_slot_comm none none = refl
greater_slot_comm none (some n) = refl
greater_slot_comm (some m) none = refl
greater_slot_comm (some m) (some n) = ap some (omega arith)

greater_slot_assoc :
    (x y z : Option ℕ) → greater_slot (greater_slot x y) z ≡ greater_slot x (greater_slot y z)
greater_slot_assoc none none none = refl
greater_slot_assoc none none (some k) = refl
greater_slot_assoc none (some n) none = refl
greater_slot_assoc none (some n) (some k) = refl
greater_slot_assoc (some m) none none = refl
greater_slot_assoc (some m) none (some k) = refl
greater_slot_assoc (some m) (some n) none = refl
greater_slot_assoc (some m) (some n) (some k) = ap some (omega arith)

greater_slot_idem : (x : Option ℕ) → greater_slot x x ≡ x
greater_slot_idem none = refl
greater_slot_idem (some n) = ap some (omega arith)

abbrev pub Replica : Type 0
Replica = Quot SameCounts

abbrev pub join : Counter → Counter → Counter
join a b = (merge a.0 b.0, merge-IsCounter a.0 b.0 a.1)

join-SameCounts :
    (a a' b b' : Counter) → SameCounts a a' → SameCounts b b' → SameCounts (join a b) (join a' b')
join-SameCounts a a' b b' h g k =
    entry-merge k a.0 b.0 b.1
    ∙ ap (λ x. greater_slot x (get k b.0.counts)) (h k)
    ∙ ap (greater_slot (get k a'.0.counts)) (g k)
    ∙ sym (entry-merge k a'.0 b'.0 b'.1)

join_with : Counter → Replica → Replica
join_with a =
    Quot.lift Quot-set (λ b. Quot.mk (join a b))
      (λ b b' h. Quot.sound (join-SameCounts a a b b' (λ k. refl) h))

join_with_sound :
    (a a' : Counter) → SameCounts a a' → (y : Replica) → join_with a y ≡ join_with a' y
unfolding join_with
join_with_sound a a' h =
    Quot.ind (λ y. Quot-set _ _) (λ b. Quot.sound (join-SameCounts a a' b b h (λ k. refl)))

-- `GCounter::merge`, seen on what the counters mean.
pub merge_replicas : Replica → Replica → Replica
unfolding join_with
merge_replicas x y = Quot.lift Quot-set (λ a. join_with a y) (λ a a' h. join_with_sound a a' h y) x

merged_thrice : (a b c : Counter) → SameCounts (join (join a b) c) (join a (join b c))
merged_thrice a b c k =
    entry-merge k (join a b).0 c.0 c.1
    ∙ ap (λ x. greater_slot x (get k c.0.counts)) (entry-merge k a.0 b.0 b.1)
    ∙ greater_slot_assoc (get k a.0.counts) (get k b.0.counts) (get k c.0.counts)
    ∙ ap (greater_slot (get k a.0.counts)) (sym (entry-merge k b.0 c.0 c.1))
    ∙ sym (entry-merge k a.0 (join b c).0 (join b c).1)

merged_either_way : (a b : Counter) → SameCounts (join a b) (join b a)
merged_either_way a b k =
    entry-merge k a.0 b.0 b.1
    ∙ greater_slot_comm (get k a.0.counts) (get k b.0.counts)
    ∙ sym (entry-merge k b.0 a.0 a.1)

merged_with_itself : (a : Counter) → SameCounts (join a a) a
merged_with_itself a k = entry-merge k a.0 a.0 a.1 ∙ greater_slot_idem (get k a.0.counts)

-- On counters with one slot for each node, up to the order of the slots alone, `merge` is
-- commutative, associative and idempotent.
pub merge_replicas-semilattice :
    (x y z : Replica)
    → (merge_replicas x y ≡ merge_replicas y x)
      × (merge_replicas (merge_replicas x y) z ≡ merge_replicas x (merge_replicas y z))
      × (merge_replicas x x ≡ x)
unfolding merge_replicas join_with
merge_replicas-semilattice x y z = (comm x y, assoc x y z, idem x)
  where
    comm : (x y : Replica) → merge_replicas x y ≡ merge_replicas y x
    comm x y =
        Quot.ind (λ x'. Quot-set (merge_replicas x' y) (merge_replicas y x'))
          (λ a.
            Quot.ind
              (λ y'. Quot-set (merge_replicas (Quot.mk a) y') (merge_replicas y' (Quot.mk a)))
              (λ b. Quot.sound (merged_either_way a b)) y)
          x

    assoc :
        (x y z : Replica)
        → merge_replicas (merge_replicas x y) z ≡ merge_replicas x (merge_replicas y z)
    assoc x y z =
        Quot.ind
          (λ x'.
            Quot-set (merge_replicas (merge_replicas x' y) z)
              (merge_replicas x' (merge_replicas y z)))
          (λ a.
            Quot.ind
              (λ y'.
                Quot-set (merge_replicas (merge_replicas (Quot.mk a) y') z)
                  (merge_replicas (Quot.mk a) (merge_replicas y' z)))
              (λ b.
                Quot.ind
                  (λ z'.
                    Quot-set (merge_replicas (merge_replicas (Quot.mk a) (Quot.mk b)) z')
                      (merge_replicas (Quot.mk a) (merge_replicas (Quot.mk b) z')))
                  (λ c. Quot.sound (merged_thrice a b c)) z)
              y)
          x

    idem : (x : Replica) → merge_replicas x x ≡ x
    idem = Quot.ind (λ x. Quot-set _ _) (λ a. Quot.sound (merged_with_itself a))
