-- ===== src/Cluster/Members.antt =====
-- crates/pulsate-cluster/src/lib.rs: `Membership` and the choice of the leader.
use mathlib.Core.Path.{ap₂}
use pulsate.Prelude.{
  ℕ, ◌⊎◌, ◌≡◌, refl, ap, Bool, true, false, not, ◌||◌, ◌&&◌, Option, none, some, List, [], ◌∷◌,
  length, Str, str_eq, str_eq_iff, str_lt, str_lt_irrefl, str_lt_trans, AllAbove, IsAscending,
  contains, insert_sorted, remove_sorted, insert_sorted-IsAscending, remove_sorted-IsAscending,
  contains-insert_sorted, contains-remove_sorted, not-contains_above, arith, if◌then◌else◌,
  Bool-cases, inl, inr, All,
}

pub record Membership : Type 0 where
  pub me : Str
  pub nodes : List Str

unfoldable pub new : Str → Membership
new me = record { me = me; nodes = insert_sorted me [] }

unfoldable pub join : Str → Membership → Membership
join node m = record m { nodes = insert_sorted node m.nodes }

unfoldable pub leave : Str → Membership → Membership
leave node m = if not (str_eq node m.me) then record m { nodes = remove_sorted node m.nodes } else m

abbrev pub len : Membership → ℕ
len m = length m.nodes

abbrev pub first : List Str → Option Str
first [] = none
first (s ∷ ts) = some s

abbrev pub leader : Membership → Option Str
leader m = first m.nodes

unfoldable pub is_leader : Membership → Bool
is_leader m = elim (leader m) [ none ↦ false | some l ↦ str_eq l m.me ]

-- The nodes ascend without repetition, and the view's own node is among them.
pub record IsView (m : Membership) : Type 0 where
  pub ascending : IsAscending m.nodes
  pub has_me : contains m.me m.nodes ≡ true

pub new-IsView : (me : Str) → IsView (new me)
unfolding new
new-IsView me = record { ascending = (tt, tt); has_me = ground (arith, str_eq_iff me me) }

pub join-IsView : (node : Str) (m : Membership) → IsView m → IsView (join node m)
unfolding join
join-IsView node m v = record {
  ascending = insert_sorted-IsAscending node m.nodes v.ascending;
  has_me = ground (arith, contains-insert_sorted node m.me m.nodes, v.has_me);
}

pub leave-IsView : (node : Str) (m : Membership) → IsView m → IsView (leave node m)
unfolding leave
leave-IsView node m v = elim (Bool-cases (str_eq node m.me)) [
  | inl same ↦ rw (same, leave) v
  | inr other ↦
      rw (other, leave)
        (record {
          ascending = remove_sorted-IsAscending node m.nodes v.ascending;
          has_me = ground (arith, contains-remove_sorted node m.me m.nodes v.ascending, v.has_me);
        })
]

pub contains-join :
    (node k : Str) (m : Membership)
    → contains k (join node m).nodes ≡ (str_eq node k || contains k m.nodes)
unfolding join
contains-join node k m = contains-insert_sorted node k m.nodes

pub contains-leave :
    (node k : Str) (m : Membership)
    → IsView m
    → contains k (leave node m).nodes
      ≡ ((not (str_eq node k) || str_eq node m.me) && contains k m.nodes)
unfolding leave
contains-leave node k m v = ground (
  arith,
  contains-remove_sorted node k m.nodes v.ascending,
  str_eq_iff node k,
  str_eq_iff node m.me,
)

above-lt : (s k : Str) (ts : List Str) → AllAbove s ts → contains k ts ≡ true → str_lt s k ≡ true
above-lt s k [] a h = cc
above-lt s k (t ∷ ts) a h = ground (arith, str_eq_iff t k, above-lt s k ts a.1)

heads :
    (x y : Str) (xs ys : List Str)
    → AllAbove x xs
    → AllAbove y ys
    → contains x (x ∷ xs) ≡ contains x (y ∷ ys)
    → contains y (x ∷ xs) ≡ contains y (y ∷ ys)
    → x ≡ y
heads x y xs ys ax ay hx hy = ground (
  arith,
  str_eq_iff x x,
  str_eq_iff y y,
  str_eq_iff x y,
  str_eq_iff y x,
  above-lt y x ys ay,
  above-lt x y xs ax,
  str_lt_trans x y x,
  str_lt_irrefl x,
)

-- Two ascending lists with the same elements are one list.
ascending-ext :
    (xs ys : List Str)
    → IsAscending xs
    → IsAscending ys
    → ((k : Str) → contains k xs ≡ contains k ys)
    → xs ≡ ys
ascending-ext [] [] ax ay h = refl
ascending-ext [] (y ∷ ys) ax ay h = absurd (ground (arith, h y, str_eq_iff y y))
ascending-ext (x ∷ xs) [] ax ay h = absurd (ground (arith, h x, str_eq_iff x x))
ascending-ext (x ∷ xs) (y ∷ ys) ax ay h =
    let same : x ≡ y = heads x y xs ys ax.0 ay.0 (h x) (h y) in
    ap₂ ◌∷◌ same (
      ascending-ext xs ys ax.1 ay.1 (λ k. ground (
        arith,
        h k,
        str_eq_iff x k,
        str_eq_iff y k,
        not-contains_above x xs ax.0,
        not-contains_above y ys ay.0,
      )))

-- A view has a leader: a member that no member lies below.
pub leader_least :
    (m : Membership)
    → IsView m
    → (l : Str) × (leader m ≡ some l)
      × (contains l m.nodes ≡ true)
      × All (λ k. str_lt k l ≡ false) m.nodes
leader_least m v = of_nodes m.nodes v.ascending v.has_me
  where
    not_below : (l : Str) (ts : List Str) → AllAbove l ts → All (λ k. str_lt k l ≡ false) ts
    not_below l [] a = tt
    not_below l (t ∷ ts) a =
        (ground (arith, str_lt_trans l t l, str_lt_irrefl l), not_below l ts a.1)

    of_nodes :
        (ns : List Str)
        → IsAscending ns
        → contains m.me ns ≡ true
        → (l : Str) × (first ns ≡ some l)
          × (contains l ns ≡ true)
          × All (λ k. str_lt k l ≡ false) ns
    of_nodes [] a h = cc
    of_nodes (n ∷ ns) a h =
        (n, refl, ground (arith, str_eq_iff n n), (str_lt_irrefl n, not_below n ns a.0))

-- Two nodes whose views have the same members name the same leader, and if both take themselves for
-- the leader they are one node.
pub leaders_agree :
    (a b : Membership)
    → IsView a
    → IsView b
    → ((k : Str) → contains k a.nodes ≡ contains k b.nodes)
    → (leader a ≡ leader b) × ((is_leader a ≡ false) ⊎ (is_leader b ≡ false) ⊎ (a.me ≡ b.me))
unfolding is_leader
leaders_agree a b va vb h = (same, one (leader a) (leader b) refl refl)
  where
    same : leader a ≡ leader b
    same = ap first (ascending-ext a.nodes b.nodes va.ascending vb.ascending h)

    one :
        (l r : Option Str)
        → leader a ≡ l
        → leader b ≡ r
        → (is_leader a ≡ false) ⊎ (is_leader b ≡ false) ⊎ (a.me ≡ b.me)
    one none r e f = inl (rw (e, is_leader) refl)
    one (some l) none e f = inr (inl (rw (f, is_leader) refl))
    one (some l) (some r) e f = elim (Bool-cases (str_eq l a.me)) [
      | inr x ↦ inl (rw (e, is_leader) x)
      | inl x ↦ elim (Bool-cases (str_eq r b.me)) [
        | inr y ↦ inr (inl (rw (f, is_leader) y))
        | inl y ↦ inr (inr (cc ((str_eq_iff l a.me).0 x, (str_eq_iff r b.me).0 y, same)))
      ]
    ]
