-- ===== src/Cluster/Reaping.antt =====
-- `reap_suspects`: which peers die, and what the view keeps.
use pulsate.Prelude.{
  ℕ, ◌≡◌, inl, inr, refl, ◌∙◌, ap, Bool, true, false, not, ◌&&◌, Option, none, some, List, [], ◌∷◌,
  Str, str_eq, string_eq, str_eq_iff, Map, get, Distinct, contains, arith, Bool-cases,
}
use pulsate.Cluster.Members.{Membership, leave, IsView, leave-IsView, contains-leave}
use pulsate.Cluster.Peers.{Peer, Shared, reap_suspects, reap_peers, leave_all, run_out, bury}
use pulsate.Cluster.Coherence.{IsCoherent, is_live, is_armed, leave-me}

abbrev pub buried : ℕ → Option Peer → Option Peer
buried now none = none
buried now (some p) = some (bury now p)

abbrev pub dies : ℕ → Option Peer → Bool
dies now none = false
dies now (some p) = run_out now p

pub get-reap_peers :
    (now : ℕ) (k : Str) (m : Map Str Peer) → get k (reap_peers now m).0 ≡ buried now (get k m)
unfolding reap_peers
get-reap_peers now k [] = refl
get-reap_peers now k ((node, p) ∷ m) = elim (Bool-cases (str_eq node k)) [
  | inl e ↦ rw e refl
  | inr e ↦ rw e (get-reap_peers now k m)
]

absent-died :
    (now : ℕ) (k : Str) (m : Map Str Peer)
    → get k m ≡ none
    → contains k (reap_peers now m).1 ≡ false
unfolding reap_peers
absent-died now k [] h = refl
absent-died now k ((node, p) ∷ m) h = elim (Bool-cases (run_out now p)) [
  | inl e ↦ rw e (ground (arith, absent-died now k m))
  | inr e ↦ rw e (absent-died now k m (ground arith))
]

contains-died :
    (now : ℕ) (k : Str) (m : Map Str Peer)
    → Distinct m
    → contains k (reap_peers now m).1 ≡ dies now (get k m)
unfolding reap_peers
contains-died now k [] d = refl
contains-died now k ((node, p) ∷ m) d = elim (Bool-cases (run_out now p)) [
  | inl e ↦ rw e (elim (Bool-cases (str_eq node k)) [
    | inl same ↦ rw same (rw e refl)
    | inr other ↦ rw other (contains-died now k m d.1)
  ])
  | inr e ↦ rw e (elim (Bool-cases (str_eq node k)) [
    | inl same ↦ rw same (rw e (absent-died now k m (rw ((str_eq_iff node k).0 same) at d.0)))
    | inr other ↦ rw other (contains-died now k m d.1)
  ])
]

reap_peers-Distinct : (now : ℕ) (m : Map Str Peer) → Distinct m → Distinct (reap_peers now m).0
unfolding reap_peers
reap_peers-Distinct now [] d = tt
reap_peers-Distinct now ((node, p) ∷ m) d =
    (get-reap_peers now node m ∙ ap (buried now) d.0, reap_peers-Distinct now m d.1)

-- The view after the nodes of a list have left.
leave_all_lem :
    (ks : List Str) (m : Membership)
    → IsView m
    → contains m.me ks ≡ false
    → IsView (leave_all ks m)
      × ((leave_all ks m).me ≡ m.me)
      × ((j : Str)
          → contains j (leave_all ks m).nodes ≡ (not (contains j ks) && contains j m.nodes))
unfolding leave_all
leave_all_lem [] m v h = (v, refl, λ j. refl)
leave_all_lem (k ∷ ks) m v h =
    let me = leave-me k m in
    let (v', me', live') =
      leave_all_lem ks (leave k m) (leave-IsView k m v) (rw me (ground arith)) in
    (v', me' ∙ me, λ j. ground (arith, live' j, contains-leave k j m v))

-- A deadline that is set exactly while a peer is suspect stays so.
bury-armed : (now : ℕ) (o : Option Peer) → is_armed o ≡ true → is_armed (buried now o) ≡ true
bury-armed now none h = refl
bury-armed now (some p) h = ground arith

bury-live : (now : ℕ) (o : Option Peer) → is_live (buried now o) ≡ (not (dies now o) && is_live o)
bury-live now none = refl
bury-live now (some p) = ground arith

pub reap_suspects-IsCoherent :
    (now : ℕ) (s : Shared) → IsCoherent s → IsCoherent (reap_suspects now s).0
unfolding reap_suspects
reap_suspects-IsCoherent now s c =
    let died = (reap_peers now s.peers).1 in
    let me_lives : contains s.membership.me died ≡ false =
      rw c.own (contains-died now s.me s.peers c.distinct ∙ ap (dies now) c.no_self) in
    let (v, me, live) = leave_all_lem died s.membership c.view me_lives in
    record {
      view = v;
      own = me ∙ c.own;
      no_self = get-reap_peers now s.me s.peers ∙ ap (buried now) c.no_self;
      distinct = reap_peers-Distinct now s.peers c.distinct;
      live = λ j. ground (
        arith,
        live j,
        c.live j,
        get-reap_peers now j s.peers,
        contains-died now j s.peers c.distinct,
        bury-live now (get j s.peers),
        c.no_self,
        str_eq_iff s.me j,
      );
      armed = λ j. rw (get-reap_peers now j s.peers) (bury-armed now (get j s.peers) (c.armed j));
    }
