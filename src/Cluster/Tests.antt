-- ===== src/Cluster/Tests.antt =====
-- Runs of the cluster's operations, and its theorems at concrete inputs.
use pulsate.Prelude.{
  ◌-◌, ◌^◌, ◌≡◌, refl, true, none, some, List, [], ◌∷◌, In, string_eq, get, bytes, arith,
}
use mathlib.Core.Quot
use pulsate.Net.{SocketAddr, on_v4}
use pulsate.Cluster.Counter.{GCounter, slot, value, merge, incr, merge_entries}
use pulsate.Cluster.Replicas.{Counter, merge_replicas, merge_replicas-semilattice}
use pulsate.Cluster.Members.{
  Membership, IsView, new, join, leave, is_leader, new-IsView, join-IsView,
}
use pulsate.Cluster.Wire.{alive, suspect, dead, rank, MemberUpdate, ping, ack, Frame}
use pulsate.Cluster.Peers.{
  Peer, Shared, start, snapshot, apply_self, apply_peer, apply_update, apply_updates, reconcile,
  mark_suspect, mark_alive, reap_suspects, reap_peers, leave_all, supersedes, peer_updates,
}
use pulsate.Cluster.Coherence.{IsCoherent}
use pulsate.Cluster.Convergence.{standing, reconcile_converges}
use pulsate.Cluster.Refutation.{own_update, refutation_lem}
use pulsate.Cluster.History.{hears, confirms, reaps, step, run}
use pulsate.Cluster.Runtime.{default_config, boot}
use pulsate.Cluster.Driving.{Input, wakes, drive, drive-IsCoherent}
use pulsate.Cluster.Driving

-- What the runs compute through.
program : Unit {0}
unfolding incr value merge merge_entries new join leave is_leader rank start snapshot apply_self
    apply_peer apply_update apply_updates reconcile mark_suspect mark_alive reap_suspects reap_peers
    leave_all peer_updates step run
program = tt

abbrev addr : SocketAddr
addr = on_v4 2130706433 7946

abbrev frame_of : List MemberUpdate → GCounter → Frame
frame_of us c = record {
  version = 1;
  from = bytes "b";
  from_addr = addr;
  seq = 4;
  kind = ping;
  updates = us;
  counter = c;
}

abbrev c_suspect : MemberUpdate
c_suspect = record { node = bytes "c"; addr = addr; incarnation = 2; state = suspect }

abbrev c_alive : MemberUpdate
c_alive = record { node = bytes "c"; addr = addr; incarnation = 3; state = alive }

abbrev a_dead : MemberUpdate
a_dead = record { node = bytes "a"; addr = addr; incarnation = 0; state = dead }

abbrev left : GCounter
left = record { counts = (bytes "a", 5) ∷ (bytes "b", 1) ∷ [] }

abbrev right : GCounter
right = record { counts = (bytes "b", 4) ∷ (bytes "c", 2) ∷ [] }

-- The suspect is buried when its deadline has come, and an older word does not revive it.
suspect_dies :
    get
      (bytes "c")
      (run 10
        (hears 5 (frame_of (c_suspect ∷ []) left) ∷ reaps 15 ∷ confirms (bytes "c") ∷ [])
        (start (bytes "a") addr)).peers
    ≡ some (record { addr = addr; incarnation = 2; state = dead; suspect_deadline = none })
unfolding program
suspect_dies = refl

merges : value (merge left right) ≡ 11
unfolding program
merges = refl

abbrev left_counter : Counter
left_counter = (left, (refl, (refl, tt)))

abbrev right_counter : Counter
right_counter = (right, (refl, (refl, tt)))

merge_replicas-semilattice_example :
    (merge_replicas (Quot.mk left_counter) (Quot.mk right_counter)
      ≡ merge_replicas (Quot.mk right_counter) (Quot.mk left_counter))
    × (merge_replicas
          (merge_replicas (Quot.mk left_counter) (Quot.mk right_counter))
          (Quot.mk left_counter)
        ≡ merge_replicas
            (Quot.mk left_counter)
            (merge_replicas (Quot.mk right_counter) (Quot.mk left_counter)))
    × (merge_replicas (Quot.mk left_counter) (Quot.mk left_counter) ≡ Quot.mk left_counter)
merge_replicas-semilattice_example =
    merge_replicas-semilattice (Quot.mk left_counter) (Quot.mk right_counter) (Quot.mk left_counter)

abbrev two_nodes : Membership
two_nodes = join (bytes "a") (new (bytes "b"))

abbrev two_others : Membership
two_others = join (bytes "b") (new (bytes "a"))

two_nodes-IsView : IsView two_nodes
two_nodes-IsView = join-IsView (bytes "a") (new (bytes "b")) (new-IsView (bytes "b"))

two_others-IsView : IsView two_others
two_others-IsView = join-IsView (bytes "b") (new (bytes "a")) (new-IsView (bytes "a"))

abbrev first_frame : Frame
first_frame = frame_of (c_suspect ∷ a_dead ∷ []) left

abbrev second_frame : Frame
second_frame = frame_of (c_alive ∷ []) right

abbrev fresh : Shared
fresh = start (bytes "a") addr

reconcile_converges_example :
    ((standing (
          get
            (bytes "c")
            (reconcile 10 6 second_frame (reconcile 10 5 first_frame fresh).0).0.peers)
        ≡ standing (
            get
              (bytes "c")
              (reconcile 10 9 first_frame (reconcile 10 7 second_frame fresh).0).0.peers))
      × (slot
            (bytes "c")
            (reconcile 10 6 second_frame (reconcile 10 5 first_frame fresh).0).0.counter
          ≡ slot
              (bytes "c")
              (reconcile 10 9 first_frame (reconcile 10 7 second_frame fresh).0).0.counter))
    × ((standing (
            get
              (bytes "c")
              (reconcile 10 9 first_frame (reconcile 10 5 first_frame fresh).0).0.peers)
          ≡ standing (get (bytes "c") (reconcile 10 5 first_frame fresh).0.peers))
        × (slot
              (bytes "c")
              (reconcile 10 9 first_frame (reconcile 10 5 first_frame fresh).0).0.counter
            ≡ slot (bytes "c") (reconcile 10 5 first_frame fresh).0.counter))
reconcile_converges_example =
    reconcile_converges 10 5 6 7 9 first_frame second_frame fresh (bytes "c") (refl, (refl, tt))
      (refl, (refl, tt))

abbrev old_entry : Peer
old_entry = record { addr = addr; incarnation = 0; state = dead; suspect_deadline = none }

refutation_lem_example :
    (apply_update 10 5 a_dead fresh ≡ (record fresh { incarnation = 1 }, true))
    × In
        (own_update (apply_update 10 5 a_dead fresh).0)
        (snapshot (apply_update 10 5 a_dead fresh).0 1 ping).updates
    × (supersedes (own_update (apply_update 10 5 a_dead fresh).0) old_entry ≡ true)
unfolding start
refutation_lem_example =
    refutation_lem 10 5 1 ping a_dead fresh old_entry refl refl (omega arith) (omega arith)
      (omega arith)

abbrev a_last : MemberUpdate
a_last = record { node = bytes "a"; addr = addr; incarnation = 2 ^ 64 - 1; state = suspect }

abbrev answered : List Input
answered =
    Driving.hears 5 (frame_of (c_alive ∷ []) left)
    ∷ wakes 6
    ∷ wakes 9
    ∷ Driving.hears 10 (record (frame_of [] right) { kind = ack })
    ∷ []

drive-IsCoherent_example :
    IsCoherent (drive answered (boot (default_config addr) (start (bytes "a") addr) 77) 6).shared
drive-IsCoherent_example = drive-IsCoherent answered (default_config addr) (bytes "a") addr 77 6
