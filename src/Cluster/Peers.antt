-- ===== src/Cluster/Peers.antt =====
-- crates/pulsate-cluster/src/gossip/mod.rs: `Shared`, the node's view of its peers, and what changes
-- it. Incarnations are 64-bit; times are nanoseconds of one monotonic clock.
use pulsate.Prelude.{
  ℕ, ◌+◌, ◌%◌, ◌^◌, Bool, true, false, not, ◌||◌, ◌&&◌, Option, none, some, List, [], ◌∷◌, Str,
  str_eq, string_eq, Map, get, insert, ◌==◌, ltb, leb, if◌then◌else◌, is_empty,
}
use pulsate.Net.{SocketAddr}
use pulsate.Cluster.Counter.{GCounter, no_counts, merge}
use pulsate.Cluster.Members.{Membership, join, leave}
use pulsate.Cluster.Members
use pulsate.Cluster.Wire.{
  MemberState, alive, suspect, dead, rank, MemberUpdate, Kind, Frame, protocol_version,
}

pub record Peer : Type 0 where
  pub addr : SocketAddr
  pub incarnation : ℕ
  pub state : MemberState
  pub suspect_deadline : Option ℕ

pub record Shared : Type 0 where
  pub me : Str
  pub local_addr : SocketAddr
  pub incarnation : ℕ
  pub membership : Membership
  pub counter : GCounter
  pub peers : Map Str Peer

unfoldable pub start : Str → SocketAddr → Shared
start me local_addr = record {
  me = me;
  local_addr = local_addr;
  incarnation = 0;
  membership = Members.new me;
  counter = no_counts;
  peers = [];
}

abbrev pub is_dead : MemberState → Bool
is_dead alive = false
is_dead suspect = false
is_dead dead = true

abbrev pub is_suspect : MemberState → Bool
is_suspect alive = false
is_suspect suspect = true
is_suspect dead = false

abbrev pub is_alive : MemberState → Bool
is_alive alive = true
is_alive suspect = false
is_alive dead = false

-- The entries of a snapshot for the known peers.
unfoldable pub peer_updates : Map Str Peer → List MemberUpdate
peer_updates [] = []
peer_updates ((node, p) ∷ peers) =
    record { node = node; addr = p.addr; incarnation = p.incarnation; state = p.state }
    ∷ peer_updates peers

unfoldable pub snapshot : Shared → ℕ → Kind → Frame
snapshot s seq kind = record {
  version = protocol_version;
  from = s.me;
  from_addr = s.local_addr;
  seq = seq;
  kind = kind;
  updates =
      record { node = s.me; addr = s.local_addr; incarnation = s.incarnation; state = alive }
      ∷ peer_updates s.peers;
  counter = s.counter;
}

-- An update about the node itself.
unfoldable pub apply_self : MemberUpdate → Shared → Shared × Bool
apply_self u s =
    if (is_suspect u.state || is_dead u.state) && leb s.incarnation u.incarnation
    then (record s { incarnation = (u.incarnation + 1) % 2 ^ 64 }, true)
    else (s, false)

abbrev pub supersedes : MemberUpdate → Peer → Bool
supersedes u p =
    ltb p.incarnation u.incarnation
    || (u.incarnation == p.incarnation && ltb (rank p.state) (rank u.state))

-- The peer that an update describes; `deadline` is when a suspicion that begins now runs out.
abbrev pub peer_of : MemberUpdate → ℕ → Peer
peer_of u deadline = record {
  addr = u.addr;
  incarnation = u.incarnation;
  state = u.state;
  suspect_deadline = if is_suspect u.state then some deadline else none;
}

-- The branch for a node that is not known.
abbrev pub learn : MemberUpdate → ℕ → Shared → Shared
learn u deadline s = record s {
  membership = if is_dead u.state then s.membership else join u.node s.membership;
  peers = insert u.node (peer_of u deadline) s.peers;
}

-- The branch for a known node whose entry the update supersedes.
abbrev pub adopt : MemberUpdate → ℕ → Shared → Shared
adopt u deadline s = record s {
  membership = if is_dead u.state then leave u.node s.membership else join u.node s.membership;
  peers = insert u.node (peer_of u deadline) s.peers;
}

unfoldable pub apply_peer : MemberUpdate → ℕ → Shared → Shared
apply_peer u deadline s = elim (get u.node s.peers) [
  | none ↦ learn u deadline s
  | some p ↦ if supersedes u p then adopt u deadline s else s
]

unfoldable pub apply_update : ℕ → ℕ → MemberUpdate → Shared → Shared × Bool
apply_update timeout now u s =
    if str_eq u.node s.me then apply_self u s else (apply_peer u (now + timeout) s, false)

-- The loop of `reconcile`.
unfoldable pub apply_updates : ℕ → ℕ → List MemberUpdate → Shared × Bool → Shared × Bool
apply_updates timeout now [] (s, refuted) = (s, refuted)
apply_updates timeout now (u ∷ us) (s, refuted) =
    let (s', hit) = apply_update timeout now u s in
    apply_updates timeout now us (s', refuted || hit)

unfoldable pub reconcile : ℕ → ℕ → Frame → Shared → Shared × Bool
reconcile timeout now frame s =
    let (s', refuted) = apply_updates timeout now frame.updates (s, false) in
    (record s' { counter = merge s'.counter frame.counter }, refuted)

unfoldable pub mark_suspect : ℕ → ℕ → Str → Shared → Shared
mark_suspect timeout now node s = elim (get node s.peers) [
  | none ↦ s
  | some p ↦
      if is_alive p.state
      then record s {
        peers =
            insert node (record p { state = suspect; suspect_deadline = some (now + timeout) })
              s.peers;
      }
      else s
]

unfoldable pub mark_alive : Str → Shared → Shared
mark_alive node s = elim (get node s.peers) [
  | none ↦ s
  | some p ↦ if is_dead p.state then s else record s {
    membership = join node s.membership;
    peers = insert node (record p { state = alive; suspect_deadline = none }) s.peers;
  }
]

-- `suspect_deadline.is_some_and(|d| d <= now)`, of a suspect.
abbrev pub run_out : ℕ → Peer → Bool
run_out now p = is_suspect p.state && elim p.suspect_deadline [ none ↦ false | some d ↦ leb d now ]

abbrev pub bury : ℕ → Peer → Peer
bury now p = if run_out now p then record p { state = dead; suspect_deadline = none } else p

-- The loop of `reap_suspects` over the peers: the peers after it, and the nodes that died.
unfoldable pub reap_peers : ℕ → Map Str Peer → Map Str Peer × List Str
reap_peers now [] = ([], [])
reap_peers now ((node, p) ∷ peers) =
    let (rest, died) = reap_peers now peers in
    ((node, bury now p) ∷ rest, if run_out now p then node ∷ died else died)

unfoldable pub leave_all : List Str → Membership → Membership
leave_all [] m = m
leave_all (node ∷ nodes) m = leave_all nodes (leave node m)

-- The part of `reap_suspects` under the lock, and whether a peer died.
unfoldable pub reap_suspects : ℕ → Shared → Shared × Bool
reap_suspects now s =
    let (peers, died) = reap_peers now s.peers in
    (record s { membership = leave_all died s.membership; peers = peers }, not (is_empty died))
