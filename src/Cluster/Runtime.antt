-- ===== src/Cluster/Runtime.antt =====
-- crates/pulsate-cluster/src/gossip/mod.rs: `Runtime`, what it does on a datagram and at the times of
-- its loop. A datagram that goes out is a value; one that does not decode never comes in. A step
-- reads the clock once. The peers stand in the order in which the map gives them.
use Prim.Native.Nat.{bit_xor}
use pulsate.Prelude.{
  ℕ, zero, suc, ◌+◌, ◌*◌, ◌/◌, ◌%◌, ◌^◌, Bool, not, ◌&&◌, Option, none, some, List, [], ◌∷◌, ◌++◌,
  length, any, set, get_or, Str, Map, nat_eq, ltb, if◌then◌else◌, ◌=?◌,
}
use pulsate.Net.{SocketAddr, socket_addr_eq}
use pulsate.Cluster.Wire.{Kind, ping, ping_req, Frame}
use pulsate.Cluster.Peers.{Peer, Shared, is_dead, is_alive, snapshot, mark_suspect, reap_suspects}

pub record Config : Type 0 where
  pub bind : SocketAddr
  pub seeds : List SocketAddr
  pub probe_interval : ℕ
  pub probe_timeout : ℕ
  pub suspicion_timeout : ℕ
  pub indirect_probes : ℕ
  pub gossip_fanout : ℕ

abbrev pub default_config : SocketAddr → Config
default_config bind = record {
  bind = bind;
  seeds = [];
  probe_interval = 1_000_000_000;
  probe_timeout = 300_000_000;
  suspicion_timeout = 3_000_000_000;
  indirect_probes = 3;
  gossip_fanout = 3;
}

pub data ProbePhase : Type 0 where
  direct indirect : ProbePhase

pub record Probe : Type 0 where
  pub seq : ℕ
  pub target : Str
  pub target_addr : SocketAddr
  pub phase : ProbePhase
  pub deadline : ℕ

pub record Relay : Type 0 where
  pub origin : SocketAddr
  pub target : SocketAddr
  pub expire : ℕ

pub record Runtime : Type 0 where
  pub config : Config
  pub shared : Shared
  pub rng : ℕ
  pub seq : ℕ
  pub probe : Option Probe
  pub relays : Map ℕ Relay
  pub round_robin : ℕ

-- What is sent, in order.
abbrev pub Outbox : Type 0
Outbox = List (SocketAddr × Frame)

-- `Rng::next_u64`, and the new state, which is the result.
unfoldable pub next_u64 : ℕ → ℕ
next_u64 x =
    let a = bit_xor x (x * 2 ^ 13 % 2 ^ 64) in
    let b = bit_xor a (a / 2 ^ 7) in bit_xor b (b * 2 ^ 17 % 2 ^ 64)

-- `Runtime::new`, with the seed of the generator as an argument.
unfoldable pub boot : Config → Shared → ℕ → Runtime
boot config shared seed = record {
  config = config;
  shared = shared;
  rng = next_u64 seed;
  seq = next_u64 seed;
  probe = none;
  relays = [];
  round_robin = 0;
}

-- `items.swap(i, j)`
abbrev pub swap : List SocketAddr → ℕ → ℕ → SocketAddr → List SocketAddr
swap items i j d = set (set items i (get_or items j d)) j (get_or items i d)

-- The loop of `shuffle`, from the index `i` down to 1; `d` stands for what no index reaches.
unfoldable pub shuffle_from : ℕ → ℕ → List SocketAddr → SocketAddr → List SocketAddr × ℕ
shuffle_from zero x items d = (items, x)
shuffle_from (suc i) x items d =
    let y = next_u64 x in shuffle_from i y (swap items (suc i) (y % (suc i + 1)) d) d

unfoldable pub shuffle : ℕ → List SocketAddr → List SocketAddr × ℕ
shuffle x [] = ([], x)
shuffle x (a ∷ items) = shuffle_from (length items) x (a ∷ items) a

abbrev pub truncate : List SocketAddr → ℕ → List SocketAddr
truncate [] n = []
truncate (a ∷ items) zero = []
truncate (a ∷ items) (suc n) = a ∷ truncate items n

abbrev pub addrs_where : (Peer → Bool) → Map Str Peer → List SocketAddr
addrs_where test [] = []
addrs_where test ((node, p) ∷ peers) =
    if test p then p.addr ∷ addrs_where test peers else addrs_where test peers

-- The loop over the seeds.
unfoldable pub add_seeds : List SocketAddr → List SocketAddr → List SocketAddr
add_seeds dests [] = dests
add_seeds dests (s ∷ seeds) =
    add_seeds (if any (λ a. a =? s) dests then dests else dests ++ (s ∷ [])) seeds

abbrev pub next_seq : Runtime → Runtime
next_seq r = record r { seq = (r.seq + 1) % 2 ^ 64 }

abbrev pub send : Runtime → SocketAddr → ℕ → Kind → Outbox
send r addr seq kind = (addr, snapshot r.shared seq kind) ∷ []

-- The loop of `gossip_round` over the destinations.
unfoldable pub ping_all : List SocketAddr → Runtime → Runtime × Outbox
ping_all [] r = (r, [])
ping_all (a ∷ dests) r =
    let (r', out) = ping_all dests (next_seq r) in (r', send r a (next_seq r).seq ping ++ out)

unfoldable pub gossip_round : Runtime → Runtime × Outbox
gossip_round r =
    let (dests, x) = shuffle r.rng (addrs_where (λ p. not (is_dead p.state)) r.shared.peers) in
    ping_all (add_seeds (truncate dests r.config.gossip_fanout) r.config.seeds)
      (record r { rng = x })

unfoldable pub pick_indirect : SocketAddr → Runtime → List SocketAddr × Runtime
pick_indirect target r =
    let helper : Peer → Bool = λ p. is_alive p.state && not (p.addr =? target) in
    let (helpers, x) = shuffle r.rng (addrs_where helper r.shared.peers) in
    (truncate helpers r.config.indirect_probes, record r { rng = x })

-- A gossip round, behind a first outbox, if it is called for.
abbrev pub round_if : Bool → Runtime → Runtime × Outbox
round_if test r = if test then gossip_round r else (r, [])

unfoldable pub reap : ℕ → Runtime → Runtime × Outbox
reap now r = let (s, died) = reap_suspects now r.shared in round_if died (record r { shared = s })

abbrev pub ask_all : Runtime → Probe → List SocketAddr → Outbox
ask_all r p [] = []
ask_all r p (a ∷ helpers) = send r a p.seq (ping_req p.target_addr) ++ ask_all r p helpers

-- The branches of `advance_probe` for a probe whose deadline has come.
unfoldable pub time_out : ℕ → Probe → ProbePhase → Runtime → Runtime × Outbox
time_out now p direct r =
    let (helpers, r') = pick_indirect p.target_addr r in
    (
      record r' {
        probe = some (record p { phase = indirect; deadline = now + r.config.probe_timeout });
      },
      ask_all r' p helpers,
    )
time_out now p indirect r = gossip_round (record r {
  shared = mark_suspect r.config.suspicion_timeout now p.target r.shared;
  probe = none;
})

unfoldable pub advance_probe : ℕ → Runtime → Runtime × Outbox
advance_probe now r = elim r.probe [
  | none ↦ (r, [])
  | some p ↦ if ltb now p.deadline then (r, []) else time_out now p p.phase r
]
